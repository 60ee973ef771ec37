-- ===== src/Programs/Basic.antt =====
-- examples/basic_execution.rs, and examples/error_handling.rs in the child module.
pub mod Errors
use Prim.Native.String.{String}
use ripht_php_sapi.Prelude.{List, [], ◌∷◌, ◌++◌, if◌then◌else◌}
use ripht_php_sapi.Text.{Str, lit}
use ripht_php_sapi.Text.Decimal.{decimal}
use ripht_php_sapi.Execution.Message.{ExecutionMessage}
use ripht_php_sapi.Execution.Result.{ExecutionResult, body_string, has_errors, errors}
use ripht_php_sapi.Adapters.Method.{get}
use ripht_php_sapi.Adapters.Web.{new_request}
use ripht_php_sapi.Adapters.Web.Methods
use ripht_php_sapi.ExampleHooks.Observer.{debug_level}
use ripht_php_sapi.Programs.{
  Place, Program, ◌>>=◌, ◌>>◌, pure, println, eprintln, start, perform, php_script_path,
}

error_line : ExecutionMessage → Str
unfolding debug_level
error_line m = lit "  " ++ (debug_level m.level ++ (lit ": " ++ m.message))

module _ {C : Type 0} where
  -- A line on the standard error for each message.
  unfoldable pub print_each :
      (ExecutionMessage → Str) → List ExecutionMessage → Program C (Unit {0})
  print_each line [] = pure tt
  print_each line (m ∷ ms) = eprintln (line m) >> print_each line ms

  unfoldable pub print_result : ExecutionResult → Program C (Unit {0})
  unfolding decimal body_string has_errors errors print_each error_line
  print_result result = do
    println (lit "Body: " ++ body_string result)
    println (lit "Status: " ++ decimal result.status)
    if has_errors result
        then (eprintln (lit "PHP errors occurred:") >> print_each error_line (errors result))
        else pure tt

  -- `main` of basic_execution.rs.
  unfoldable pub main : Place C → Program C (Unit {0})
  unfolding start perform print_result
  main place = do
    sapi ← start place
    result ← perform place sapi Methods.get (php_script_path place (lit "hello.php"))
    print_result result
