-- ===== src/Programs/Basic/Errors.antt =====
-- examples/error_handling.rs.
use ripht_php_sapi.Prelude.{true, not, List, [], ◌∷◌, ◌++◌, any, keep, if◌then◌else◌}
use ripht_php_sapi.Text.{Str, lit}
use ripht_php_sapi.Text.Decimal.{decimal}
use ripht_php_sapi.Execution.Message.{ExecutionMessage, message_is_warning}
use ripht_php_sapi.Execution.Result.{ExecutionResult, body_string, has_errors, errors}
use ripht_php_sapi.Adapters.Web.Methods
use ripht_php_sapi.ExampleHooks.Observer.{debug_level}
use ripht_php_sapi.Programs.{
  Place, Program, ◌>>=◌, ◌>>◌, pure, println, eprintln, start, perform, php_script_path,
}
use ripht_php_sapi.Programs.Basic.{print_each}

message_line : ExecutionMessage → Str
unfolding debug_level
message_line m = lit "  [" ++ (debug_level m.level ++ (lit "] " ++ m.message))

module _ {C : Type 0} where
  print_errors : ExecutionResult → Program C (Unit {0})
  unfolding has_errors errors print_each message_line
  print_errors result =
      if has_errors result
      then eprintln (lit "\nPHP Errors:") >> print_each message_line (errors result)
      else pure tt

  print_warnings : List ExecutionMessage → Program C (Unit {0})
  unfolding print_each message_line
  print_warnings [] = pure tt
  print_warnings (m ∷ ms) = eprintln (lit "\nPHP Warnings:") >> print_each message_line (m ∷ ms)

  main : Place C → Program C (Unit {0})
  unfolding start perform decimal body_string print_errors any keep message_is_warning
      print_warnings
  main place = do
    sapi ← start place
    result ← perform place sapi Methods.get (php_script_path place (lit "errors.php"))
    println (lit "Status: " ++ decimal result.status)
    println (lit "Body: " ++ body_string result)
    print_errors result
    if not (any (λ m. true) result.messages)
        then println (lit "\nNo PHP errors or warnings detected")
        else pure tt
    print_warnings (keep message_is_warning result.messages)
