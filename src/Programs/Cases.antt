-- ===== src/Programs/Cases.antt =====
-- The programs that execute a request for each case of a list: examples/exception_recovery.rs, and
-- examples/file_io.rs and examples/memory_pressure.rs in the child modules.
pub mod Files
pub mod Memory
pub mod Recovery
use Prim.Native.String.{String}
use ripht_php_sapi.Prelude.{ℕ, List, [], ◌∷◌, ◌++◌, ◌==◌, if◌then◌else◌}
use ripht_php_sapi.Text.{Str, lit}
use ripht_php_sapi.Text.Ascii.{trim}
use ripht_php_sapi.Text.Decimal.{decimal}
use ripht_php_sapi.Execution.Result.{ExecutionResult, body_string}
use ripht_php_sapi.Adapters.Method.{get}
use ripht_php_sapi.Adapters.Web.{WebRequest, new_request, with_uri}
use ripht_php_sapi.Adapters.Web.Methods
use ripht_php_sapi.Sapi.Instance.{Module}
use ripht_php_sapi.Programs.{
  Place, Program, ◌>>=◌, ◌>>◌, pure, println, start, perform, php_script_path, dotted,
}

-- A `for` loop whose body may return the error.
unfoldable pub for_each :
    {C A : Type 0} → List A → (A → Program C (Unit {0})) → Program C (Unit {0})
for_each [] body = pure tt
for_each (a ∷ as') body = body a >> for_each as' body

-- A case: its name, the script, and the query.
abbrev pub Case : Type 0
Case = Str × Str × Str

-- `WebRequest::get().with_uri(format!("/?{}", query))`
unfoldable pub query_request : Str → WebRequest
unfolding with_uri
query_request query = with_uri (lit "/?" ++ query) Methods.get

abbrev pub recovery_cases : List Case
recovery_cases =
    (lit "Normal execution", lit "shutdown_behavior.php", lit "action=normal")
    ∷ (lit "exit() with code", lit "shutdown_behavior.php", lit "action=exit_code")
    ∷ (lit "die() with message", lit "shutdown_behavior.php", lit "action=die_message")
    ∷ (lit "return from script", lit "shutdown_behavior.php", lit "action=return")
    ∷ (lit "Exception thrown", lit "exception_handling.php", lit "throw=true")
    ∷ (lit "No exception", lit "exception_handling.php", lit "throw=false")
    ∷ (lit "Fatal error", lit "shutdown_behavior.php", lit "action=fatal")
    ∷ []

-- The line for a case.
unfoldable pub case_line : Str → ExecutionResult → Str
unfolding dotted decimal
case_line name result =
    dotted 30 name
    ++ (lit " "
        ++ (decimal result.status
            ++ (lit " (" ++ ((if result.status == 200 then lit "OK" else lit "ERR") ++ lit ")"))))

unfoldable pub recovery_line : ExecutionResult → Str
unfolding decimal body_string trim
recovery_line result =
    lit "  Post-error request: "
    ++ (decimal result.status ++ (lit " - " ++ trim (body_string result)))

module _ {C : Type 0} (place : Place C) where
  unfoldable pub run_case : Module → Case → Program C (Unit {0})
  unfolding query_request perform case_line
  run_case sapi (name, script, query) = do
    result ← perform place sapi (query_request query) (php_script_path place script)
    println (case_line name result)

  -- `main` of exception_recovery.rs.
  unfoldable pub main : Program C (Unit {0})
  unfolding start run_case for_each perform recovery_line
  main = do
    sapi ← start place
    println (lit "=== PHP Error Recovery ===\n")
    for_each recovery_cases (run_case sapi)
    println (lit "\nRecovery check:")
    result ← perform place sapi Methods.get (php_script_path place (lit "hello.php"))
    println (recovery_line result)
