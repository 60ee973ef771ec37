-- ===== src/Programs/Hooked/Environment.antt =====
-- examples/env_and_ini.rs.
use ripht_php_sapi.Prelude.{List, [], ◌∷◌, ◌++◌, length}
use ripht_php_sapi.Text.{Str, lit}
use ripht_php_sapi.Text.Decimal.{decimal}
use ripht_php_sapi.Execution.Hooks.{ExecutionHooks, continue, no_op_hooks}
use ripht_php_sapi.Execution.Result.{body_string}
use ripht_php_sapi.Adapters.Web.{WebRequest, with_env, with_ini}
use ripht_php_sapi.Adapters.Web.Methods
use ripht_php_sapi.ExampleHooks.Observer.{debug_level, bool_text}
use ripht_php_sapi.Programs.{
  Print, stdout, Place, Program, ◌>>=◌, ◌>>◌, println, start, build_request, execute_with_hooks,
  php_script_path,
}

abbrev hook_line : Str → List Print → List Print
hook_line text printed = printed ++ stdout (lit "[Hook] " ++ (text ++ lit "\n")) ∷ []

-- `impl ExecutionHooks for ValidationHooks`, by what they have printed.
unfoldable validation_hooks : ExecutionHooks (List Print)
unfolding decimal debug_level
validation_hooks = record no_op_hooks {
  on_script_executing = λ script_path. hook_line (lit "Executing: " ++ script_path);
  on_script_executed =
      λ success. hook_line (lit "Script executed successfully: " ++ bool_text success);
  on_output = λ bytes printed. (
    continue,
    hook_line (lit "Output received: " ++ (decimal (length bytes) ++ lit " bytes")) printed,
  );
  on_status = λ code. hook_line (lit "Response status: " ++ decimal code);
  on_php_message =
      λ m. hook_line (lit "PHP message: " ++ (debug_level m.level ++ (lit " - " ++ m.message)));
  on_request_finished = λ result. hook_line (lit "Request finished\n");
}

unfoldable env_request : WebRequest
unfolding with_env with_ini
env_request = with_ini (lit "memory_limit") (lit "64M") (
    with_ini (lit "display_errors") (lit "1")
      (with_env (lit "HELLO") (lit "world") (with_env (lit "FOO") (lit "bar") Methods.get)))

main : {C : Type 0} → Place C → Program C (Unit {0})
unfolding start build_request execute_with_hooks validation_hooks decimal body_string env_request
main place = do
  sapi ← start place
  println (lit "==== Env and Ini demo ====")
  exec ← build_request place env_request (php_script_path place (lit "env_and_ini.php"))
  result ← execute_with_hooks place sapi validation_hooks (λ (h : List Print). h) exec []
  println (lit "Status: " ++ decimal result.status)
  println (lit "\nOutput from PHP:")
  println (body_string result)
