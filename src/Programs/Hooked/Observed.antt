-- ===== src/Programs/Hooked/Observed.antt =====
-- The programs of examples/hooks_basic.rs and examples/hooks_comprehensive.rs.
use ripht_php_sapi.Prelude.{ℕ, List, [], ◌∷◌, ◌++◌, length, map}
use ripht_php_sapi.Text.{Str, lit}
use ripht_php_sapi.Text.Decimal.{decimal}
use ripht_php_sapi.Execution.Header.{ResponseHeader}
use ripht_php_sapi.Execution.Result.{body_string}
use ripht_php_sapi.Adapters.Web.Methods
use ripht_php_sapi.ExampleHooks.{ComprehensiveHooks, new_hooks, comprehensive_hooks}
use ripht_php_sapi.ExampleHooks.Observer.{LifecycleObserver, observer}
use ripht_php_sapi.Programs.{
  Print, stdout, Place, Program, ◌>>=◌, ◌>>◌, pure, println, start, build_request,
  execute_with_hooks, php_script_path,
}

-- `Drop for LifecycleObserver`.
abbrev drop_observer : LifecycleObserver → List Print
drop_observer events = map (λ m. stdout (lit "Hook log: " ++ (m ++ lit "\n"))) events

module _ {C : Type 0} where
  main_basic : Place C → Program C (Unit {0})
  unfolding start build_request execute_with_hooks observer decimal body_string
  main_basic place = do
    sapi ← start place
    exec ← build_request place Methods.get (php_script_path place (lit "hello.php"))
    println (lit "Executing PHP script with lifecycle hooks...\n")
    result ← execute_with_hooks place sapi observer drop_observer exec []
    println (lit "Execution complete!")
    println (lit "Status: " ++ decimal result.status)
    println (lit "Body: " ++ body_string result)

  print_headers : List ResponseHeader → Program C (Unit {0})
  print_headers [] = pure tt
  print_headers (h ∷ hs) =
      println (lit "  " ++ (h.name ++ (lit ": " ++ h.value))) >> print_headers hs

  main_comprehensive : (ℕ → Str) → Place C → Program C (Unit {0})
  unfolding start build_request execute_with_hooks comprehensive_hooks decimal body_string
      print_headers
  main_comprehensive elapsed place = do
    sapi ← start place
    exec ← build_request place Methods.get (php_script_path place (lit "errors.php"))
    println (lit "=== Comprehensive Hooks Example ===\n")
    println (lit "Running errors.php to show all hook callbacks.")
    println (lit "We'll filter out X-Powered-By header as a demo.\n")
    println (lit "--- Lifecycle Events ---\n")
    result ←
        execute_with_hooks place sapi (comprehensive_hooks elapsed)
          (λ (h : ComprehensiveHooks). map (λ text. stdout (text ++ lit "\n")) h.printed) exec
          new_hooks
    println (lit "\n--- Final Result ---\n")
    println (lit "Status: " ++ decimal result.status)
    println (lit "Headers (" ++ (decimal (length result.headers) ++ lit "):"))
    print_headers result.headers
    println (lit "\nBody:\n" ++ body_string result)
