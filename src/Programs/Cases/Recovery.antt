-- ===== src/Programs/Cases/Recovery.antt =====
-- The program of examples/exception_recovery.rs goes on behind every request.
use ripht_php_sapi.Prelude.{
  suc, ◌≡◌, refl, sym, ap, ◌∙◌, true, some, List, [], ◌∷◌, ◌++◌, append-nil, append_assoc, length,
  All, All-imp, Result, ok,
}
use ripht_php_sapi.Text.{Str, lit}
use ripht_php_sapi.Execution.Result.{ExecutionResult}
use ripht_php_sapi.Adapters.Method.{get}
use ripht_php_sapi.Adapters.Web.{with_uri}
use ripht_php_sapi.Adapters.Web.Methods
use ripht_php_sapi.Sapi.State.{Sapi, and_then}
use ripht_php_sapi.Sapi.Engine.Live.{IsStatus, Returns, returns, Returns-bind, Returns-map}
use ripht_php_sapi.Sapi.Instance.{Module, is_initialized, sapi_instance}
use ripht_php_sapi.Sapi.Execute.Completion.{IsIdle, Starts}
use ripht_php_sapi.Programs.{
  Print, stdout, Place, Program, perform, proceed, println, php_script_path,
}
use ripht_php_sapi.Programs.Running.{
  IsRunnable, perform-Answered, expect_init-initialized, start_lem,
}
use ripht_php_sapi.Programs.Cases.{
  for_each, Case, query_request, recovery_cases, case_line, recovery_line, run_case, main,
}

-- A line for each element and its result.
unfoldable pub lines_for :
    {A : Type 0} → (A → ExecutionResult → Str) → List A → List ExecutionResult → List Print
lines_for line [] results = []
lines_for line (a ∷ rest) [] = []
lines_for line (a ∷ rest) (r ∷ results) =
    stdout (line a r ++ lit "\n") ∷ lines_for line rest results

module _ {C A : Type 0} (line : A → ExecutionResult → Str) where
  -- A result with a status of HTTP, whose line was printed; and nothing is held.
  abbrev pub PrintsLine : A → Program C (Unit {0}) → Type 0
  PrintsLine a p =
      (out : List Print) (s : Sapi C)
      → Returns
          (λ res s'.
            (result : ExecutionResult) × IsStatus result.status
            × (res ≡ (ok tt, out ++ stdout (line a result ++ lit "\n") ∷ []))
            × IsIdle s')
          (p out s)

  -- As many results as elements, whose lines were printed, in order.
  abbrev pub PrintsLines :
      List A → List Print → Result Str (Unit {0}) × List Print → Sapi C → Type 0
  PrintsLines elements out res s' =
      (results : List ExecutionResult) × (length results ≡ length elements)
      × All (λ (r : ExecutionResult). IsStatus r.status) results
      × (res ≡ (ok tt, out ++ lines_for line elements results))
      × IsIdle s'

  pub for_each-PrintsLines :
      (body : A → Program C (Unit {0})) (elements : List A) (out : List Print) (s : Sapi C)
      → All (λ a. PrintsLine a (body a)) elements
      → IsIdle s
      → Returns (PrintsLines elements out) (for_each elements body out s)
  unfolding for_each lines_for
  for_each-PrintsLines body [] out s h idle =
      returns ([], refl, tt, ap (λ o. (ok tt, o)) (sym (append-nil out)), idle)
  for_each-PrintsLines body (a ∷ rest) out s (h, hs) idle =
      Returns-bind _ _ (h out s) (λ res s' (result, status, e, idle'). rw e (
        Returns-map
          (λ res' s'' (results, same, statuses, e', idle''). (
            result ∷ results,
            ap suc same,
            (status, statuses),
            e' ∙ ap (λ o. (ok tt, o)) (append_assoc out _ (lines_for line rest results)),
            idle'',
          ))
          (for_each-PrintsLines body rest (out ++ stdout (line a result ++ lit "\n") ∷ []) s' hs
            idle')))

module _ {C : Type 0} (place : Place C) (starts : Starts place.engine place.policy) (m : Module)
    (initialized : is_initialized m ≡ true) where
  run_case-PrintsLine :
      (c : Case)
      → IsRunnable place.files (php_script_path place c.1)
      → PrintsLine (λ (k : Case) r. case_line k.0 r) c (run_case place m c)
  unfolding run_case query_request with_uri
  run_case-PrintsLine (name, script, query) h out s =
      Returns-bind _ _
        (perform-Answered place starts m initialized (query_request query) get
          (php_script_path place script) out s refl h)
        (λ res s' (result, e, status, idle). rw e (returns (result, status, refl, idle)))

module _ {C : Type 0} (place : Place C) where
  -- What the program has printed, by the results of its cases and of the last request.
  abbrev pub recovery_report : List ExecutionResult → ExecutionResult → List Print → List Print
  recovery_report results last out =
      (out ++ stdout (lit "=== PHP Error Recovery ===\n\n") ∷ [])
      ++ lines_for (λ (k : Case) r. case_line k.0 r) recovery_cases results
      ++ stdout (lit "\nRecovery check:\n") ∷ stdout (recovery_line last ++ lit "\n") ∷ []

  last_check :
      (starts : Starts place.engine place.policy) (m : Module) (out : List Print) (s : Sapi C)
      → is_initialized m ≡ true
      → IsRunnable place.files (php_script_path place (lit "hello.php"))
      → Returns
          (λ res s'.
            (last : ExecutionResult) × IsStatus last.status
            × (res ≡ (ok tt, out ++ stdout (recovery_line last ++ lit "\n") ∷ []))
            × IsIdle s')
          (and_then
            (perform place m Methods.get (php_script_path place (lit "hello.php")) out s)
            (proceed (λ result. println (recovery_line result))))
  last_check starts m out s begun h =
      Returns-bind _ _
        (perform-Answered place starts m begun Methods.get get
          (php_script_path place (lit "hello.php")) out s refl h)
        (λ res s' (result, e, status, idle). rw e (returns (result, status, refl, idle)))

  -- If PHP can be initialised, its startup of a request does not report a failure, INI names can be
  -- interned, and every script of the program is there, with no null byte in its path, then whatever
  -- PHP calls in each request, a script that exits, dies, throws or fails included, the program ends
  -- well, from globals that hold no request: it has printed its title, a line with the status for each
  -- of its seven cases, in order, and the line of the request behind them; every status is in
  -- 100..=599; and the pointer and the box are gone.
  pub main-Recovers :
      (starts : Starts place.engine place.policy) (m : Module) (out : List Print) (s : Sapi C)
      → sapi_instance place.startup_code place.module_cell ≡ some m
      → All (λ (c : Case). IsRunnable place.files (php_script_path place c.1)) recovery_cases
      → IsRunnable place.files (php_script_path place (lit "hello.php"))
      → IsIdle s
      → Returns
          (λ res s'.
            (results : List ExecutionResult) × (last : ExecutionResult) × (length results ≡ 7)
            × All (λ (r : ExecutionResult). IsStatus r.status) (last ∷ results)
            × (res ≡ (ok tt, recovery_report results last out))
            × IsIdle s')
          (main place out s)
  unfolding main
  main-Recovers starts m out s found scripts hello idle =
      let begun : is_initialized m ≡ true =
        expect_init-initialized place.startup_code place.module_cell m found in
      rw (main, start_lem place m out s found)
        (Returns-bind _ _
          (for_each-PrintsLines (λ (k : Case) r. case_line k.0 r) (run_case place m) recovery_cases
            (out ++ stdout (lit "=== PHP Error Recovery ===\n\n") ∷ []) s
            (All-imp (run_case-PrintsLine place starts m begun) recovery_cases scripts) idle)
          (λ res s' (results, same, statuses, e, idle'). rw e (
            Returns-map
              (λ res' s'' (last, status, e', idle''). (
                results,
                last,
                same,
                (status, statuses),
                e'
                    ∙ ap (λ o. (ok tt, o))
                        (append_assoc _ (stdout (lit "\nRecovery check:\n") ∷ []) _),
                idle'',
              ))
              (last_check starts m _ s' begun hello))))
