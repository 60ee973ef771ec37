-- ===== src/Tests/Requests.antt =====
-- Requests to PHP, and its callbacks, at concrete inputs.
use ripht_php_sapi.Prelude.{
  ℕ, ◌≤◌, ◌<◌, ◌≡◌, ◌⊎◌, refl, true, false, none, some, [], ◌∷◌, arith, ok, err,
}
use ripht_php_sapi.Prelude.Int.{pos}
use ripht_php_sapi.Text.{lit}
use ripht_php_sapi.Text.Utf8.{utf8, cstring}
use ripht_php_sapi.Execution.Hooks.{no_op_hooks}
use ripht_php_sapi.Execution.Context.{path_as_cstring}
use ripht_php_sapi.Sapi.State.{fault}
use ripht_php_sapi.Sapi.Context.Reading.{read_all, read_all-from_context}
use ripht_php_sapi.Sapi.Context.{from_context}
use ripht_php_sapi.Sapi.Buffer.{append_output, grow, grow_fixed}
use ripht_php_sapi.Sapi.Buffer.Growing.{append_output_lem, grow_fixed_bounds}
use ripht_php_sapi.Sapi.Callbacks.{status_of_code, send_headers, header_sent_successfully}
use ripht_php_sapi.Sapi.Callbacks.Sending.{Holds, parsed_lines, send_headers-response}
use ripht_php_sapi.Sapi.Engine.{run_phase, Call, invoke, ret}
use ripht_php_sapi.Sapi.Engine.Live.{IsLive, Returns, returns}
use ripht_php_sapi.Sapi.Engine.Safety.{Safe-run_phase}
use ripht_php_sapi.Sapi.Executor.{startup_failed, startup}
use ripht_php_sapi.Sapi.Execute.{check_request, execute_with_hooks, execute_streaming}
use ripht_php_sapi.Sapi.Execute.Completion.{
  IsIdle, Starts, Completed, execute_with_hooks-Completed, execute_streaming-Completed,
}
use ripht_php_sapi.Sapi.Execute.Failure.{
  StartupFails, startup_failed_use_after_free, startup_failed-released,
}
use ripht_php_sapi.Sapi.Instance.{Module, init}
use ripht_php_sapi.ExampleHooks.Observer.{observer}
use ripht_php_sapi.ExampleHooks.Observer.Order.{Logged, execute_with_hooks-observer}
use ripht_php_sapi.Tests.Data.{
  files, small_policy, idle, live, fresh, php, broken_php, logging_php, hello, counter,
  first_byte_of,
}

hello-checked : check_request true files hello ≡ ok (lit "hello.php")
unfolding check_request path_as_cstring utf8 cstring
hello-checked = refl

pub php-Starts : Starts php small_policy
unfolding startup run_phase
php-Starts = record { init = λ key. true; interned = refl; succeeds = λ s h. returns refl }

broken_php-fails : StartupFails broken_php small_policy
unfolding startup run_phase
broken_php-fails = λ s h. returns refl

logging_php-fails : StartupFails logging_php small_policy
unfolding startup run_phase
logging_php-fails = λ s h. returns refl

live-IsLive : IsLive live
live-IsLive = record { pointed = refl; context = fresh; allocated = refl; status = ground arith }

execute_with_hooks-Completed_example :
    Returns
      (λ out s'. Completed out.0 s')
      (execute_with_hooks {H = ℕ} php small_policy files true no_op_hooks true hello 0 idle)
execute_with_hooks-Completed_example =
    execute_with_hooks-Completed php small_policy php-Starts files true no_op_hooks true hello
      (lit "hello.php") 0 idle hello-checked

execute_streaming-Completed_example :
    Returns
      (λ out s'. Completed out.0 s')
      (execute_streaming php small_policy files true hello counter idle)
execute_streaming-Completed_example =
    execute_streaming-Completed php small_policy php-Starts files true hello counter
      (lit "hello.php") idle hello-checked

Safe-run_phase_example :
    Returns
      (λ code s'. IsLive s')
      (run_phase php small_policy
        (invoke (Call.ub_write (some (lit "hi"))) (λ r. ret (pos 0)))
        live)
Safe-run_phase_example =
    Safe-run_phase php small_policy (invoke (Call.ub_write (some (lit "hi"))) (λ r. ret (pos 0)))
      live live-IsLive

startup_failed_use_after_free_example :
    execute_with_hooks {H = ℕ} logging_php small_policy files true no_op_hooks true hello 0 idle
    ≡ fault
startup_failed_use_after_free_example =
    startup_failed_use_after_free logging_php small_policy files true no_op_hooks true hello
      (lit "hello.php") 0 idle (lit "failed") (pos 3) (λ r. ret (pos 0)) hello-checked
      logging_php-fails (λ s. refl)

startup_failed-released_example :
    Returns
      (λ out s'. (out.0 ≡ err startup_failed) × IsIdle s')
      (execute_with_hooks {H = ℕ} broken_php small_policy files true no_op_hooks true hello 0 idle)
startup_failed-released_example =
    startup_failed-released broken_php small_policy files true no_op_hooks true hello
      (lit "hello.php") 0 idle (pos 0) hello-checked broken_php-fails (λ s. refl)

send_headers-response_example :
    Returns
      (λ code s'.
        (code ≡ header_sent_successfully)
        × Holds
            (record fresh {
              status_code = status_of_code (pos 404);
              response_headers = parsed_lines first_byte_of (some (lit "A: b") ∷ []);
            })
            s')
      (send_headers first_byte_of
        (some (record { http_response_code = pos 404; headers = some (lit "A: b") ∷ [] }))
        live)
send_headers-response_example =
    send_headers-response first_byte_of
      (record { http_response_code = pos 404; headers = some (lit "A: b") ∷ [] }) live fresh
      (record { pointed = refl; allocated = refl })

read_all-from_context_example :
    (read_all
      (2 ∷ 2 ∷ [])
      (from_context {C = ℕ} small_policy (record hello { input = lit "abc" }))).0
    ≡ lit "abc"
read_all-from_context_example =
    read_all-from_context ℕ small_policy (record hello { input = lit "abc" }) (2 ∷ 2 ∷ [])
      (ground arith)

append_output_lem_example :
    ((append_output small_policy (lit "ab") (record { content = lit "c"; capacity = 1 })).content
      ≡ lit "cab")
    × ((append_output small_policy (lit "ab") (record { content = lit "c"; capacity = 1 })).capacity
        ≡ grow small_policy 1 1 3)
    × (3
        ≤ (append_output small_policy
            (lit "ab")
            (record { content = lit "c"; capacity = 1 })).capacity)
    × (1
        ≤ (append_output small_policy
            (lit "ab")
            (record { content = lit "c"; capacity = 1 })).capacity)
unfolding append_output
append_output_lem_example =
    append_output_lem small_policy (lit "ab") (record { content = lit "c"; capacity = 1 }) tt
      (ground arith)

grow_fixed_bounds_example :
    (9 ≤ grow_fixed 9 4 9 2)
    × (2 ≤ grow_fixed 9 4 9 2)
    × ((grow_fixed 9 4 9 2 < 13) ⊎ (grow_fixed 9 4 9 2 ≡ 2))
grow_fixed_bounds_example = grow_fixed_bounds 9 4 9 2 (ground arith) (ground arith) (ground arith)

-- Hooks that add up the lengths of what they are given.
abbrev unset : Module
unset = record { init_result = none; calls = [] }

execute_with_hooks-observer_example :
    Returns
      (λ out s'. Logged (lit "hello.php") [] out)
      (execute_with_hooks php small_policy files true observer false hello [] idle)
execute_with_hooks-observer_example =
    execute_with_hooks-observer php small_policy php-Starts files true hello (lit "hello.php") []
      idle hello-checked
