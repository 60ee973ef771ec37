-- ===== src/Tests/Refining.antt =====
-- The specification of a request at concrete inputs.
use ripht_php_sapi.Prelude.{ℕ, ◌≡◌, refl, ap, Bool, true, [], ◌∷◌, ◌++◌, ok}
use ripht_php_sapi.Prelude.Int.{pos}
use ripht_php_sapi.Text.{Bytes, lit}
use ripht_php_sapi.Text.Utf8.{utf8, cstring}
use ripht_php_sapi.Execution.Context.{ExecutionContext, path_as_cstring}
use ripht_php_sapi.Sapi.Callbacks.Writing.{echo}
use ripht_php_sapi.Sapi.Engine.{Phase, run_phase, Call, invoke, ret}
use ripht_php_sapi.Sapi.Engine.Live.{Returns}
use ripht_php_sapi.Sapi.State.{Sapi}
use ripht_php_sapi.Sapi.Execute.{check_request, execute, execute_streaming}
use ripht_php_sapi.Sapi.Spec.{Request, Sending, Behaviour, interpret, after_startup, completed}
use ripht_php_sapi.Sapi.Spec.Outlet.{Outlet, Collects, buffered, streamed}
use ripht_php_sapi.Sapi.Spec.Agreement.{Agree, execute_streaming-execute}
use ripht_php_sapi.Sapi.Spec.Streaming.{Streams, opened_after, execute_streaming_refines}
use ripht_php_sapi.Sapi.Spec.View.{globals, view, Views}
use ripht_php_sapi.Sapi.Spec.Sequences.{Yields, execute_each, execute_each_refines}
use ripht_php_sapi.Sapi.Spec.Phases.{run_phase_refines}
use ripht_php_sapi.Sapi.Spec.Stages.{Conforms}
use ripht_php_sapi.Sapi.Spec.Requests.{opened, Answers, execute_refines}
use ripht_php_sapi.Tests.Data.{
  files, small_policy, send_once, idle, idle_with, live, fresh, php, php_with, hello, first_byte_of,
}

abbrev sent_once : Sending
sent_once r = send_once r.code

sends_agree :
    {C : Type 0} ⦃outlet : Outlet C⦄ (s : Sapi C) (r : Request)
    → Views r s
    → send_once s.http_response_code ≡ sent_once r
unfolding view
sends_agree s r h = ap (λ (q : Request). send_once q.code) h.seen

starts_agree :
    {C : Type 0} ⦃outlet : Outlet C⦄ (s : Sapi C) (r : Request)
    → Views r s
    → ◌≡◌ {A = Phase} (ret (pos s.request_info.content_length)) (ret (pos r.info.content_length))
unfolding view
starts_agree s r h = ap (λ (q : Request). ret (pos q.info.content_length)) h.seen

abbrev steady : Behaviour
steady = record {
  send = sent_once;
  startup = λ r. ret (pos r.info.content_length);
  script = λ path r. echo (lit "he" ∷ lit "llo" ∷ []);
  shutdown = λ r. invoke Call.flush (λ r. ret (pos 0));
  knows = λ key. true;
}

php-Conforms : Conforms ⦃outlet = buffered⦄ php steady
php-Conforms = record {
  sends = sends_agree ⦃outlet = buffered⦄;
  starts = starts_agree ⦃outlet = buffered⦄;
  runs = λ path s r h. refl;
  ends = λ s r h. refl;
  interned = refl;
}

live-Views : Views ⦃outlet = buffered⦄ (view ⦃outlet = buffered⦄ fresh live) live
live-Views = record {
  pointed = refl;
  context = fresh;
  allocated = refl;
  quiet = record { unobserved = refl; unflushed = refl };
  seen = refl;
}

run_phase_refines_example :
    Returns
      (λ code s'.
        (code
          ≡ (interpret first_byte_of sent_once
              (echo (lit "hi" ∷ []))
              (view ⦃outlet = buffered⦄ fresh live)).0)
        × Views ⦃outlet = buffered⦄
            (interpret first_byte_of sent_once
              (echo (lit "hi" ∷ []))
              (view ⦃outlet = buffered⦄ fresh live)).1
            s')
      (run_phase php small_policy (echo (lit "hi" ∷ [])) live)
run_phase_refines_example =
    run_phase_refines ⦃outlet = buffered⦄ php small_policy sent_once
      (sends_agree ⦃outlet = buffered⦄) (echo (lit "hi" ∷ [])) live
      (view ⦃outlet = buffered⦄ fresh live) live-Views

checked_hello : check_request true files hello ≡ ok (lit "hello.php")
unfolding check_request path_as_cstring utf8 cstring
checked_hello = refl

execute_refines_example :
    Returns
      (Answers {H = ℕ} 0 (
        completed first_byte_of steady
          (lit "hello.php")
          (after_startup first_byte_of steady (opened hello idle)).1))
      (execute php small_policy files true hello 0 idle)
unfolding after_startup interpret
execute_refines_example =
    execute_refines php small_policy steady php-Conforms files true hello (lit "hello.php") 0 idle
      checked_hello refl

-- A callback that keeps what it is given, as `Vec::extend_from_slice` does.
abbrev keep_bytes : Bytes → Bytes → Bool × Bytes
keep_bytes bytes kept = (true, kept ++ bytes)

keep_bytes-Collects : Collects keep_bytes (λ kept. kept)
keep_bytes-Collects = record { returns = λ bytes c. refl; takes = λ bytes c. refl }

keeping-Conforms :
    Conforms ⦃outlet = streamed keep_bytes (λ kept. kept) keep_bytes-Collects⦄
      (php_with Bytes)
      steady
keeping-Conforms = record {
  sends = sends_agree ⦃outlet = streamed keep_bytes (λ kept. kept) keep_bytes-Collects⦄;
  starts = starts_agree ⦃outlet = streamed keep_bytes (λ kept. kept) keep_bytes-Collects⦄;
  runs = λ path s r h. refl;
  ends = λ s r h. refl;
  interned = refl;
}

execute_streaming_refines_example :
    Returns
      (Streams
        (λ kept. kept)
        (completed first_byte_of steady
          (lit "hello.php")
          (after_startup first_byte_of steady (opened_after [] hello (idle_with Bytes))).1))
      (execute_streaming
        (php_with Bytes)
        small_policy
        files
        true
        hello
        (record { fn = keep_bytes; env = [] })
        (idle_with Bytes))
unfolding after_startup interpret
execute_streaming_refines_example =
    execute_streaming_refines (php_with Bytes) small_policy steady keep_bytes (λ kept. kept)
      keep_bytes-Collects keeping-Conforms files true hello (lit "hello.php") [] (idle_with Bytes)
      checked_hello refl

-- A request whose path has a NUL, which is refused.
abbrev hidden : ExecutionContext
hidden = record hello { script_path = lit "a" ++ 0 ∷ [] }

execute_each_refines_example :
    Returns
      (Yields php small_policy steady php-Conforms files true
        (hello ∷ hidden ∷ hello ∷ [])
        (globals idle))
      (execute_each php small_policy files true (hello ∷ hidden ∷ hello ∷ []) idle)
unfolding after_startup interpret check_request path_as_cstring utf8 cstring
execute_each_refines_example =
    execute_each_refines php small_policy steady php-Conforms files true
      (hello ∷ hidden ∷ hello ∷ []) (globals idle) idle refl
      (record { unpointed = refl; freed = refl }) (refl, (tt, (refl, tt)))

execute_streaming-execute_example :
    Returns
      (λ out s1.
        Returns
          (λ out' s1'. Agree (λ kept. kept) out s1 out' s1')
          (execute_streaming
            (php_with Bytes)
            small_policy
            files
            true
            hello
            (record { fn = keep_bytes; env = [] })
            (idle_with Bytes)))
      (execute php small_policy files true hello tt idle)
unfolding after_startup interpret
execute_streaming-execute_example =
    execute_streaming-execute php (php_with Bytes) small_policy steady keep_bytes (λ kept. kept)
      keep_bytes-Collects php-Conforms keeping-Conforms refl files true hello (lit "hello.php") []
      idle (idle_with Bytes) refl refl checked_hello refl
