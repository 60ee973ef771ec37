-- ===== src/Sapi/Spec/Streaming.antt =====
-- A request to `execute_streaming` of src/sapi/executor.rs has the result that the specification gives,
-- and its callback is given the body.
use ripht_php_sapi.Prelude.{◌≡◌, refl, ap, ◌∙◌, Bool, false, Option, none, some, [], ok}
use ripht_php_sapi.Text.{Bytes}
use ripht_php_sapi.Text.FilePath.{FileSystem}
use ripht_php_sapi.Execution.Context.{ExecutionContext}
use ripht_php_sapi.Execution.Result.{ExecutionResult}
use ripht_php_sapi.Sapi.Buffer.{BufferPolicy}
use ripht_php_sapi.Sapi.Context.{
  Closure, ServerContext, context_request_method, context_query_string, context_content_type,
  into_result, from_context, set_output_callback,
}
use ripht_php_sapi.Sapi.State.{Sapi}
use ripht_php_sapi.Sapi.Engine.{Engine}
use ripht_php_sapi.Sapi.Engine.Live.{Returns, returns}
use ripht_php_sapi.Sapi.Executor.{is_failure}
use ripht_php_sapi.Sapi.Execute.{
  Outcome, check_request, captured, stream_started, stream_checked, execute_streaming,
}
use ripht_php_sapi.Sapi.Execute.Completion.{IsIdle}
use ripht_php_sapi.Sapi.Spec.{Request, Behaviour, left_by, result_of, after_startup, completed}
use ripht_php_sapi.Sapi.Spec.Outlet.{Collects, IsCallback, taken_by, streamed}
use ripht_php_sapi.Sapi.Spec.View.{view, globals, Views}
use ripht_php_sapi.Sapi.Spec.Stages.{Conforms}
use ripht_php_sapi.Sapi.Spec.Requests.{opened, ran_lem, started_lem}

-- The result is that of the response with no body, the callback has taken the body, nothing is held,
-- and PHP's globals are as the request has left them.
abbrev pub Streams : {C : Type 0} → (C → Bytes) → Request → Outcome C → Sapi C → Type 0
Streams taken r out s' =
    (out.0 ≡ ok (record (result_of r) { body = [] }))
    × (taken out.1 ≡ r.body)
    × IsIdle s'
    × (globals s' ≡ left_by r)

-- The request that begins with an execution context, whose callback has taken some bytes before.
abbrev pub opened_after : {C : Type 0} → Bytes → ExecutionContext → Sapi C → Request
opened_after before ctx s = record (opened ctx s) { body = before }

module _ {C : Type 0} (engine : Engine C) (policy : BufferPolicy) (php : Behaviour)
    (fn : Bytes → C → Bool × C) (taken : C → Bytes) (collects : Collects fn taken)
    (conforms : Conforms ⦃outlet = streamed fn taken collects⦄ engine php) where
  captured-taken :
      (c : C) (callback : Option (Closure Bytes C)) (ctx : ServerContext C)
      → IsCallback fn callback
      → ctx.output_callback ≡ callback
      → taken (captured c ctx) ≡ taken_by taken callback
  unfolding captured
  captured-taken c none ctx free e = absurd (cc free.1)
  captured-taken c (some f) ctx free e = rw e refl

  stream_started_lem :
      (c : C) (script : Bytes) (s : Sapi C) (r : Request)
      → Views ⦃outlet = streamed fn taken collects⦄ r s
      → Returns
          (Streams taken (completed engine.memchr php script r))
          (stream_started engine policy c script s)
  unfolding stream_started into_result
  stream_started_lem c script s r v =
      ran_lem ⦃outlet = streamed fn taken collects⦄ engine policy php conforms _ script _ s r v
        (λ code last s' b. returns (
          ap (λ (q : ExecutionResult). ok (record q { body = [] })) b.0,
          captured-taken c last.output_callback last b.1.unobserved refl
              ∙ ap (λ (q : ExecutionResult). q.body) b.0,
          b.2,
          b.3,
        ))

  -- For PHP that behaves by the request alone and interns INI names and a callback that does not
  -- panic and keeps the bytes that it is given: if the checks of a request pass and the startup does
  -- not report a failure, `execute_streaming` ends; its result has the status, the headers and the
  -- messages of the request that the specification completes from the execution context, and an
  -- empty body; the callback has kept, behind what it had before, the body of that request, each
  -- byte once and in order; the pointer and the box are gone; and PHP's globals are as that request
  -- has left them.
  pub execute_streaming_refines :
      (fs : FileSystem) (initialized : Bool) (ctx : ExecutionContext) (script : Bytes) (c : C)
      (s : Sapi C)
      → check_request initialized fs ctx ≡ ok script
      → is_failure (after_startup engine.memchr php (opened_after (taken c) ctx s)).0 ≡ false
      → Returns
          (Streams taken (
            completed engine.memchr php script
              (after_startup engine.memchr php (opened_after (taken c) ctx s)).1))
          (execute_streaming engine policy fs initialized ctx (record { fn = fn; env = c }) s)
  unfolding execute_streaming stream_checked opened from_context set_output_callback view
      context_request_method context_query_string context_content_type
  execute_streaming_refines fs initialized ctx script c s checked starts =
      let r : Request = (after_startup engine.memchr php (opened_after (taken c) ctx s)).1 in
      rw checked (
        started_lem ⦃outlet = streamed fn taken collects⦄ engine policy php conforms
          (Streams taken (completed engine.memchr php script r))
          (set_output_callback (record { fn = fn; env = c }) (from_context policy ctx))
          (opened_after (taken c) ctx s) _ (stream_started engine policy c script) s
          (record { unobserved = (c, refl); unflushed = refl }) refl starts
          (λ s' v. stream_started_lem c script s' r v))
