-- ===== src/ExampleHooks/Observer/Order.antt =====
-- The order in which src/sapi/executor.rs calls the hooks, as the observer of examples/hooks_basic.rs
-- logs it.
use ripht_php_sapi.Prelude.{
  ◌≡◌, refl, sym, ap, ◌∙◌, Bool, false, List, [], ◌∷◌, ◌++◌, map, append-nil, append_assoc, ok,
}
use ripht_php_sapi.Text.{Str, Bytes, lit}
use ripht_php_sapi.Text.FilePath.{FileSystem}
use ripht_php_sapi.Execution.Message.{ExecutionMessage}
use ripht_php_sapi.Execution.Header.{ResponseHeader}
use ripht_php_sapi.Execution.Result.{ExecutionResult}
use ripht_php_sapi.Execution.Context.{ExecutionContext}
use ripht_php_sapi.Sapi.Buffer.{BufferPolicy}
use ripht_php_sapi.Sapi.Context.{ServerContext, into_result}
use ripht_php_sapi.Sapi.Execute.{
  Outcome, check_request, execute_with_hooks, filter_headers, report_messages, result_headers,
  conclude, body_of,
}
use ripht_php_sapi.Sapi.State.{Sapi}
use ripht_php_sapi.Sapi.Engine.{Engine}
use ripht_php_sapi.Sapi.Engine.Live.{Returns, Returns-map}
use ripht_php_sapi.Sapi.Execute.Completion.{Starts}
use ripht_php_sapi.Sapi.Execute.Lifecycle.{told, Concluded, execute_with_hooks-Concluded}
use ripht_php_sapi.ExampleHooks.Observer.{
  LifecycleObserver, script_event, executed_event, output_event, header_event, status_event,
  message_event, finished_event, observer,
}

header_events : List ResponseHeader → List Str
header_events rs = map (λ r. header_event r.name r.value) rs

filter_headers-observer :
    (rs : List ResponseHeader) (events : LifecycleObserver)
    → filter_headers observer rs events ≡ (rs, events ++ header_events rs)
unfolding filter_headers observer header_events
filter_headers-observer [] events = ap (λ es. ([], es)) (sym (append-nil events))
filter_headers-observer (r ∷ rs) events =
    rw (filter_headers-observer rs (events ++ header_event r.name r.value ∷ [])) (
      ap (λ es. (r ∷ rs, es))
        (append_assoc events (header_event r.name r.value ∷ []) (header_events rs)))

report_messages-observer :
    (ms : List ExecutionMessage) (events : LifecycleObserver)
    → report_messages observer ms events ≡ events ++ map message_event ms
unfolding report_messages observer
report_messages-observer [] events = sym (append-nil events)
report_messages-observer (m ∷ ms) events =
    report_messages-observer ms (events ++ message_event m ∷ [])
    ∙ append_assoc events (message_event m ∷ []) (map message_event ms)

-- The events behind the end of PHP's request.
unfoldable pub closing_events : ExecutionResult → List Str
unfolding header_events
closing_events result =
    header_events result.headers
    ++ (status_event result.status
        ∷ (map message_event result.messages
            ++ output_event result.body ∷ finished_event result ∷ []))

in_order :
    (es hs ms : List Str) (a b c : Str)
    → ((((es ++ hs) ++ a ∷ []) ++ ms) ++ b ∷ []) ++ c ∷ [] ≡ es ++ (hs ++ (a ∷ (ms ++ b ∷ c ∷ [])))
in_order es hs ms a b c = simp append_assoc refl

conclude-observer :
    {C : Type 0} (ctx : ServerContext C) (events : LifecycleObserver)
    → conclude observer false ctx events ≡ (
      into_result ctx.output_buffer.content ctx,
      events ++ closing_events (into_result ctx.output_buffer.content ctx),
    )
unfolding conclude result_headers body_of into_result closing_events header_events observer
conclude-observer ctx events = rw (filter_headers-observer ctx.response_headers events) (
    rw (report_messages-observer ctx.messages) (
      ap (λ es. (into_result ctx.output_buffer.content ctx, es))
        (in_order events (header_events ctx.response_headers) (map message_event ctx.messages) _ _
          _)))

-- The events up to the end of PHP's request.
unfoldable pub stage_events : Str → Bool → List Str
stage_events path success =
    lit "context_created"
    ∷ lit "request_starting"
    ∷ lit "request_started"
    ∷ script_event path
    ∷ executed_event success
    ∷ lit "request_finishing"
    ∷ []

-- A result was returned, and the log has grown by the events of the request, which are those that the
-- result tells.
pub record Logged (path : Str) (events : LifecycleObserver) (out : Outcome LifecycleObserver)
    : Type 0 where
  pub success : Bool
  pub result : ExecutionResult
  pub returned : out.0 ≡ ok result
  pub logged : out.1 ≡ events ++ (stage_events path success ++ closing_events result)

six :
    (es : List Str) (a b c d e f : Str)
    → (((((es ++ a ∷ []) ++ b ∷ []) ++ c ∷ []) ++ d ∷ []) ++ e ∷ []) ++ f ∷ []
      ≡ es ++ (a ∷ b ∷ c ∷ d ∷ e ∷ f ∷ [])
six es a b c d e f = simp append_assoc refl

-- What the stages log.
staged :
    (path : Str) (success : Bool) (events : LifecycleObserver)
    → told observer path success events ≡ events ++ stage_events path success
unfolding observer stage_events
staged path success events = six events _ _ _ _ _ _

Logged-Concluded :
    {C : Type 0} (path : Str) (events : LifecycleObserver) (out : Outcome LifecycleObserver)
    → Concluded C observer false path events out
    → Logged path events out
Logged-Concluded path events out h =
    let e = staged path h.success events in
    let ended = conclude-observer h.last (events ++ stage_events path h.success) in
    record {
      success = h.success;
      result = into_result h.last.output_buffer.content h.last;
      returned =
          ap (λ o. o.0) h.returned
          ∙ ap (λ es. ok (conclude observer false h.last es).0) e
          ∙ ap (λ q. ok q.0) ended;
      logged =
          ap (λ o. o.1) h.returned
          ∙ ap (λ es. (conclude observer false h.last es).1) e
          ∙ ap (λ q. q.1) ended
          ∙ append_assoc events (stage_events path h.success) _;
    }

module _ {C : Type 0} (engine : Engine C) (policy : BufferPolicy)
    (starts : Starts engine policy) where
  -- If the checks of a request pass, PHP's startup does not report a failure and INI names can be
  -- interned, then the observer logs the stages in their order, each header of the result, its status,
  -- its messages, its output and its end, once each and in this order, whatever PHP calls.
  pub execute_with_hooks-observer :
      (fs : FileSystem) (initialized : Bool) (ctx : ExecutionContext) (script : Bytes)
      (events : LifecycleObserver) (s : Sapi C)
      → check_request initialized fs ctx ≡ ok script
      → Returns
          (λ out s'. Logged ctx.script_path events out)
          (execute_with_hooks engine policy fs initialized observer false ctx events s)
  execute_with_hooks-observer fs initialized ctx script events s checked =
      Returns-map (λ out s' both. Logged-Concluded ctx.script_path events out both.0)
        (execute_with_hooks-Concluded engine policy starts fs initialized observer false ctx script
          events s checked)
