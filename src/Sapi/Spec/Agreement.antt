-- ===== src/Sapi/Spec/Agreement.antt =====
-- `execute` and `execute_streaming` of src/sapi/executor.rs, side by side on the same request.
use ripht_php_sapi.Prelude.{◌≡◌, sym, ap, ◌∙◌, Bool, false, [], ok}
use ripht_php_sapi.Text.{Bytes}
use ripht_php_sapi.Text.FilePath.{FileSystem}
use ripht_php_sapi.Execution.Context.{ExecutionContext}
use ripht_php_sapi.Execution.Result.{ExecutionResult}
use ripht_php_sapi.Sapi.Buffer.{BufferPolicy}
use ripht_php_sapi.Sapi.State.{Sapi}
use ripht_php_sapi.Sapi.Engine.{Engine}
use ripht_php_sapi.Sapi.Engine.Live.{Returns, Returns-map}
use ripht_php_sapi.Sapi.Executor.{is_failure}
use ripht_php_sapi.Sapi.Execute.{Outcome, check_request, execute, execute_streaming}
use ripht_php_sapi.Sapi.Spec.{Request, Behaviour, left_by, result_of, after_startup, completed}
use ripht_php_sapi.Sapi.Spec.Outlet.{Collects, buffered, streamed}
use ripht_php_sapi.Sapi.Spec.View.{globals}
use ripht_php_sapi.Sapi.Spec.Stages.{Conforms}
use ripht_php_sapi.Sapi.Spec.Requests.{opened, execute_refines}
use ripht_php_sapi.Sapi.Spec.Sequences.{opening, opened-opening}
use ripht_php_sapi.Sapi.Spec.Streaming.{opened_after, execute_streaming_refines}

-- The streamed result is the buffered one without its body, and the callback has taken the body.
abbrev pub Agree :
    {B C : Type 0} → (C → Bytes) → Outcome (Unit {0}) → Sapi B → Outcome C → Sapi C → Type 0
Agree taken out s out' s' =
    ((result : ExecutionResult) × (out.0 ≡ ok result)
      × (out'.0 ≡ ok (record result { body = [] }))
      × (taken out'.1 ≡ result.body))
    × (globals s' ≡ globals s)

module _ {B C : Type 0} (buffering : Engine B) (streaming : Engine C) (policy : BufferPolicy)
    (php : Behaviour) (fn : Bytes → C → Bool × C) (taken : C → Bytes)
    (collects : Collects fn taken) where
  -- The two requests begin as one.
  opened_both :
      (ctx : ExecutionContext) (c : C) (s : Sapi B) (s' : Sapi C)
      → globals s' ≡ globals s
      → taken c ≡ []
      → opened_after (taken c) ctx s' ≡ opened ctx s
  unfolding opened
  opened_both ctx c s s' same empty =
      ap (λ bs. opened_after bs ctx s') empty
      ∙ opened-opening ctx s'
      ∙ ap (opening ctx) same
      ∙ sym (opened-opening ctx s)

  -- For PHP that behaves by the request alone and interns INI names, wherever its output goes, a
  -- callback that does not panic, keeps the bytes that it is given and has none at first, and equal
  -- globals: if the checks pass and the startup does not report a failure, `execute` and
  -- `execute_streaming` both end; the status, the headers and the messages of their results are the
  -- same, the callback has taken the body of the one result and the other has none, and the globals
  -- are equal again.
  pub execute_streaming-execute :
      Conforms ⦃outlet = buffered⦄ buffering php
      → Conforms ⦃outlet = streamed fn taken collects⦄ streaming php
      → (streaming.memchr ≡ buffering.memchr)
      → (fs : FileSystem) (initialized : Bool) (ctx : ExecutionContext) (script : Bytes) (c : C)
        (s : Sapi B) (s' : Sapi C)
      → globals s' ≡ globals s
      → taken c ≡ []
      → check_request initialized fs ctx ≡ ok script
      → is_failure (after_startup buffering.memchr php (opened ctx s)).0 ≡ false
      → Returns
          (λ out s1.
            Returns
              (λ out' s1'. Agree taken out s1 out' s1')
              (execute_streaming streaming policy fs initialized ctx
                (record { fn = fn; env = c })
                s'))
          (execute buffering policy fs initialized ctx tt s)
  execute_streaming-execute buffers streams found fs initialized ctx script c s s' same empty
        checked starts =
      let o = opened_both ctx c s s' same empty in
      let r : Request = (after_startup buffering.memchr php (opened ctx s)).1 in
      let streamed_run =
        execute_streaming_refines streaming policy php fn taken collects streams fs initialized ctx
          script c s' checked
          (ap (λ q. is_failure (after_startup streaming.memchr php q).0) o
            ∙ ap (λ m. is_failure (after_startup m php (opened ctx s)).0) found
            ∙ starts) in
      let e : completed streaming.memchr php script
            (after_startup streaming.memchr php (opened_after (taken c) ctx s')).1
          ≡ completed buffering.memchr php script r =
        ap (λ q. completed streaming.memchr php script (after_startup streaming.memchr php q).1) o
        ∙ ap (λ m. completed m php script (after_startup m php (opened ctx s)).1) found in
      Returns-map
        (λ out s1 a.
          Returns-map
            (λ out' s1' b. (
              (
                result_of (completed buffering.memchr php script r),
                ap (λ (q : Outcome (Unit {0})). q.0) a.0,
                b.0 ∙ ap (λ q. ok (record (result_of q) { body = [] })) e,
                b.1 ∙ ap (λ (q : Request). q.body) e,
              ),
              b.3 ∙ ap left_by e ∙ sym a.2,
            ))
            streamed_run)
        (execute_refines buffering policy php buffers fs initialized ctx script tt s checked starts)
