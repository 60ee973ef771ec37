-- ===== src/Sapi/Execute.antt =====
-- `execute`, `execute_with_hooks` and `execute_streaming` of src/sapi/executor.rs.
pub mod Completion
pub mod Failure
pub mod Filtering
pub mod Lifecycle
use ripht_php_sapi.Prelude.{
  Bool, true, not, none, some, List, [], ◌∷◌, if◌then◌else◌, Result, ok, err,
}
use ripht_php_sapi.Text.{Str, Bytes, lit}
use ripht_php_sapi.Text.FilePath.{FileSystem}
use ripht_php_sapi.Execution.Message.{ExecutionMessage}
use ripht_php_sapi.Execution.Header.{ResponseHeader}
use ripht_php_sapi.Execution.Result.{ExecutionResult}
use ripht_php_sapi.Execution.Hooks.{ExecutionHooks, OutputAction, continue, no_op_hooks}
use ripht_php_sapi.Execution.Context.{ExecutionContext, path_as_cstring}
use ripht_php_sapi.Sapi.Buffer.{BufferPolicy}
use ripht_php_sapi.Sapi.Context.{
  ServerContext, Closure, from_context, set_output_callback, into_result,
}
use ripht_php_sapi.Sapi.State.{M, pure, ◌>>=◌, ◌>>◌, deref}
use ripht_php_sapi.Sapi.Engine.{Engine}
use ripht_php_sapi.Sapi.Executor.{
  ExecutionError, invalid_path, script_not_found, not_initialized, startup_failed, is_failure,
  install, setup_globals, startup, abandon, apply_ini_overrides, run_script, finish,
}

-- The three tests in front of a request: the path of the script as a C string, or the error.
unfoldable pub check_request : Bool → FileSystem → ExecutionContext → Result ExecutionError Bytes
unfolding path_as_cstring
check_request initialized fs ctx =
    if not initialized
    then err not_initialized
    else if not (fs.exists ctx.script_path)
    then err (script_not_found ctx.script_path)
    else elim (path_as_cstring ctx) [
      | none ↦ err (invalid_path (lit "Path contains null byte"))
      | some script ↦ ok script
    ]

module _ {H : Type 0} (hooks : ExecutionHooks H) where
  -- `iter().filter(|h| hooks.on_header(h.name(), h.value()))`.
  unfoldable pub filter_headers : List ResponseHeader → H → List ResponseHeader × H
  filter_headers [] h = ([], h)
  filter_headers (r ∷ rs) h =
      let (kept, h') = hooks.on_header r.name r.value h in
      let (rest, h'') = filter_headers rs h' in (if kept then r ∷ rest else rest, h'')

  unfoldable pub report_messages : List ExecutionMessage → H → H
  report_messages [] h = h
  report_messages (m ∷ ms) h = report_messages ms (hooks.on_php_message m h)

  unfoldable pub body_of : OutputAction → Bytes → Bytes
  body_of continue output = output
  body_of OutputAction.done output = []

  -- The headers of the result: those that the hooks keep; `NoOpHooks` is recognised by its type.
  unfoldable pub result_headers : Bool → List ResponseHeader → H → List ResponseHeader × H
  unfolding filter_headers
  result_headers is_no_op headers h = if is_no_op then (headers, h) else filter_headers headers h

  -- From the server context that a request has left to the result.
  unfoldable pub conclude : {C : Type 0} → Bool → ServerContext C → H → ExecutionResult × H
  unfolding result_headers report_messages body_of
  conclude is_no_op ctx h =
      let (headers, h1) = result_headers is_no_op ctx.response_headers h in
      let h2 = report_messages ctx.messages (hooks.on_status ctx.status_code h1) in
      let (action, h3) = hooks.on_output ctx.output_buffer.content h2 in
      let result : ExecutionResult = record {
        status = ctx.status_code;
        body = body_of action ctx.output_buffer.content;
        headers = headers;
        messages = ctx.messages;
      } in
      (result, hooks.on_request_finished result h3)

-- What a request returns, with the hooks as they are left.
abbrev pub Outcome : Type 0 → Type 0
Outcome H = Result ExecutionError ExecutionResult × H

module _ {C H : Type 0} (engine : Engine C) (policy : BufferPolicy) where
  -- The part of `execute_with_hooks` behind the startup.
  unfoldable pub execute_started : ExecutionHooks H → Bool → Str → Bytes → H → M C (Outcome H)
  unfolding apply_ini_overrides run_script finish conclude
  execute_started hooks is_no_op path script h = do
    entries ← deref (λ c. (c.ini_overrides, c))
    apply_ini_overrides engine entries
    let h1 = hooks.on_script_executing path (hooks.on_request_started h)
    code ← run_script engine policy script
    let h2 = hooks.on_request_finishing (hooks.on_script_executed (not (is_failure code)) h1)
    last ← finish engine policy
    let (result, h3) = conclude hooks is_no_op last h2
    pure (ok result, h3)

  unfoldable pub execute_checked :
      ExecutionHooks H → Bool → ExecutionContext → H → Result ExecutionError Bytes → M C (Outcome H)
  unfolding install setup_globals startup abandon execute_started from_context
  execute_checked hooks is_no_op ctx h (err e) = pure (err e, h)
  execute_checked hooks is_no_op ctx h (ok script) = do
    let h1 = hooks.on_context_created h
    let server_ctx : ServerContext C = from_context policy ctx
    install server_ctx
    setup_globals server_ctx
    let h2 = hooks.on_request_starting h1
    code ← startup engine policy
    if is_failure code
        then (abandon engine policy >> pure (err startup_failed, h2))
        else execute_started hooks is_no_op ctx.script_path script h2

  -- `execute_with_hooks`; `is_no_op` tells whether the type of the hooks is `NoOpHooks`.
  unfoldable pub execute_with_hooks :
      FileSystem → Bool → ExecutionHooks H → Bool → ExecutionContext → H → M C (Outcome H)
  unfolding execute_checked check_request
  execute_with_hooks fs initialized hooks is_no_op ctx h =
      execute_checked hooks is_no_op ctx h (check_request initialized fs ctx)

  -- `execute`.
  unfoldable pub execute : FileSystem → Bool → ExecutionContext → H → M C (Outcome H)
  unfolding execute_with_hooks
  execute fs initialized ctx h = execute_with_hooks fs initialized no_op_hooks true ctx h

-- What the callback for the output has captured, as it is left: an embedding program reads it through
-- what it shares with the closure. A context has the callback that `execute_streaming` has set.
unfoldable pub captured : {C : Type 0} → C → ServerContext C → C
captured c ctx = elim ctx.output_callback [ none ↦ c | some f ↦ f.env ]

module _ {C : Type 0} (engine : Engine C) (policy : BufferPolicy) where
  -- The part of `execute_streaming` behind the startup.
  unfoldable pub stream_started : C → Bytes → M C (Outcome C)
  unfolding apply_ini_overrides run_script finish into_result captured
  stream_started c script = do
    entries ← deref (λ c. (c.ini_overrides, c))
    apply_ini_overrides engine entries
    code ← run_script engine policy script
    last ← finish engine policy
    pure (ok (into_result [] last), captured c last)

  unfoldable pub stream_checked :
      ExecutionContext → Closure Bytes C → Result ExecutionError Bytes → M C (Outcome C)
  unfolding install setup_globals startup abandon stream_started from_context set_output_callback
      captured
  stream_checked ctx on_output (err e) = pure (err e, on_output.env)
  stream_checked ctx on_output (ok script) = do
    let server_ctx : ServerContext C = set_output_callback on_output (from_context policy ctx)
    install server_ctx
    setup_globals server_ctx
    code ← startup engine policy
    if is_failure code
        then (deref (λ c. (captured on_output.env c, c)) >>= λ left.
            (abandon engine policy >> pure (err startup_failed, left)))
        else stream_started on_output.env script

  unfoldable pub execute_streaming :
      FileSystem → Bool → ExecutionContext → Closure Bytes C → M C (Outcome C)
  unfolding stream_checked check_request
  execute_streaming fs initialized ctx on_output =
      stream_checked ctx on_output (check_request initialized fs ctx)
