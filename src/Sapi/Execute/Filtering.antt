-- ===== src/Sapi/Execute/Filtering.antt =====
-- What the hooks see of a request that has ended, and what they leave of its headers and its body.
use ripht_php_sapi.Prelude.{◌≡◌, ◌↔◌, refl, Bool, true, false, some, List, [], ◌∷◌, arith, keep, ok}
use ripht_php_sapi.Text.{Str, Bytes}
use ripht_php_sapi.Text.FilePath.{FileSystem}
use ripht_php_sapi.Execution.Header.{ResponseHeader}
use ripht_php_sapi.Execution.Hooks.{ExecutionHooks, no_op_hooks, streaming_callback}
use ripht_php_sapi.Execution.Context.{ExecutionContext, path_as_cstring}
use ripht_php_sapi.Sapi.Context.{ServerContext, into_result}
use ripht_php_sapi.Sapi.Execute.{
  check_request, filter_headers, report_messages, result_headers, conclude, body_of,
}

module _ {H : Type 0} (hooks : ExecutionHooks H) (p : Str → Str → Bool)
    (decides : (name value : Str) (h : H) → hooks.on_header name value h ≡ (p name value, h)) where
  -- Hooks that decide on a header by its name and its value alone keep the headers that they
  -- accept, in their order.
  filter_headers-keep :
      (rs : List ResponseHeader) (h : H)
      → filter_headers hooks rs h ≡ (keep (λ r. p r.name r.value) rs, h)
  unfolding filter_headers keep
  filter_headers-keep [] h = refl
  filter_headers-keep (r ∷ rs) h = rw decides (rw (filter_headers-keep rs h) (ground arith))

module _ {H : Type 0} where
  report_messages-no_op : (ms : List _) (h : H) → report_messages no_op_hooks ms h ≡ h
  unfolding report_messages
  report_messages-no_op [] h = refl
  report_messages-no_op (m ∷ ms) h = report_messages-no_op ms h

  filter_headers-no_op :
      (rs : List ResponseHeader) (h : H) → filter_headers no_op_hooks rs h ≡ (rs, h)
  unfolding filter_headers
  filter_headers-no_op [] h = refl
  filter_headers-no_op (r ∷ rs) h = rw (filter_headers-no_op rs h) refl

  -- To recognise `NoOpHooks` by its type changes nothing: to filter with it leaves the same result,
  -- which is that of `into_result` with the output as the body, and the same hooks.
  pub conclude-no_op :
      {C : Type 0} (is_no_op : Bool) (ctx : ServerContext C) (h : H)
      → conclude no_op_hooks is_no_op ctx h ≡ (into_result ctx.output_buffer.content ctx, h)
  unfolding conclude result_headers body_of into_result
  conclude-no_op true ctx h = rw report_messages-no_op refl
  conclude-no_op false ctx h = rw filter_headers-no_op (rw report_messages-no_op refl)

  filter_headers-streaming :
      (f : Bytes → H → H) (rs : List ResponseHeader) (h : H)
      → filter_headers (streaming_callback f) rs h ≡ (rs, h)
  unfolding filter_headers
  filter_headers-streaming f [] h = refl
  filter_headers-streaming f (r ∷ rs) h = rw (filter_headers-streaming f rs h) refl

  report_messages-streaming :
      (f : Bytes → H → H) (ms : List _) (h : H) → report_messages (streaming_callback f) ms h ≡ h
  unfolding report_messages
  report_messages-streaming f [] h = refl
  report_messages-streaming f (m ∷ ms) h = report_messages-streaming f ms h

  -- `StreamingCallback` passes every header, takes the whole output once, and leaves no body.
  conclude-streaming_callback :
      {C : Type 0} (output_fn : Bytes → H → H) (ctx : ServerContext C) (h : H)
      → conclude (streaming_callback output_fn) false ctx h
        ≡ (into_result [] ctx, output_fn ctx.output_buffer.content h)
  unfolding conclude result_headers body_of into_result
  conclude-streaming_callback output_fn ctx h =
      rw (filter_headers-streaming output_fn ctx.response_headers h)
        (rw (report_messages-streaming output_fn ctx.messages h) refl)

-- The checks pass exactly if PHP is initialised, the script exists, and its path has no null byte.
pub check_request-ok :
    (initialized : Bool) (fs : FileSystem) (ctx : ExecutionContext) (script : Bytes)
    → (check_request initialized fs ctx ≡ ok script) ↔ (
        (initialized ≡ true)
        × (fs.exists ctx.script_path ≡ true)
        × (path_as_cstring ctx ≡ some script))
unfolding check_request
check_request-ok initialized fs ctx script = ground arith
