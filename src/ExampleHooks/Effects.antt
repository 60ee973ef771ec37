-- ===== src/ExampleHooks/Effects.antt =====
-- What the hooks of examples/hooks_comprehensive.rs do to a result, and what they count.
use ripht_php_sapi.Prelude.{
  ℕ, ◌+◌, ◌≡◌, refl, ap, ◌∙◌, false, List, [], ◌∷◌, length, keep, arith, if◌then◌else◌,
}
use ripht_php_sapi.Text.{Str}
use ripht_php_sapi.Execution.Message.{ExecutionMessage, is_error_or_worse}
use ripht_php_sapi.Execution.Header.{ResponseHeader}
use ripht_php_sapi.Execution.Result.{ExecutionResult}
use ripht_php_sapi.Sapi.Context.{ServerContext}
use ripht_php_sapi.Sapi.Execute.{filter_headers, report_messages, result_headers, conclude, body_of}
use ripht_php_sapi.ExampleHooks.{
  ComprehensiveHooks, should_include, on_header, count_message, on_php_message, on_output,
  comprehensive_hooks,
}

module _ (elapsed : ℕ → Str) where
  filter_headers-comprehensive :
      (rs : List ResponseHeader) (h : ComprehensiveHooks)
      → (filter_headers (comprehensive_hooks elapsed) rs h).0
        ≡ keep (λ r. should_include elapsed h r.name) rs
  unfolding filter_headers keep comprehensive_hooks on_header should_include
  filter_headers-comprehensive [] h = refl
  filter_headers-comprehensive (r ∷ rs) h = rw (filter_headers-comprehensive rs) refl

  -- These hooks change a result in its headers alone, of which they leave out those that they filter.
  pub conclude-comprehensive :
      {C : Type 0} (ctx : ServerContext C) (h : ComprehensiveHooks)
      → (conclude (comprehensive_hooks elapsed) false ctx h).0 ≡ record {
        status = ctx.status_code;
        body = ctx.output_buffer.content;
        headers = keep (λ r. should_include elapsed h r.name) ctx.response_headers;
        messages = ctx.messages;
      }
  unfolding conclude result_headers body_of comprehensive_hooks on_output
  conclude-comprehensive ctx h =
      ap with_headers (filter_headers-comprehensive ctx.response_headers h)
    where
      with_headers : List ResponseHeader → ExecutionResult
      with_headers headers = record {
        status = ctx.status_code;
        body = ctx.output_buffer.content;
        headers = headers;
        messages = ctx.messages;
      }

  counted :
      (m : ExecutionMessage) (h : ComprehensiveHooks)
      → (on_php_message elapsed m h).error_count
        ≡ h.error_count + (if is_error_or_worse m.level then 1 else 0)
  unfolding on_php_message count_message
  counted m h = ground arith

  -- The errors among the messages are counted.
  pub report_messages-error_count :
      (ms : List ExecutionMessage) (h : ComprehensiveHooks)
      → (report_messages (comprehensive_hooks elapsed) ms h).error_count
        ≡ h.error_count + length (keep (λ m. is_error_or_worse m.level) ms)
  unfolding report_messages comprehensive_hooks on_php_message count_message keep
  report_messages-error_count [] h = omega arith
  report_messages-error_count (m ∷ ms) h =
      report_messages-error_count ms (on_php_message elapsed m h) ∙ ground (arith, counted m h)
