-- ===== src/Sapi/Callbacks/Writing.antt =====
-- What `ripht_sapi_ub_write` and `write_output` leave in the output buffer of a live request.
use ripht_php_sapi.Prelude.{
  ◌≡◌, refl, ap, sym, false, none, some, List, [], ◌∷◌, ◌++◌, append-nil, append_assoc, length,
  ◌==◌,
}
use ripht_php_sapi.Prelude.Int.{pos}
use ripht_php_sapi.Text.{Bytes}
use ripht_php_sapi.Sapi.Buffer.{BufferPolicy, append_output}
use ripht_php_sapi.Sapi.Context.{ServerContext, write_output}
use ripht_php_sapi.Sapi.State.{Sapi, boxed}
use ripht_php_sapi.Sapi.Engine.{
  Engine, Call, Phase, ret, invoke, run_phase, dispatch_with, run_send_headers, dispatch,
}
use ripht_php_sapi.Sapi.Engine.Live.{Returns, returns, Returns-bind}
use ripht_php_sapi.Sapi.Callbacks.{SendHeaders, ub_write, ensure_headers, with_context, get_context}

-- A request that buffers its output, whose headers were sent, and that has written `out`.
pub record Buffers {C : Type 0} (out : Bytes) (s : Sapi C) : Type 0 where
  pub pointed : s.server_context ≡ boxed
  pub context : ServerContext C
  pub allocated : s.box ≡ some context
  pub unobserved : context.output_callback ≡ none
  pub written : context.output_buffer.content ≡ out
  pub sent : (s.headers_sent == 0) ≡ false

pub content-append_output :
    (policy : BufferPolicy) (bytes : Bytes) (buffer : _)
    → (append_output policy bytes buffer).content ≡ buffer.content ++ bytes
unfolding append_output
content-append_output policy bytes buffer = refl

module _ {C : Type 0} where
  pub write_output-unobserved :
      (policy : BufferPolicy) (bytes : Bytes) (ctx : ServerContext C)
      → ctx.output_callback ≡ none
      → write_output policy bytes ctx ≡ (
        some (length bytes),
        record ctx { output_buffer = append_output policy bytes ctx.output_buffer },
      )
  unfolding write_output
  write_output-unobserved policy bytes ctx h = rw h refl

  -- A write of any bytes appends them and returns their number.
  ub_write-Buffers :
      (php : SendHeaders C) (policy : BufferPolicy) (bytes out : Bytes) (s : Sapi C)
      → Buffers out s
      → Returns
          (λ n s'. (n ≡ length bytes) × Buffers (out ++ bytes) s')
          (ub_write php policy (some bytes) s)
  unfolding ub_write ensure_headers with_context get_context
  ub_write-Buffers php policy [] out s h = returns (refl, rw (append-nil out) h)
  ub_write-Buffers php policy (b ∷ bs) out s h = rw h.sent (
      rw h.pointed (
        rw h.allocated (
          rw (write_output-unobserved policy (b ∷ bs) h.context h.unobserved) (
            returns (
              refl,
              record {
                pointed = refl;
                context = record h.context {
                  output_buffer = append_output policy (b ∷ bs) h.context.output_buffer;
                };
                allocated = refl;
                unobserved = h.unobserved;
                written =
                    rw (content-append_output policy (b ∷ bs) h.context.output_buffer)
                      (ap (λ o. o ++ b ∷ bs) h.written);
                sent = h.sent;
              },
            )))))

-- The phase in which a script writes these chunks and returns 0.
unfoldable pub echo : List Bytes → Phase
echo [] = ret (pos 0)
echo (chunk ∷ chunks) = invoke (Call.ub_write (some chunk)) (λ reply. echo chunks)

-- The chunks in a row.
pub joined : List Bytes → Bytes
joined [] = []
joined (chunk ∷ chunks) = chunk ++ joined chunks

module _ {C : Type 0} (engine : Engine C) (policy : BufferPolicy) where
  dispatch-Buffers :
      (chunk out : Bytes) (s : Sapi C)
      → Buffers out s
      → Returns
          (λ reply s'. Buffers (out ++ chunk) s')
          (dispatch engine policy (Call.ub_write (some chunk)) s)
  unfolding dispatch dispatch_with
  dispatch-Buffers chunk out s h =
      Returns-bind _ _ (ub_write-Buffers (run_send_headers engine policy) policy chunk out s h)
        (λ n s' h'. returns h'.1)

  -- From a request that buffers its output and has sent its headers, a script that writes chunks,
  -- empty ones too, leaves the output that was there followed by the chunks in their order.
  run_phase-echo :
      (chunks : List Bytes) (out : Bytes) (s : Sapi C)
      → Buffers out s
      → Returns
          (λ code s'. (code ≡ pos 0) × Buffers (out ++ joined chunks) s')
          (run_phase engine policy (echo chunks) s)
  unfolding run_phase echo joined
  run_phase-echo [] out s h = returns (refl, rw (append-nil out) h)
  run_phase-echo (chunk ∷ chunks) out s h =
      Returns-bind _ _ (dispatch-Buffers chunk out s h) (λ reply s' h'.
        rw (sym (append_assoc out chunk (joined chunks)))
          (run_phase-echo chunks (out ++ chunk) s' h'))
