-- ===== src/Sapi/Spec/Output.antt =====
-- The callbacks of src/sapi/callbacks.rs that take output implement their steps of the specification.
use ripht_php_sapi.Prelude.{
  ℕ, ◌≡◌, refl, ap, ◌∙◌, Option, none, some, [], ◌∷◌, ◌++◌, length, Bool-cases, inl, inr, ◌==◌,
  get_or,
}
use ripht_php_sapi.Text.{Bytes}
use ripht_php_sapi.Execution.Header.{Memchr}
use ripht_php_sapi.Sapi.Buffer.{BufferPolicy, append_output}
use ripht_php_sapi.Sapi.Context.{ServerContext, write_output, flush}
use ripht_php_sapi.Sapi.State.{Sapi}
use ripht_php_sapi.Sapi.Callbacks
use ripht_php_sapi.Sapi.Callbacks.{
  SendHeaders, SapiHeaders, with_context, read_header, status_of_code, header_sent_successfully,
}
use ripht_php_sapi.Sapi.Engine.Live.{returns}
use ripht_php_sapi.Sapi.Spec.{Request, Sending, start_output, write}
use ripht_php_sapi.Sapi.Spec.Outlet.{Outlet}
use ripht_php_sapi.Sapi.Spec.View.{
  view, Views, Implements, Implements-pure, Implements-bind, Implements-with_context,
  Implements-deref,
}
use ripht_php_sapi.Sapi.Engine.{Sends}

flush_of_none : {C : Type 0} (ctx : ServerContext C) → ctx.flush_callback ≡ none → flush ctx ≡ ctx
unfolding flush
flush_of_none ctx h = rw h refl

-- PHP sends the headers in the same way in every state that stands for a request.
abbrev pub Agrees : {C : Type 0} ⦃outlet : Outlet C⦄ → (Sapi C → Sends) → Sending → Type 0
Agrees {C} php send = (s : Sapi C) (r : Request) → Views r s → php s ≡ send r

module _ {C : Type 0} ⦃outlet : Outlet C⦄ (memchr : Memchr) (php : SendHeaders C)
    (send : Request → Request) (sends : Implements php (λ r. (tt, send r))) where
  ensure_headers_lem :
      Implements (Callbacks.ensure_headers php) (λ r. (tt, start_output memchr send r))
  unfolding Callbacks.ensure_headers start_output view
  ensure_headers_lem s r h = elim (Bool-cases (r.sent == 0)) [
    | inl unsent ↦ rw (ap (λ q. q.sent == 0) h.seen ∙ unsent) (rw unsent (sends s r h))
    | inr sent ↦ rw (ap (λ q. q.sent == 0) h.seen ∙ sent) (rw sent (returns (refl, h)))
  ]

  pub ub_write_lem :
      (policy : BufferPolicy) (str : Option Bytes)
      → Implements (Callbacks.ub_write php policy str) (write memchr send str)
  unfolding Callbacks.ub_write write append_output view
  ub_write_lem policy none = Implements-pure 0
  ub_write_lem policy (some []) = Implements-pure 0
  ub_write_lem policy (some (b ∷ bs)) =
      Implements-bind _ (λ r. (tt, start_output memchr send r)) _
        (λ _ r. (length (b ∷ bs), record r { body = r.body ++ b ∷ bs })) ensure_headers_lem
        (λ _. Implements-with_context 0 _ _ (
          Implements-deref written _
            (λ ctx q.
              let w = outlet.writes policy (b ∷ bs) ctx q.unobserved in
              rw w.2 (record { unobserved = w.3; unflushed = q.unflushed }))
            (λ ctx s q.
              let w = outlet.writes policy (b ∷ bs) ctx q.unobserved in
              rw w.2 (refl, ap (λ out. record (view ctx s) { body = out }) w.4))))
    where
      written : ServerContext C → ℕ × ServerContext C
      written ctx = let (n, ctx') = write_output policy (b ∷ bs) ctx in (get_or n 0, ctx')

  pub flush_lem : Implements (Callbacks.flush_output php) (λ r. (tt, start_output memchr send r))
  unfolding Callbacks.flush_output view
  flush_lem =
      Implements-bind _ (λ r. (tt, start_output memchr send r)) _ (λ _ r. (tt, r))
        ensure_headers_lem
        (λ _. Implements-with_context tt _ _ (
          Implements-deref (λ ctx. (tt, flush ctx)) _
            (λ ctx q. rw (flush_of_none ctx q.unflushed) q)
            (λ ctx s q. rw (flush_of_none ctx q.unflushed) (refl, refl))))
