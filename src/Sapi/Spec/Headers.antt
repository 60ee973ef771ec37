-- ===== src/Sapi/Spec/Headers.antt =====
-- The callbacks of src/sapi/callbacks.rs that take headers implement their steps of the specification.
use ripht_php_sapi.Prelude.{
  ℕ, ◌≡◌, refl, Option, none, some, List, [], ◌∷◌, ◌++◌, append-nil, append_assoc, arith,
}
use ripht_php_sapi.Text.{Bytes}
use ripht_php_sapi.Execution.Header.{Memchr, ResponseHeader, parse}
use ripht_php_sapi.Sapi.Context.{ServerContext, add_header, set_status}
use ripht_php_sapi.Sapi.State.{Sapi, pure, deref}
use ripht_php_sapi.Sapi.Callbacks
use ripht_php_sapi.Sapi.Callbacks.{
  SendHeaders, SapiHeaders, with_context, read_header, status_of_code, header_sent_successfully,
}
use ripht_php_sapi.Sapi.Callbacks.Sending.{parsed_line, parsed_lines}
use ripht_php_sapi.Sapi.Spec.{Request, respond, answered}
use ripht_php_sapi.Sapi.Spec.Outlet.{Outlet}
use ripht_php_sapi.Sapi.Spec.View.{
  view, IsQuiet, Implements, Implements-pure, Implements-eq, Implements-bind,
  Implements-with_context, Implements-deref,
}

abbrev with_line : Memchr → Option Bytes → Request → Unit {0} × Request
with_line memchr l r = (tt, record r { headers = r.headers ++ parsed_line memchr l })

abbrev with_lines : Memchr → List (Option Bytes) → Request → Unit {0} × Request
with_lines memchr ls r = (tt, record r { headers = r.headers ++ parsed_lines memchr ls })

nothing_received :
    (r : Request)
    → ◌≡◌ {A = Unit {0} × Request} (tt, r) (tt, record r { headers = r.headers ++ [] })
nothing_received r = rw (append-nil r.headers) refl

module _ {C : Type 0} ⦃outlet : Outlet C⦄ (memchr : Memchr) where
  view-read_header :
      (b : ℕ) (bs : Bytes) (ctx : ServerContext C) (s : Sapi C)
      → view (read_header memchr (b ∷ bs) ctx).1 s
        ≡ (with_line memchr (some (b ∷ bs)) (view ctx s)).1
  unfolding view read_header add_header
  view-read_header b bs ctx s = go (parse memchr (b ∷ bs))
    where
      go :
          (o : Option ResponseHeader)
          → view
              (elim o as (λ _. Unit {0} × ServerContext C) [
                | none ↦ (tt, ctx)
                | some h ↦ (tt, add_header h ctx)
              ]).1
              s
            ≡ record (view ctx s) {
              headers =
                  ctx.response_headers
                  ++ (elim o as (λ _. List ResponseHeader) [ none ↦ [] | some h ↦ h ∷ [] ]);
            }
      go none = rw (append-nil ctx.response_headers) refl
      go (some h) = refl

  IsQuiet-read_header :
      (bytes : Bytes) (ctx : ServerContext C)
      → IsQuiet ctx
      → IsQuiet (read_header memchr bytes ctx).1
  unfolding read_header add_header
  IsQuiet-read_header bytes ctx q = ground (arith)

  pub send_header_lem :
      (l : Option Bytes)
      → Implements {C = C} (Callbacks.send_header memchr (some l)) (with_line memchr l)
  unfolding Callbacks.send_header
  send_header_lem none =
      Implements-eq (pure tt) (λ r. (tt, r)) _ nothing_received (Implements-pure tt)
  send_header_lem (some []) =
      Implements-eq (pure tt) (λ r. (tt, r)) _ nothing_received (Implements-pure tt)
  send_header_lem (some (b ∷ bs)) =
      Implements-with_context tt (deref (read_header memchr (b ∷ bs))) _ (
        Implements-deref (read_header memchr (b ∷ bs)) (with_line memchr (some (b ∷ bs)))
          (IsQuiet-read_header (b ∷ bs)) (λ ctx s q. (refl, view-read_header b bs ctx s)))

  send_each_lem :
      (ls : List (Option Bytes))
      → Implements {C = C} (Callbacks.send_each memchr ls) (with_lines memchr ls)
  unfolding Callbacks.send_each parsed_lines
  send_each_lem [] = Implements-eq (pure tt) (λ r. (tt, r)) _ nothing_received (Implements-pure tt)
  send_each_lem (l ∷ ls) =
      Implements-eq _ (λ r. with_lines memchr ls (with_line memchr l r).1) _
        (λ r. rw (append_assoc r.headers (parsed_line memchr l) (parsed_lines memchr ls)) refl)
        (Implements-bind _ (with_line memchr l) _ (λ _. with_lines memchr ls) (send_header_lem l)
          (λ _. send_each_lem ls))

  pub send_headers_lem :
      (hs : Option SapiHeaders)
      → Implements {C = C}
          (Callbacks.send_headers memchr hs)
          (λ r. (answered hs, respond memchr hs r))
  unfolding Callbacks.send_headers respond set_status view
  send_headers_lem none = Implements-pure _
  send_headers_lem (some hs) = Implements-with_context _ _ _ (
      Implements-bind (deref restart) begin _
        (λ _ r. (header_sent_successfully, (with_lines memchr hs.headers r).1))
        (Implements-deref restart begin
          (λ ctx q. record { unobserved = q.unobserved; unflushed = q.unflushed })
          (λ ctx s q. (refl, refl)))
        (λ _.
          Implements-bind _ (with_lines memchr hs.headers) _ (λ _ r. (header_sent_successfully, r))
            (send_each_lem hs.headers) (λ _. Implements-pure _)))
    where
      restart : ServerContext C → Unit {0} × ServerContext C
      restart ctx = (
        tt,
        record (set_status (status_of_code hs.http_response_code) ctx) { response_headers = [] },
      )

      begin : Request → Unit {0} × Request
      begin r = (tt, record r { status = status_of_code hs.http_response_code; headers = [] })
