-- ===== src/Sapi/Callbacks/Sending.antt =====
-- What the callbacks leave in the server context of a live request (src/sapi/callbacks.rs).
use ripht_php_sapi.Prelude.{
  ℕ, ◌≡◌, refl, ◌∙◌, Option, none, some, List, [], ◌∷◌, ◌++◌, append-nil, append_assoc, sym, ap,
}
use ripht_php_sapi.Text.{Bytes}
use ripht_php_sapi.Execution.Header.{Memchr, ResponseHeader, parse}
use ripht_php_sapi.Sapi.Context.{ServerContext, add_header, set_status}
use ripht_php_sapi.Sapi.State.{Sapi, boxed}
use ripht_php_sapi.Sapi.Engine.Live.{Returns, returns, Returns-bind}
use ripht_php_sapi.Sapi.Callbacks.{
  SapiHeaders, send_header, send_each, send_headers, read_header, with_context, get_context,
  status_of_code, header_sent_successfully,
}

-- The lines that are headers.
abbrev pub parsed_line : Memchr → Option Bytes → List ResponseHeader
parsed_line memchr none = []
parsed_line memchr (some []) = []
parsed_line memchr (some (b ∷ bs)) = elim (parse memchr (b ∷ bs)) [ none ↦ [] | some h ↦ h ∷ [] ]

unfoldable pub parsed_lines : Memchr → List (Option Bytes) → List ResponseHeader
unfolding parse
parsed_lines memchr [] = []
parsed_lines memchr (l ∷ ls) = parsed_line memchr l ++ parsed_lines memchr ls

-- PHP's globals point to the box, which holds this context.
pub record Holds {C : Type 0} (ctx : ServerContext C) (s : Sapi C) : Type 0 where
  pub pointed : s.server_context ≡ boxed
  pub allocated : s.box ≡ some ctx

module _ {C : Type 0} (memchr : Memchr) where
  with_headers : List ResponseHeader → ServerContext C → ServerContext C
  with_headers hs ctx = record ctx { response_headers = hs }

  received : Option Bytes → ServerContext C → ServerContext C
  unfolding with_headers
  received l ctx = with_headers (ctx.response_headers ++ parsed_line memchr l) ctx

  received-none : (ctx : ServerContext C) → with_headers (ctx.response_headers ++ []) ctx ≡ ctx
  unfolding with_headers
  received-none ctx = rw (append-nil ctx.response_headers) refl

  received-nothing : (ctx : ServerContext C) → received none ctx ≡ ctx
  unfolding received
  received-nothing ctx = received-none ctx

  read_header-received :
      (x : ℕ) (bs : Bytes) (ctx : ServerContext C)
      → (read_header memchr (x ∷ bs) ctx).1 ≡ received (some (x ∷ bs)) ctx
  unfolding read_header received with_headers add_header
  read_header-received x bs ctx = go (parse memchr (x ∷ bs))
    where
      go :
          (o : Option ResponseHeader)
          → (elim o as (λ _. Unit {0} × ServerContext C) [
            | none ↦ (tt, ctx)
            | some h ↦ (tt, add_header h ctx)
          ]).1
            ≡ with_headers
                (ctx.response_headers
                  ++ (elim o as (λ _. List ResponseHeader) [ none ↦ [] | some h ↦ h ∷ [] ]))
                ctx
      go none = sym (received-none ctx)
      go (some h) = refl

  send_header-Holds :
      (l : Option Bytes) (s : Sapi C) (ctx : ServerContext C)
      → Holds ctx s
      → Returns (λ _ s'. Holds (received l ctx) s') (send_header memchr (some l) s)
  unfolding send_header with_context get_context received
  send_header-Holds none s ctx h = returns (record {
    pointed = h.pointed;
    allocated = h.allocated ∙ ap some (sym (received-nothing ctx));
  })
  send_header-Holds (some []) s ctx h = returns (record {
    pointed = h.pointed;
    allocated = h.allocated ∙ ap some (sym (received-nothing ctx));
  })
  send_header-Holds (some (x ∷ bs)) s ctx h = rw h.pointed (
      rw h.allocated
        (returns (record { pointed = refl; allocated = rw (read_header-received x bs ctx) refl })))

  send_each-Holds :
      (ls : List (Option Bytes)) (s : Sapi C) (ctx : ServerContext C)
      → Holds ctx s
      → Returns
          (λ _ s'. Holds (with_headers (ctx.response_headers ++ parsed_lines memchr ls) ctx) s')
          (send_each memchr ls s)
  unfolding send_each parsed_lines received with_headers
  send_each-Holds [] s ctx h =
      returns (record {
        pointed = h.pointed;
        allocated = h.allocated ∙ ap some (sym (received-none ctx));
      })
  send_each-Holds (l ∷ ls) s ctx h = Returns-bind _ _ (send_header-Holds l s ctx h) (λ _ s' h'.
      rw (sym (append_assoc ctx.response_headers (parsed_line memchr l) (parsed_lines memchr ls)))
        (send_each-Holds ls s' (received l ctx) h'))

  -- In a live request, to send headers reports success, replaces the headers of the response by
  -- those lines that parse as headers, in their order, sets the status that the response code
  -- becomes, and leaves all else of the context.
  pub send_headers-response :
      (hs : SapiHeaders) (s : Sapi C) (ctx : ServerContext C)
      → Holds ctx s
      → Returns
          (λ code s'.
            (code ≡ header_sent_successfully)
            × Holds
                (record ctx {
                  status_code = status_of_code hs.http_response_code;
                  response_headers = parsed_lines memchr hs.headers;
                })
                s')
          (send_headers memchr (some hs) s)
  unfolding send_headers with_context get_context set_status with_headers
  send_headers-response hs s ctx h = rw h.pointed (
      rw h.allocated (
        Returns-bind _ _
          (send_each-Holds hs.headers _
            (record (set_status (status_of_code hs.http_response_code) ctx) {
              response_headers = [];
            })
            (record { pointed = refl; allocated = refl }))
          (λ _ s' h'. returns (refl, h'))))
