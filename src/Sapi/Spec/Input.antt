-- ===== src/Sapi/Spec/Input.antt =====
-- The callbacks of src/sapi/callbacks.rs that PHP reads by, and its messages, implement their steps of
-- the specification.
use ripht_php_sapi.Prelude.{
  ℕ, ◌≡◌, refl, ap, Bool, true, false, Option, none, some, [], ◌∷◌, ◌++◌, arith, Bool-cases, inl,
  inr, ◌==◌, if◌then◌else◌,
}
use ripht_php_sapi.Prelude.Int.{ℤ}
use ripht_php_sapi.Text.{Str, Bytes, lit}
use ripht_php_sapi.Text.Utf8.{utf8, cstring, from_utf8_lossy}
use ripht_php_sapi.Vars.CStrings.{cstring_of}
use ripht_php_sapi.Execution.Message.{ExecutionMessage, from_syslog}
use ripht_php_sapi.Sapi.Context.{context_cookie_data, server_vars, read_post, add_message, get_env}
use ripht_php_sapi.Sapi.Context.Reading.{read_post_lem, drop-chunk}
use ripht_php_sapi.Sapi.State.{pure, modify, deref}
use ripht_php_sapi.Sapi.Callbacks
use ripht_php_sapi.Sapi.Callbacks.{
  SendHeaders, SapiHeaders, with_context, read_header, status_of_code, header_sent_successfully,
}
use ripht_php_sapi.Sapi.Spec.{read, tell, note, env_value}
use ripht_php_sapi.Sapi.Spec.Outlet.{Outlet}
use ripht_php_sapi.Sapi.Spec.View.{
  view, Implements, Implements-pure, Implements-bind, Implements-with_context, Implements-deref,
  Implements-modify,
}

module _ {C : Type 0} ⦃outlet : Outlet C⦄ where
  pub read_post_body_lem :
      (size : Option ℕ) → Implements {C = C} (Callbacks.read_post_body size) (read size)
  unfolding Callbacks.read_post_body view
  read_post_body_lem none = Implements-pure []
  read_post_body_lem (some n) = elim (Bool-cases (n == 0)) [
    | inl empty ↦ let e : n ≡ 0 = ground arith in rw e (Implements-pure [])
    | inr sized ↦ rw sized (
        Implements-with_context [] (deref (read_post n)) (read (some n)) (
          Implements-deref (read_post n) (read (some n))
            (λ ctx q.
              rw (read_post_lem n ctx)
                (record { unobserved = q.unobserved; unflushed = q.unflushed }))
            (λ ctx s' q. rw (read_post_lem n ctx) (
              refl,
              ap (λ u. record (view ctx s') { unread = u })
                  (drop-chunk ctx.post_data ctx.post_position n),
            ))))
  ]

  pub read_cookies_lem : Implements {C = C} Callbacks.read_cookies (λ r. (r.cookie, r))
  unfolding Callbacks.read_cookies view
  read_cookies_lem = Implements-with_context _ _ _ (
      Implements-deref (λ ctx. (context_cookie_data ctx, ctx)) _ (λ ctx q. q)
        (λ ctx s q. (refl, refl)))

  pub register_server_variables_lem :
      (array : Bool)
      → Implements {C = C} (Callbacks.register_server_variables array) (λ r. (tt, tell array r))
  unfolding Callbacks.register_server_variables Callbacks.register_static Callbacks.register_value
      Callbacks.register_all cstring_of view utf8 cstring
  register_server_variables_lem false = Implements-pure tt
  register_server_variables_lem true =
      Implements-bind _
        (λ r. (
          tt,
          record r {
            registered = r.registered ++ (lit "SERVER_SOFTWARE", lit "Ripht/0.1.0-rc.7") ∷ [];
          },
        ))
        _ (λ _ r. (tt, record r { registered = r.registered ++ r.vars }))
        (Implements-modify _ _ (λ s. refl) (λ s. refl) (λ ctx s. refl))
        (λ _. Implements-with_context tt _ _ (
          Implements-bind (deref (λ ctx. (server_vars ctx, ctx))) (λ r. (r.vars, r))
            Callbacks.register_all (λ vars r. (tt, record r { registered = r.registered ++ vars }))
            (Implements-deref (λ ctx. (server_vars ctx, ctx)) _ (λ ctx q. q)
              (λ ctx s q. (refl, refl)))
            (λ vars.
              Implements-modify (λ s. record s { registered = s.registered ++ vars }) _ (λ s. refl)
                (λ s. refl) (λ ctx s. refl))))

  log_line_lem :
      (b : Bool) (line : Str)
      → Implements {C = C}
          (if b then modify (λ s. record s { stderr = s.stderr ++ line ∷ [] }) else pure tt)
          (λ r. (tt, record r { stderr = if b then r.stderr ++ line ∷ [] else r.stderr }))
  unfolding view
  log_line_lem true line = Implements-modify _ _ (λ s. refl) (λ s. refl) (λ ctx s. refl)
  log_line_lem false line = Implements-pure tt

  pub log_message_lem :
      (message : Option Bytes) (level : ℤ)
      → Implements {C = C} (Callbacks.log_message message level) (λ r. (tt, note message level r))
  unfolding Callbacks.log_message add_message view
  log_message_lem none level = Implements-pure tt
  log_message_lem (some message) level =
      Implements-bind _ (λ r. (r.logs, r)) _
        (λ b r. (
          tt,
          record r {
            messages = r.messages ++ m ∷ [];
            stderr = if b then r.stderr ++ line ∷ [] else r.stderr;
          },
        ))
        (Implements-with_context false _ _ (
          Implements-deref (λ ctx. (ctx.log_to_stderr, ctx)) _ (λ ctx q. q)
            (λ ctx s q. (refl, refl))))
        (λ b.
          Implements-bind _
            (λ r. (tt, record r { stderr = if b then r.stderr ++ line ∷ [] else r.stderr })) _
            (λ _ r. (tt, record r { messages = r.messages ++ m ∷ [] })) (log_line_lem b line)
            (λ _. Implements-with_context tt _ _ (
              Implements-deref (λ ctx. (tt, add_message m ctx)) _
                (λ ctx q. record { unobserved = q.unobserved; unflushed = q.unflushed })
                (λ ctx s q. (refl, refl)))))
    where
      line : Str
      line = from_utf8_lossy message

      m : ExecutionMessage
      m = from_syslog level line

  pub getenv_lem :
      (name : Option Bytes)
      → Implements {C = C} (Callbacks.getenv name) (λ r. (env_value name r, r))
  unfolding Callbacks.getenv get_env view
  getenv_lem none = Implements-pure none
  getenv_lem (some []) = Implements-pure none
  getenv_lem (some (b ∷ bs)) = Implements-with_context none _ _ (
      Implements-deref (λ ctx. (get_env (b ∷ bs) ctx, ctx)) _ (λ ctx q. q)
        (λ ctx s q. (refl, refl)))
