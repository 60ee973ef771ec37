-- ===== src/Sapi/Engine/Safety.antt =====
-- Every callback, and so every phase of PHP, is safe in a live state.
use ripht_php_sapi.Prelude.{
  ℕ, ◌≡◌, refl, Bool, true, false, Option, none, some, List, [], ◌∷◌, arith, Bool-cases, inl, inr,
  ◌==◌,
}
use ripht_php_sapi.Prelude.Int.{ℤ}
use ripht_php_sapi.Text.{Str, Bytes, lit}
use ripht_php_sapi.Vars.CStrings.{cstring_of}
use ripht_php_sapi.Execution.Header.{Memchr}
use ripht_php_sapi.Sapi.Buffer.{BufferPolicy}
use ripht_php_sapi.Sapi.Context.{
  ServerContext, server_vars, read_post, write_output, add_header, set_status, add_message, flush,
}
use ripht_php_sapi.Sapi.State.{M, pure, ◌>>=◌, deref}
use ripht_php_sapi.Sapi.Callbacks
use ripht_php_sapi.Sapi.Callbacks.{
  SendHeaders, SapiHeaders, with_context, get_context, status_of_code, read_header,
}
use ripht_php_sapi.Sapi.Engine.{
  Call, Reply, Phase, Engine, Sends, returned, mark_sent, call, dispatch_with, run_sends,
  run_send_headers, dispatch, run_phase, ret, invoke, set_headers_sent, set_response_code,
  set_request_info, set_post_read, nothing, count, copied, pointer, found, timed,
}
use ripht_php_sapi.Sapi.Engine.Live.{
  returns, Safe, Safe-pure, Safe-bind, Safe-deref, Safe-with_context, Safe-modify, Safe-if,
  status_of_code-IsStatus,
}

module _ {C : Type 0} where
  status-read_header :
      (memchr : Memchr) (bytes : Bytes) (ctx : ServerContext C)
      → (read_header memchr bytes ctx).1.status_code ≡ ctx.status_code
  unfolding read_header add_header
  status-read_header memchr bytes ctx = ground arith

  status-read_post :
      (size : ℕ) (ctx : ServerContext C) → (read_post size ctx).1.status_code ≡ ctx.status_code
  unfolding read_post
  status-read_post size ctx = ground arith

  status-write_output :
      (policy : BufferPolicy) (bytes : Bytes) (ctx : ServerContext C)
      → (write_output policy bytes ctx).1.status_code ≡ ctx.status_code
  unfolding write_output
  status-write_output policy bytes ctx = ground arith

  status-flush : (ctx : ServerContext C) → (flush ctx).status_code ≡ ctx.status_code
  unfolding flush
  status-flush ctx = ground arith

  Safe-send_header :
      (memchr : Memchr) (h : Option (Option Bytes)) → Safe {C = C} (Callbacks.send_header memchr h)
  unfolding Callbacks.send_header
  Safe-send_header memchr none = Safe-pure tt
  Safe-send_header memchr (some none) = Safe-pure tt
  Safe-send_header memchr (some (some [])) = Safe-pure tt
  Safe-send_header memchr (some (some (b ∷ bs))) =
      Safe-with_context tt (deref (read_header memchr (b ∷ bs)))
        (Safe-deref _ (λ ctx h. rw status-read_header h))

  Safe-send_each :
      (memchr : Memchr) (hs : List (Option Bytes)) → Safe {C = C} (Callbacks.send_each memchr hs)
  unfolding Callbacks.send_each
  Safe-send_each memchr [] = Safe-pure tt
  Safe-send_each memchr (h ∷ hs) =
      Safe-bind _ _ (Safe-send_header memchr (some h)) (λ _. Safe-send_each memchr hs)

  Safe-send_headers :
      (memchr : Memchr) (hs : Option SapiHeaders) → Safe {C = C} (Callbacks.send_headers memchr hs)
  unfolding Callbacks.send_headers set_status
  Safe-send_headers memchr none = Safe-pure _
  Safe-send_headers memchr (some hs) = Safe-with_context _ _ (
      Safe-bind _ _ (Safe-deref _ (λ ctx h. status_of_code-IsStatus hs.http_response_code))
        (λ _. Safe-bind _ _ (Safe-send_each memchr hs.headers) (λ _. Safe-pure _)))

  Safe-ensure_headers : (php : SendHeaders C) → Safe php → Safe (Callbacks.ensure_headers php)
  unfolding Callbacks.ensure_headers
  Safe-ensure_headers php safe s h = elim (Bool-cases (s.headers_sent == 0)) [
    | inl unsent ↦ simp unsent (safe s h)
    | inr sent ↦ simp sent (returns h)
  ]

  Safe-ub_write :
      (php : SendHeaders C) (policy : BufferPolicy) (str : Option Bytes)
      → Safe php
      → Safe (Callbacks.ub_write php policy str)
  unfolding Callbacks.ub_write
  Safe-ub_write php policy none safe = Safe-pure 0
  Safe-ub_write php policy (some []) safe = Safe-pure 0
  Safe-ub_write php policy (some (b ∷ bs)) safe =
      Safe-bind _ _ (Safe-ensure_headers php safe)
        (λ _. Safe-with_context _ _ (Safe-deref _ (λ ctx h. rw status-write_output h)))

  Safe-flush_output : (php : SendHeaders C) → Safe php → Safe (Callbacks.flush_output php)
  unfolding Callbacks.flush_output
  Safe-flush_output php safe =
      Safe-bind _ _ (Safe-ensure_headers php safe)
        (λ _. Safe-with_context _ _ (Safe-deref _ (λ ctx h. rw status-flush h)))

  Safe-read_post_body : (size : Option ℕ) → Safe {C = C} (Callbacks.read_post_body size)
  unfolding Callbacks.read_post_body
  Safe-read_post_body none = Safe-pure []
  Safe-read_post_body (some n) =
      Safe-if (n == 0) _ _ (Safe-pure [])
        (Safe-with_context _ _ (Safe-deref (read_post n) (λ ctx h. rw status-read_post h)))

  Safe-read_cookies : Safe {C = C} Callbacks.read_cookies
  unfolding Callbacks.read_cookies
  Safe-read_cookies = Safe-with_context _ _ (Safe-deref _ (λ ctx h. h))

  Safe-register_all : (vars : List (Bytes × Bytes)) → Safe {C = C} (Callbacks.register_all vars)
  unfolding Callbacks.register_all
  Safe-register_all vars = Safe-modify _ (λ s. refl) (λ s. refl)

  Safe-register_value :
      (name : Bytes) (o : Option Bytes) → Safe {C = C} (Callbacks.register_value name o)
  unfolding Callbacks.register_value
  Safe-register_value name none = Safe-pure tt
  Safe-register_value name (some v) = Safe-register_all _

  Safe-register_static : (name text : Str) → Safe {C = C} (Callbacks.register_static name text)
  unfolding Callbacks.register_static
  Safe-register_static name text = Safe-register_value name (cstring_of text)

  Safe-server_vars : Safe {C = C} (deref (λ ctx. (server_vars ctx, ctx)) >>= Callbacks.register_all)
  Safe-server_vars = Safe-bind _ _ (Safe-deref _ (λ ctx h. h)) Safe-register_all

  Safe-register_server_variables :
      (array : Bool) → Safe {C = C} (Callbacks.register_server_variables array)
  unfolding Callbacks.register_server_variables
  Safe-register_server_variables false = Safe-pure tt
  Safe-register_server_variables true =
      Safe-bind (Callbacks.register_static (lit "SERVER_SOFTWARE") Callbacks.software)
        (λ _. with_context tt (deref (λ ctx. (server_vars ctx, ctx)) >>= Callbacks.register_all))
        (Safe-register_static (lit "SERVER_SOFTWARE") Callbacks.software)
        (λ _. Safe-with_context tt _ Safe-server_vars)

  Safe-log_message :
      (message : Option Bytes) (level : ℤ) → Safe {C = C} (Callbacks.log_message message level)
  unfolding Callbacks.log_message add_message
  Safe-log_message none level = Safe-pure tt
  Safe-log_message (some message) level =
      Safe-bind _ _ (Safe-with_context _ _ (Safe-deref _ (λ ctx h. h))) (λ to_stderr.
        Safe-bind _ _ (Safe-if to_stderr _ _ (Safe-modify _ (λ s. refl) (λ s. refl)) (Safe-pure tt))
          (λ _. Safe-with_context _ _ (Safe-deref _ (λ ctx h. h))))

  Safe-getenv : (name : Option Bytes) → Safe {C = C} (Callbacks.getenv name)
  unfolding Callbacks.getenv
  Safe-getenv none = Safe-pure _
  Safe-getenv (some []) = Safe-pure _
  Safe-getenv (some (b ∷ bs)) = Safe-with_context _ _ (Safe-deref _ (λ ctx h. h))

  Safe-get_request_time : (p : Bool) → Safe {C = C} (Callbacks.get_request_time p)
  unfolding Callbacks.get_request_time
  Safe-get_request_time false = Safe-pure _
  Safe-get_request_time true = Safe-pure _

  Safe-reply : {A : Type 0} (f : A → Reply) (m : M C A) → Safe m → Safe (m >>= λ a. pure (f a))
  Safe-reply f m h = Safe-bind m (λ a. pure (f a)) h (λ a. Safe-pure (f a))

module _ {C : Type 0} (memchr : Memchr) (policy : BufferPolicy) where
  Safe-dispatch_with :
      (php : SendHeaders C) → Safe php → (c : Call) → Safe (dispatch_with memchr policy php c)
  unfolding dispatch_with
  Safe-dispatch_with php safe (Call.ub_write str) =
      Safe-reply count _ (Safe-ub_write php policy str safe)
  Safe-dispatch_with php safe Call.flush = Safe-reply (λ _. nothing) _ (Safe-flush_output php safe)
  Safe-dispatch_with php safe (Call.send_headers hs) =
      Safe-reply count _ (Safe-send_headers memchr hs)
  Safe-dispatch_with php safe (Call.send_header h) =
      Safe-reply (λ _. nothing) _ (Safe-send_header memchr h)
  Safe-dispatch_with php safe (Call.read_post size) = Safe-reply copied _ (Safe-read_post_body size)
  Safe-dispatch_with php safe Call.read_cookies = Safe-reply pointer _ Safe-read_cookies
  Safe-dispatch_with php safe (Call.register_server_variables array) =
      Safe-reply (λ _. nothing) _ (Safe-register_server_variables array)
  Safe-dispatch_with php safe (Call.log_message m level) =
      Safe-reply (λ _. nothing) _ (Safe-log_message m level)
  Safe-dispatch_with php safe (Call.getenv name) = Safe-reply found _ (Safe-getenv name)
  Safe-dispatch_with php safe (Call.get_request_time p) =
      Safe-reply (λ r. timed r.0 r.1) _ (Safe-get_request_time p)

  Safe-run_sends : (p : Sends) → Safe {C = C} (run_sends memchr policy p)
  unfolding run_sends
  Safe-run_sends returned s h = Safe-pure tt s h
  Safe-run_sends (mark_sent n rest) s h =
      Safe-run_sends rest (record s { headers_sent = n })
        (record {
          pointed = h.pointed;
          context = h.context;
          allocated = h.allocated;
          status = h.status;
        })
  Safe-run_sends (call again c k) s h =
      Safe-bind (dispatch_with memchr policy (run_sends memchr policy again) c)
        (λ reply. run_sends memchr policy (k reply))
        (Safe-dispatch_with (run_sends memchr policy again) (Safe-run_sends again) c)
        (λ reply. Safe-run_sends (k reply)) s h

module _ {C : Type 0} (engine : Engine C) (policy : BufferPolicy) where
  Safe-dispatch : (c : Call) → Safe (dispatch engine policy c)
  unfolding dispatch run_send_headers
  Safe-dispatch c =
      Safe-dispatch_with engine.memchr policy (run_send_headers engine policy)
        (λ s h. Safe-run_sends engine.memchr policy (engine.sapi_send_headers s) s h) c

  -- Whatever PHP calls in a phase that begins in a live state, the phase comes to its end with no
  -- fault and no panic, in a live state.
  pub Safe-run_phase : (p : Phase) → Safe (run_phase engine policy p)
  unfolding run_phase
  Safe-run_phase (ret code) s h = Safe-pure code s h
  Safe-run_phase (invoke c k) s h =
      Safe-bind (dispatch engine policy c) (λ reply. run_phase engine policy (k reply))
        (Safe-dispatch c) (λ reply. Safe-run_phase (k reply)) s h
  Safe-run_phase (set_headers_sent n p) s h =
      Safe-run_phase p (record s { headers_sent = n })
        (record {
          pointed = h.pointed;
          context = h.context;
          allocated = h.allocated;
          status = h.status;
        })
  Safe-run_phase (set_response_code n p) s h =
      Safe-run_phase p (record s { http_response_code = n })
        (record {
          pointed = h.pointed;
          context = h.context;
          allocated = h.allocated;
          status = h.status;
        })
  Safe-run_phase (set_request_info n p) s h =
      Safe-run_phase p (record s { request_info = n })
        (record {
          pointed = h.pointed;
          context = h.context;
          allocated = h.allocated;
          status = h.status;
        })
  Safe-run_phase (set_post_read n p) s h =
      Safe-run_phase p (record s { post_read = n })
        (record {
          pointed = h.pointed;
          context = h.context;
          allocated = h.allocated;
          status = h.status;
        })
