-- ===== src/Sapi/Spec/Calls.antt =====
-- Every callback of src/sapi/callbacks.rs implements its step of the specification.
use ripht_php_sapi.Prelude.{refl, Bool, true, false, none, some}
use ripht_php_sapi.Prelude.Int.{ℤ}
use ripht_php_sapi.Execution.Header.{Memchr}
use ripht_php_sapi.Sapi.Buffer.{BufferPolicy}
use ripht_php_sapi.Sapi.State.{M, pure, ◌>>=◌, modify}
use ripht_php_sapi.Sapi.Callbacks
use ripht_php_sapi.Sapi.Callbacks.{
  SendHeaders, SapiHeaders, with_context, read_header, status_of_code, header_sent_successfully,
}
use ripht_php_sapi.Sapi.Engine.{
  Engine, Call, Reply, nothing, count, copied, pointer, found, timed, Sends, returned, mark_sent,
  call, dispatch_with, run_sends, run_send_headers, dispatch,
}
use ripht_php_sapi.Sapi.Spec.{
  Request, Sending, perform_with, interpret_sends, headers_sent, perform,
}
use ripht_php_sapi.Sapi.Spec.Outlet.{Outlet}
use ripht_php_sapi.Sapi.Spec.View.{
  view, Implements, Implements-pure, Implements-bind, Implements-modify,
}
use ripht_php_sapi.Sapi.Spec.Headers.{send_header_lem, send_headers_lem}
use ripht_php_sapi.Sapi.Spec.Output.{Agrees, ub_write_lem, flush_lem}
use ripht_php_sapi.Sapi.Spec.Input.{
  read_post_body_lem, read_cookies_lem, register_server_variables_lem, log_message_lem, getenv_lem,
}

module _ {C : Type 0} ⦃outlet : Outlet C⦄ (memchr : Memchr) (policy : BufferPolicy) where
  replied :
      {A : Type 0} (reply : A → Reply) (m : M C A) (f : Request → A × Request)
      → Implements m f
      → Implements (m >>= λ a. pure (reply a)) (λ r. (reply (f r).0, (f r).1))
  replied reply m f h =
      Implements-bind m f _ (λ a r. (reply a, r)) h (λ a. Implements-pure (reply a))

  -- Whatever PHP calls, it is answered as the specification tells, and the state then stands for the
  -- request that the specification leaves.
  dispatch_with-Implements :
      (php : SendHeaders C) (send : Request → Request)
      → Implements php (λ r. (tt, send r))
      → (c : Call) → Implements (dispatch_with memchr policy php c) (perform_with memchr send c)
  unfolding dispatch_with perform_with Callbacks.send_header Callbacks.get_request_time
  dispatch_with-Implements php send sends (Call.ub_write str) =
      replied count _ _ (ub_write_lem memchr php send sends policy str)
  dispatch_with-Implements php send sends Call.flush =
      replied (λ _. nothing) _ _ (flush_lem memchr php send sends)
  dispatch_with-Implements php send sends (Call.send_headers hs) =
      replied count _ _ (send_headers_lem memchr hs)
  dispatch_with-Implements php send sends (Call.send_header none) =
      replied (λ _. nothing) _ _ (Implements-pure tt)
  dispatch_with-Implements php send sends (Call.send_header (some line)) =
      replied (λ _. nothing) _ _ (send_header_lem memchr line)
  dispatch_with-Implements php send sends (Call.read_post size) =
      replied copied _ _ (read_post_body_lem size)
  dispatch_with-Implements php send sends Call.read_cookies = replied pointer _ _ read_cookies_lem
  dispatch_with-Implements php send sends (Call.register_server_variables array) =
      replied (λ _. nothing) _ _ (register_server_variables_lem array)
  dispatch_with-Implements php send sends (Call.log_message message level) =
      replied (λ _. nothing) _ _ (log_message_lem message level)
  dispatch_with-Implements php send sends (Call.getenv name) = replied found _ _ (getenv_lem name)
  dispatch_with-Implements php send sends (Call.get_request_time false) =
      replied {A = ℤ × Bool} (λ r. timed r.0 r.1) _ _ (Implements-pure _)
  dispatch_with-Implements php send sends (Call.get_request_time true) =
      replied {A = ℤ × Bool} (λ r. timed r.0 r.1) _ _ (Implements-pure _)

  run_sends-Implements :
      (p : Sends)
      → Implements {C = C} (run_sends memchr policy p) (λ r. (tt, interpret_sends memchr p r))
  unfolding run_sends interpret_sends
  run_sends-Implements returned = Implements-pure tt
  run_sends-Implements (mark_sent n rest) =
      Implements-bind (modify (λ s. record s { headers_sent = n }))
        (λ r. (tt, record r { sent = n })) _ (λ _ r. (tt, interpret_sends memchr rest r))
        (unfold view in
          Implements-modify (λ s. record s { headers_sent = n }) (λ r. record r { sent = n })
            (λ s. refl) (λ s. refl) (λ ctx s. refl))
        (λ _. run_sends-Implements rest)
  run_sends-Implements (call again c k) =
      Implements-bind _ (perform_with memchr (interpret_sends memchr again) c) _
        (λ reply r. (tt, interpret_sends memchr (k reply) r))
        (dispatch_with-Implements (run_sends memchr policy again) (interpret_sends memchr again)
          (run_sends-Implements again) c)
        (λ reply. run_sends-Implements (k reply))

module _ {C : Type 0} ⦃outlet : Outlet C⦄ (engine : Engine C) (policy : BufferPolicy)
    (send : Sending) (agrees : Agrees engine.sapi_send_headers send) where
  run_send_headers-Implements :
      Implements (run_send_headers engine policy) (λ r. (tt, headers_sent engine.memchr send r))
  unfolding run_send_headers
  run_send_headers-Implements s r h =
      rw (agrees s r h) (run_sends-Implements engine.memchr policy (send r) s r h)

  pub dispatch-Implements :
      (c : Call) → Implements (dispatch engine policy c) (perform engine.memchr send c)
  unfolding dispatch perform
  dispatch-Implements c =
      dispatch_with-Implements engine.memchr policy (run_send_headers engine policy)
        (headers_sent engine.memchr send) run_send_headers-Implements c
