-- ===== src/Sapi/Spec/Phases.antt =====
-- A phase of PHP implements the interpretation of its calls.
use ripht_php_sapi.Prelude.{◌≡◌, refl}
use ripht_php_sapi.Sapi.Buffer.{BufferPolicy}
use ripht_php_sapi.Sapi.State.{Sapi, modify}
use ripht_php_sapi.Sapi.Engine.{
  Engine, Phase, ret, invoke, set_headers_sent, set_response_code, set_request_info, set_post_read,
  run_phase,
}
use ripht_php_sapi.Sapi.Engine.Live.{Returns}
use ripht_php_sapi.Sapi.Spec.{Request, Sending, perform, interpret}
use ripht_php_sapi.Sapi.Spec.Outlet.{Outlet}
use ripht_php_sapi.Sapi.Spec.View.{
  view, Views, Implements, Implements-pure, Implements-bind, Implements-modify,
}
use ripht_php_sapi.Sapi.Spec.Output.{Agrees}
use ripht_php_sapi.Sapi.Spec.Calls.{dispatch-Implements}

module _ {C : Type 0} ⦃outlet : Outlet C⦄ (engine : Engine C) (policy : BufferPolicy)
    (send : Sending) (agrees : Agrees engine.sapi_send_headers send) where
  pub run_phase-Implements :
      (p : Phase) → Implements (run_phase engine policy p) (interpret engine.memchr send p)
  unfolding run_phase interpret
  run_phase-Implements (ret code) = Implements-pure code
  run_phase-Implements (invoke c k) =
      Implements-bind _ (perform engine.memchr send c) _
        (λ reply. interpret engine.memchr send (k reply))
        (dispatch-Implements engine policy send agrees c) (λ reply. run_phase-Implements (k reply))
  run_phase-Implements (set_headers_sent n p) =
      Implements-bind (modify (λ s. record s { headers_sent = n }))
        (λ r. (tt, record r { sent = n })) _ (λ _. interpret engine.memchr send p)
        (unfold view in
          Implements-modify (λ s. record s { headers_sent = n }) (λ r. record r { sent = n })
            (λ s. refl) (λ s. refl) (λ ctx s. refl))
        (λ _. run_phase-Implements p)
  run_phase-Implements (set_response_code n p) =
      Implements-bind (modify (λ s. record s { http_response_code = n }))
        (λ r. (tt, record r { code = n })) _ (λ _. interpret engine.memchr send p)
        (unfold view in
          Implements-modify (λ s. record s { http_response_code = n }) (λ r. record r { code = n })
            (λ s. refl) (λ s. refl) (λ ctx s. refl))
        (λ _. run_phase-Implements p)
  run_phase-Implements (set_request_info n p) =
      Implements-bind (modify (λ s. record s { request_info = n }))
        (λ r. (tt, record r { info = n })) _ (λ _. interpret engine.memchr send p)
        (unfold view in
          Implements-modify (λ s. record s { request_info = n }) (λ r. record r { info = n })
            (λ s. refl) (λ s. refl) (λ ctx s. refl))
        (λ _. run_phase-Implements p)
  run_phase-Implements (set_post_read n p) =
      Implements-bind (modify (λ s. record s { post_read = n }))
        (λ r. (tt, record r { post_read = n })) _ (λ _. interpret engine.memchr send p)
        (unfold view in
          Implements-modify (λ s. record s { post_read = n }) (λ r. record r { post_read = n })
            (λ s. refl) (λ s. refl) (λ ctx s. refl))
        (λ _. run_phase-Implements p)

  -- Wherever the output of the request goes (to the buffer, or to a callback that keeps it), and for PHP
  -- whose sending of headers depends on the request alone: from a state that stands for a request,
  -- with no callback for the flushes, every phase ends, returns the code that its interpretation
  -- in the specification returns, and leaves a state that stands for the interpreted request.
  pub run_phase_refines :
      (p : Phase) (s : Sapi C) (r : Request)
      → Views r s
      → Returns
          (λ code s'.
            (code ≡ (interpret engine.memchr send p r).0)
            × Views (interpret engine.memchr send p r).1 s')
          (run_phase engine policy p s)
  run_phase_refines p s r h = run_phase-Implements p s r h
