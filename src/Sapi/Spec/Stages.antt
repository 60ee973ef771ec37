-- ===== src/Sapi/Spec/Stages.antt =====
-- The stages of a request to src/sapi/executor.rs implement their steps of the specification.
use ripht_php_sapi.Prelude.{
  ◌≡◌, refl, ap, Bool, true, false, some, List, [], ◌∷◌, ◌++◌, append-nil, append_assoc, keep,
  if◌then◌else◌,
}
use ripht_php_sapi.Text.{Bytes}
use ripht_php_sapi.Sapi.Buffer.{BufferPolicy}
use ripht_php_sapi.Sapi.Context.{into_result}
use ripht_php_sapi.Sapi.State.{Sapi, pure, modify}
use ripht_php_sapi.Sapi.Engine.{Engine}
use ripht_php_sapi.Sapi.Engine.Live.{Returns, returns, Returns-bind}
use ripht_php_sapi.Sapi.Executor.{
  startup, alter_entries, alter_with, apply_ini_overrides, run_script, shutdown, clear_pointer,
  take_box, cleanup_globals, finish,
}
use ripht_php_sapi.Sapi.Execute.Completion.{IsIdle}
use ripht_php_sapi.Sapi.Spec.{
  Request, Behaviour, left_by, with_post_read, result_of, interpret, after_startup, after_shutdown,
}
use ripht_php_sapi.Sapi.Spec.Outlet.{Outlet}
use ripht_php_sapi.Sapi.Spec.View.{
  view, globals, IsQuiet, Views, Implements, Implements-pure, Implements-eq, Implements-bind,
  Implements-modify,
}
use ripht_php_sapi.Sapi.Spec.Output.{Agrees}
use ripht_php_sapi.Sapi.Spec.Phases.{run_phase-Implements}

-- PHP behaves by the request alone: what its functions do in a state is what they do for the request
-- that the state stands for. A request has all of PHP's globals that the program writes, and all of
-- the server context but the capacity of its output and the part of the body that was read.
pub record Conforms {C : Type 0} ⦃outlet : Outlet C⦄ (engine : Engine C) (php : Behaviour)
    : Type 0 where
  pub sends : Agrees engine.sapi_send_headers php.send
  pub starts : (s : Sapi C) (r : Request) → Views r s → engine.php_request_startup s ≡ php.startup r
  pub runs :
      (path : Bytes) (s : Sapi C) (r : Request)
      → Views r s
      → engine.php_execute_script path s ≡ php.script path r
  pub ends : (s : Sapi C) (r : Request) → Views r s → engine.php_request_shutdown s ≡ php.shutdown r
  pub interned : engine.init_interned ≡ some php.knows

module _ {C : Type 0} ⦃outlet : Outlet C⦄ (engine : Engine C) (policy : BufferPolicy)
    (php : Behaviour) (conforms : Conforms engine php) where
  pub startup-Implements : Implements (startup engine policy) (after_startup engine.memchr php)
  unfolding startup after_startup
  startup-Implements s r h =
      rw (conforms.starts s r h)
        (run_phase-Implements engine policy php.send conforms.sends (php.startup r) s r h)

  pub run_script-Implements :
      (path : Bytes)
      → Implements
          (run_script engine policy path)
          (λ r. interpret engine.memchr php.send (php.script path r) r)
  unfolding run_script
  run_script-Implements path s r h =
      rw (conforms.runs path s r h)
        (run_phase-Implements engine policy php.send conforms.sends (php.script path r) s r h)

  shutdown-Implements :
      Implements (shutdown engine policy) (λ r. (tt, after_shutdown engine.memchr php r))
  unfolding shutdown after_shutdown
  shutdown-Implements s r h = rw (conforms.ends s r h) (
      Implements-bind _ _ (λ _. pure tt) (λ _ r'. (tt, r'))
        (run_phase-Implements engine policy php.send conforms.sends (php.shutdown r))
        (λ _. Implements-pure tt) s r h)

  altered : (key value : Bytes) → Bool → Request → Unit {0} × Request
  altered key value known r =
      (tt, record r { ini = r.ini ++ (if known then (key, value) ∷ [] else []) })

  alter_entry-Implements :
      (key value : Bytes) (known : Bool)
      → Implements {C = C}
          (modify (λ s.
            if known then record s { ini_entries = s.ini_entries ++ (key, value) ∷ [] } else s))
          (altered key value known)
  unfolding view altered
  alter_entry-Implements key value true =
      Implements-modify _ _ (λ s. refl) (λ s. refl) (λ ctx s. refl)
  alter_entry-Implements key value false =
      Implements-eq (pure tt) (λ r. (tt, r)) _ (λ r. rw (append-nil r.ini) refl)
        (Implements-pure tt)

  abbrev pub altered_all : List (Bytes × Bytes) → Request → Unit {0} × Request
  altered_all es r = (tt, record r { ini = r.ini ++ keep (λ e. php.knows e.0) es })

  altered-cons :
      (key value : Bytes) (es : List (Bytes × Bytes)) (known : Bool) (r : Request)
      → ◌≡◌ {A = Unit {0} × Request} (altered_all es (altered key value known r).1) (
        tt,
        record r {
          ini =
              r.ini
              ++ (if known
                  then (key, value) ∷ keep (λ e. php.knows e.0) es
                  else keep (λ e. php.knows e.0) es);
        },
      )
  unfolding altered
  altered-cons key value es true r =
      rw (append_assoc r.ini ((key, value) ∷ []) (keep (λ e. php.knows e.0) es)) refl
  altered-cons key value es false r = rw (append-nil r.ini) refl

  alter_entries-Implements :
      (es : List (Bytes × Bytes)) → Implements {C = C} (alter_entries php.knows es) (altered_all es)
  unfolding alter_entries keep
  alter_entries-Implements [] =
      Implements-eq (pure tt) (λ r. (tt, r)) _ (λ r. rw (append-nil r.ini) refl)
        (Implements-pure tt)
  alter_entries-Implements ((key, value) ∷ es) =
      Implements-eq _ (λ r. altered_all es (altered key value (php.knows key) r).1) _
        (altered-cons key value es (php.knows key))
        (Implements-bind _ (altered key value (php.knows key)) _ (λ _. altered_all es)
          (alter_entry-Implements key value (php.knows key)) (λ _. alter_entries-Implements es))

  pub apply_ini_overrides-Implements :
      (es : List (Bytes × Bytes)) → Implements (apply_ini_overrides engine es) (altered_all es)
  unfolding apply_ini_overrides alter_with
  apply_ini_overrides-Implements [] = alter_entries-Implements []
  apply_ini_overrides-Implements (e ∷ es) =
      λ s r h. rw conforms.interned (alter_entries-Implements (e ∷ es) s r h)

  -- The end of a request hands over the context of the response, and releases the box.
  pub finish_lem :
      (s : Sapi C) (r : Request)
      → Views r s
      → Returns
          (λ ctx s'.
            (into_result (outlet.received ctx.output_callback ctx.output_buffer) ctx
              ≡ result_of (after_shutdown engine.memchr php (with_post_read r)))
            × IsQuiet ctx
            × IsIdle s'
            × (globals s' ≡ left_by (after_shutdown engine.memchr php (with_post_read r))))
          (finish engine policy s)
  unfolding finish clear_pointer take_box cleanup_globals into_result view
  finish_lem s r h =
      Returns-bind (shutdown engine policy (record s { post_read = 1 })) _
        (shutdown-Implements (record s { post_read = 1 }) (with_post_read r)
          (record {
            pointed = h.pointed;
            context = h.context;
            allocated = h.allocated;
            quiet = h.quiet;
            seen = ap with_post_read h.seen;
          }))
        (λ _ s' both. rw (both.1.allocated) (
          returns (
            ap result_of both.1.seen,
            both.1.quiet,
            record { unpointed = refl; freed = refl },
            ap left_by both.1.seen,
          )))
