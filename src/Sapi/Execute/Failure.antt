-- ===== src/Sapi/Execute/Failure.antt =====
-- A request whose checks or whose startup fail.
use ripht_php_sapi.Prelude.{◌≡◌, refl, Bool, true, none, some, arith, ok, err}
use ripht_php_sapi.Prelude.Int.{ℤ}
use ripht_php_sapi.Text.{Bytes}
use ripht_php_sapi.Text.FilePath.{FileSystem}
use ripht_php_sapi.Execution.Hooks.{ExecutionHooks}
use ripht_php_sapi.Execution.Context.{ExecutionContext}
use ripht_php_sapi.Sapi.Buffer.{BufferPolicy}
use ripht_php_sapi.Sapi.Context.{from_context}
use ripht_php_sapi.Sapi.State.{boxed, Sapi, done, fault}
use ripht_php_sapi.Sapi.Callbacks
use ripht_php_sapi.Sapi.Callbacks.{with_context}
use ripht_php_sapi.Sapi.Engine.{
  Engine, Phase, Call, Reply, ret, invoke, dispatch_with, dispatch, run_phase,
}
use ripht_php_sapi.Sapi.Engine.Live.{IsLive, Returns, returns}
use ripht_php_sapi.Sapi.Executor.{
  ExecutionError, startup_failed, is_failure, startup, shutdown, abandon, take_box, clear_pointer,
}
use ripht_php_sapi.Sapi.Execute.{check_request, execute_checked, execute_with_hooks}
use ripht_php_sapi.Sapi.Execute.Completion.{IsIdle, started}

-- A request whose checks fail is refused, and the shared state and the hooks are left alone.
pub execute_with_hooks-refused :
    {C H : Type 0} (engine : Engine C) (policy : BufferPolicy) (fs : FileSystem)
    (initialized : Bool) (hooks : ExecutionHooks H) (is_no_op : Bool) (ctx : ExecutionContext)
    (h : H) (s : Sapi C) (e : ExecutionError)
    → check_request initialized fs ctx ≡ err e
    → execute_with_hooks engine policy fs initialized hooks is_no_op ctx h s ≡ done (err e, h) s
unfolding execute_with_hooks execute_checked
execute_with_hooks-refused engine policy fs initialized hooks is_no_op ctx h s e refused =
    rw refused refl

-- PHP's startup reports a failure.
abbrev pub StartupFails : {C : Type 0} → Engine C → BufferPolicy → Type 0
StartupFails {C} engine policy =
    (s : Sapi C) → IsLive s → Returns (λ code _. is_failure code ≡ true) (startup engine policy s)

module _ {C : Type 0} (engine : Engine C) (policy : BufferPolicy) where
  -- While the pointer is that of a freed box, to log a message is a fault.
  dangling-log_message :
      (message : Bytes) (level : ℤ) (s : Sapi C)
      → s.server_context ≡ boxed
      → s.box ≡ none
      → dispatch engine policy (Call.log_message (some message) level) s ≡ fault
  unfolding dispatch dispatch_with Callbacks.log_message with_context Callbacks.get_context
  dangling-log_message message level s p b = rw p (rw b refl)

  abandon-fault :
      (message : Bytes) (level : ℤ) (k : Reply → Phase)
      → ((s : Sapi C)
          → engine.php_request_shutdown s ≡ invoke (Call.log_message (some message) level) k)
      → (s : Sapi C) → IsLive s
      → abandon engine policy s ≡ fault
  unfolding abandon take_box shutdown run_phase
  abandon-fault message level k calls s live = rw live.allocated (
      rw calls
        (rw (dangling-log_message message level (record s { box = none }) live.pointed refl) refl))

  -- If the checks of a request pass, PHP's startup reports a failure, and PHP logs a message first
  -- thing in the shutdown that follows, then the request accesses the box that was freed before.
  pub startup_failed_use_after_free :
      {H : Type 0} (fs : FileSystem) (initialized : Bool) (hooks : ExecutionHooks H)
      (is_no_op : Bool) (ctx : ExecutionContext) (script : Bytes) (h : H) (s : Sapi C)
      (message : Bytes) (level : ℤ) (k : Reply → Phase)
      → check_request initialized fs ctx ≡ ok script
      → StartupFails engine policy
      → ((s' : Sapi C)
          → engine.php_request_shutdown s' ≡ invoke (Call.log_message (some message) level) k)
      → execute_with_hooks engine policy fs initialized hooks is_no_op ctx h s ≡ fault
  unfolding execute_with_hooks execute_checked from_context
  startup_failed_use_after_free fs initialized hooks is_no_op ctx script h s message level k checked
        fails calls =
      rw checked (
        started engine policy (λ r. r ≡ fault) true (from_context policy ctx) _ _ s (ground arith)
          fails (λ s' live. rw (abandon-fault message level k calls s' live) refl))

  -- If the checks of a request pass, PHP's startup reports a failure, and the shutdown that follows
  -- calls no callback, then the request ends with the error, and the pointer and the box are gone.
  pub startup_failed-released :
      {H : Type 0} (fs : FileSystem) (initialized : Bool) (hooks : ExecutionHooks H)
      (is_no_op : Bool) (ctx : ExecutionContext) (script : Bytes) (h : H) (s : Sapi C) (code : ℤ)
      → check_request initialized fs ctx ≡ ok script
      → StartupFails engine policy
      → ((s' : Sapi C) → engine.php_request_shutdown s' ≡ ret code)
      → Returns
          (λ out s'. (out.0 ≡ err startup_failed) × IsIdle s')
          (execute_with_hooks engine policy fs initialized hooks is_no_op ctx h s)
  unfolding execute_with_hooks execute_checked from_context abandon take_box shutdown clear_pointer
      run_phase
  startup_failed-released fs initialized hooks is_no_op ctx script h s code checked fails quiet =
      rw checked (
        started engine policy (Returns (λ out s'. (out.0 ≡ err startup_failed) × IsIdle s')) true
          (from_context policy ctx) _ _ s (ground arith) fails
          (λ s' live.
            rw live.allocated
              (rw quiet (returns (refl, record { unpointed = refl; freed = refl })))))
