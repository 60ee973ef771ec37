-- ===== src/Sapi/Execute/Completion.antt =====
-- A request whose startup does not fail comes to its end, whatever PHP calls on the way.
use ripht_php_sapi.Prelude.{
  ◌≡◌, refl, Bool, false, none, some, List, [], ◌∷◌, arith, if◌then◌else◌, Result, ok,
}
use ripht_php_sapi.Text.{Str, Bytes}
use ripht_php_sapi.Text.FilePath.{FileSystem}
use ripht_php_sapi.Execution.Result.{ExecutionResult}
use ripht_php_sapi.Execution.Hooks.{ExecutionHooks}
use ripht_php_sapi.Execution.Context.{ExecutionContext}
use ripht_php_sapi.Sapi.Buffer.{BufferPolicy}
use ripht_php_sapi.Sapi.Context.{
  ServerContext, Closure, from_context, set_output_callback, into_result,
}
use ripht_php_sapi.Sapi.State.{ContextPtr, Sapi, Run, M, and_then, pure, ◌>>=◌, ◌>>◌, deref}
use ripht_php_sapi.Sapi.Engine.{Engine, run_phase}
use ripht_php_sapi.Sapi.Engine.Live.{
  IsStatus, IsLive, Returns, returns, Returns-bind, Returns-elim, Returns-and, Safe, Safe-pure,
  Safe-bind, Safe-deref, Safe-modify,
}
use ripht_php_sapi.Sapi.Engine.Safety.{Safe-run_phase}
use ripht_php_sapi.Sapi.Executor.{
  ExecutionError, is_failure, install, setup_globals, startup, alter_entries, alter_with,
  apply_ini_overrides, run_script, shutdown, clear_pointer, take_box, cleanup_globals, finish,
}
use ripht_php_sapi.Sapi.Execute.{
  check_request, execute_checked, execute_with_hooks, stream_checked, execute_streaming, conclude,
  execute_started, stream_started,
}

-- After a request: the pointer is null and the box is freed.
pub record IsIdle {C : Type 0} (s : Sapi C) : Type 0 where
  pub unpointed : s.server_context ≡ ContextPtr.null
  pub freed : s.box ≡ none

module _ {C : Type 0} (engine : Engine C) (policy : BufferPolicy) where
  Safe-alter_entries :
      (init : Bytes → Bool) (es : List (Bytes × Bytes)) → Safe {C = C} (alter_entries init es)
  unfolding alter_entries
  Safe-alter_entries init [] = Safe-pure tt
  Safe-alter_entries init ((key, value) ∷ es) =
      Safe-bind _ _ (Safe-modify _ (λ s. ground arith) (λ s. ground arith))
        (λ _. Safe-alter_entries init es)

  pub Safe-apply_ini_overrides :
      (init : Bytes → Bool)
      → engine.init_interned ≡ some init
      → (es : List (Bytes × Bytes)) → Safe (apply_ini_overrides engine es)
  unfolding apply_ini_overrides alter_with
  Safe-apply_ini_overrides init h [] = Safe-pure tt
  Safe-apply_ini_overrides init h (e ∷ es) =
      λ s live. rw h (Safe-alter_entries init (e ∷ es) s live)

  Safe-shutdown : Safe (shutdown engine policy)
  unfolding shutdown
  Safe-shutdown s live =
      Safe-bind (λ s'. run_phase engine policy (engine.php_request_shutdown s) s') (λ _. pure tt)
        (Safe-run_phase engine policy (engine.php_request_shutdown s)) (λ _. Safe-pure tt) s live

  -- What the end of a request does behind the shutdown.
  release : M C (ServerContext C)
  unfolding clear_pointer take_box cleanup_globals
  release = clear_pointer >> (take_box >>= λ ctx. (cleanup_globals >> pure ctx))

  release-IsIdle :
      (s : Sapi C) → IsLive s → Returns (λ ctx s'. IsStatus ctx.status_code × IsIdle s') (release s)
  unfolding release clear_pointer take_box cleanup_globals
  release-IsIdle s live =
      rw live.allocated (returns (live.status, record { unpointed = refl; freed = refl }))

  -- The end of a request leaves no pointer and no box, and hands over a context with a valid status.
  pub finish-IsIdle :
      (s : Sapi C)
      → IsLive s
      → Returns (λ ctx s'. IsStatus ctx.status_code × IsIdle s') (finish engine policy s)
  unfolding finish release
  finish-IsIdle s live =
      Returns-bind (shutdown engine policy (record s { post_read = 1 })) (λ _. release)
        (Safe-shutdown _ (record {
          pointed = live.pointed;
          context = live.context;
          allocated = live.allocated;
          status = live.status;
        }))
        (λ _ s' live'. release-IsIdle s' live')

-- INI names can be interned, and PHP's startup does not report a failure.
pub record Starts {C : Type 0} (engine : Engine C) (policy : BufferPolicy) : Type 0 where
  pub init : Bytes → Bool
  pub interned : engine.init_interned ≡ some init
  pub succeeds :
      (s : Sapi C)
      → IsLive s
      → Returns (λ code _. is_failure code ≡ false) (startup engine policy s)

-- The request has a result, its status is one of HTTP, and the shared state is released.
pub data Completed {C : Type 0} : Result ExecutionError ExecutionResult → Sapi C → Type 0 where
  completed :
      {result : ExecutionResult} {s : Sapi C}
      → IsStatus result.status
      → IsIdle s
      → Completed (ok result) s

module _ {C : Type 0} (engine : Engine C) (policy : BufferPolicy) where
  Safe-startup : Safe (startup engine policy)
  unfolding startup
  Safe-startup s live = Safe-run_phase engine policy (engine.php_request_startup s) s live

  install-IsLive :
      (ctx : ServerContext C)
      → IsStatus ctx.status_code
      → (s : Sapi C) → Returns (λ _ s'. IsLive s') (install ctx s)
  unfolding install
  install-IsLive ctx h s =
      returns (record { pointed = refl; context = ctx; allocated = refl; status = h })

  Safe-setup_globals : (ctx : ServerContext C) → Safe (setup_globals ctx)
  unfolding setup_globals
  Safe-setup_globals ctx = Safe-modify _ (λ s. refl) (λ s. refl)

  -- Once the context is installed, PHP starts in a live state, and what follows is by its code.
  pub started :
      {A : Type 0} (R : Run C A → Type 0) (fails : Bool) (ctx : ServerContext C)
      (failed next : M C A) (s : Sapi C)
      → IsStatus ctx.status_code
      → ((s' : Sapi C)
          → IsLive s'
          → Returns (λ code _. is_failure code ≡ fails) (startup engine policy s'))
      → ((s' : Sapi C) → IsLive s' → R ((if fails then failed else next) s'))
      → R (
          and_then (install ctx s) (λ _ s0. and_then (setup_globals ctx s0) (λ _ s1.
            and_then
              (startup engine policy s1)
              (λ code. if is_failure code then failed else next))))
  started R fails ctx failed next s h hcode hnext =
      Returns-elim R _ _ (install-IsLive ctx h s) (λ _ s0 live0.
        Returns-elim R _ _ (Safe-setup_globals ctx s0 live0) (λ _ s1 live1.
          Returns-elim R _ _ (Returns-and _ (Safe-startup s1 live1) (hcode s1 live1))
            (λ code s2 both. rw both.1 (hnext s2 both.0))))

module _ {C : Type 0} (engine : Engine C) (policy : BufferPolicy)
    (starts : Starts engine policy) where
  pub Safe-run_script : (script : Bytes) → Safe (run_script engine policy script)
  unfolding run_script
  Safe-run_script script s live =
      Safe-run_phase engine policy (engine.php_execute_script script s) s live

  pub Safe-entries : Safe {C = C} (deref (λ c. (c.ini_overrides, c)))
  Safe-entries = Safe-deref _ (λ c h. h)

  execute_started-Completed :
      {H : Type 0} (hooks : ExecutionHooks H) (is_no_op : Bool) (path : Str) (script : Bytes)
      (h : H) (s : Sapi C)
      → IsLive s
      → Returns
          (λ out s'. Completed out.0 s')
          (execute_started engine policy hooks is_no_op path script h s)
  unfolding execute_started conclude
  execute_started-Completed hooks is_no_op path script h s live =
      Returns-bind _ _ (Safe-entries s live) (λ es s1 live1.
        Returns-bind _ _
          (Safe-apply_ini_overrides engine policy starts.init starts.interned es s1 live1)
          (λ _ s2 live2. Returns-bind _ _ (Safe-run_script script s2 live2) (λ code s3 live3.
            Returns-bind _ _ (finish-IsIdle engine policy s3 live3)
              (λ last s4 idle. returns (completed idle.0 idle.1)))))

  stream_started-Completed :
      (c : C) (script : Bytes) (s : Sapi C)
      → IsLive s
      → Returns (λ out s'. Completed out.0 s') (stream_started engine policy c script s)
  unfolding stream_started into_result
  stream_started-Completed c script s live = Returns-bind _ _ (Safe-entries s live) (λ es s1 live1.
      Returns-bind _ _
        (Safe-apply_ini_overrides engine policy starts.init starts.interned es s1 live1)
        (λ _ s2 live2. Returns-bind _ _ (Safe-run_script script s2 live2) (λ code s3 live3.
          Returns-bind _ _ (finish-IsIdle engine policy s3 live3)
            (λ last s4 idle. returns (completed idle.0 idle.1)))))

  -- If the checks of a request pass, PHP's startup does not report a failure and INI names can be
  -- interned, then whatever PHP calls in each phase, and for any hooks that return from each call (a
  -- panic of a hook is not modelled), the request ends with a result and with no access through a
  -- freed or null box; the status lies in 100..=599, and the pointer and the box are gone.
  pub execute_with_hooks-Completed :
      {H : Type 0} (fs : FileSystem) (initialized : Bool) (hooks : ExecutionHooks H)
      (is_no_op : Bool) (ctx : ExecutionContext) (script : Bytes) (h : H) (s : Sapi C)
      → check_request initialized fs ctx ≡ ok script
      → Returns
          (λ out s'. Completed out.0 s')
          (execute_with_hooks engine policy fs initialized hooks is_no_op ctx h s)
  unfolding execute_with_hooks execute_checked from_context
  execute_with_hooks-Completed fs initialized hooks is_no_op ctx script h s checked = rw checked (
      started engine policy (Returns (λ out s'. Completed out.0 s')) false (from_context policy ctx)
        _ (execute_started engine policy hooks is_no_op ctx.script_path script _) s (ground arith)
        starts.succeeds
        (λ s' live. execute_started-Completed hooks is_no_op ctx.script_path script _ s' live))

  -- If the checks of a streaming request pass, PHP's startup does not report a failure and INI names
  -- can be interned, then whatever PHP calls in each phase and whatever the callback for the output
  -- does, also if it panics, the request ends with a result, no access through a freed or null box
  -- and no panic; the status lies in 100..=599, and the pointer and the box are gone.
  pub execute_streaming-Completed :
      (fs : FileSystem) (initialized : Bool) (ctx : ExecutionContext) (on_output : Closure Bytes C)
      (script : Bytes) (s : Sapi C)
      → check_request initialized fs ctx ≡ ok script
      → Returns
          (λ out s'. Completed out.0 s')
          (execute_streaming engine policy fs initialized ctx on_output s)
  unfolding execute_streaming stream_checked from_context set_output_callback
  execute_streaming-Completed fs initialized ctx on_output script s checked = rw checked (
      started engine policy (Returns (λ out s'. Completed out.0 s')) false
        (set_output_callback on_output (from_context policy ctx)) _
        (stream_started engine policy on_output.env script) s (ground arith) starts.succeeds
        (λ s' live. stream_started-Completed on_output.env script s' live))
