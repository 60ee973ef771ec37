-- ===== src/Sapi/Execute/Lifecycle.antt =====
-- The hooks that src/sapi/executor.rs calls in a request that completes, for any hooks.
use ripht_php_sapi.Prelude.{◌≡◌, refl, Bool, false, arith, ok}
use ripht_php_sapi.Text.{Str, Bytes}
use ripht_php_sapi.Text.FilePath.{FileSystem}
use ripht_php_sapi.Execution.Hooks.{ExecutionHooks}
use ripht_php_sapi.Execution.Context.{ExecutionContext}
use ripht_php_sapi.Sapi.Buffer.{BufferPolicy}
use ripht_php_sapi.Sapi.Context.{ServerContext, from_context}
use ripht_php_sapi.Sapi.State.{Sapi}
use ripht_php_sapi.Sapi.Engine.{Engine}
use ripht_php_sapi.Sapi.Engine.Live.{IsLive, Returns, returns, Returns-bind}
use ripht_php_sapi.Sapi.Executor.{is_failure}
use ripht_php_sapi.Sapi.Execute.{
  check_request, execute_checked, execute_with_hooks, conclude, execute_started,
}
-- After a request: the pointer is null and the box is freed.
use ripht_php_sapi.Prelude.{not}
use ripht_php_sapi.Sapi.Execute.{Outcome}
use ripht_php_sapi.Sapi.Execute.Completion.{
  IsIdle, Starts, started, Safe-entries, Safe-apply_ini_overrides, Safe-run_script, finish-IsIdle,
}

-- Hooks that were told of the stages of a request, in their order.
abbrev pub told : {H : Type 0} → ExecutionHooks H → Str → Bool → H → H
told hooks path success h = hooks.on_request_finishing (
    hooks.on_script_executed success (
      hooks.on_script_executing path
        (hooks.on_request_started (hooks.on_request_starting (hooks.on_context_created h)))))

-- The request was concluded on the context that it left, with hooks that were told of its stages, and
-- whether the script succeeded.
pub record Concluded (C : Type 0) {H : Type 0} (hooks : ExecutionHooks H) (is_no_op : Bool)
    (path : Str) (h : H) (out : Outcome H) : Type 0 where
  pub success : Bool
  pub last : ServerContext C
  pub returned : out ≡ (
    ok (conclude hooks is_no_op last (told hooks path success h)).0,
    (conclude hooks is_no_op last (told hooks path success h)).1,
  )

module _ {C : Type 0} (engine : Engine C) (policy : BufferPolicy)
    (starts : Starts engine policy) where
  execute_started-Concluded :
      {H : Type 0} (hooks : ExecutionHooks H) (is_no_op : Bool) (path : Str) (script : Bytes)
      (h : H) (s : Sapi C)
      → IsLive s
      → Returns
          (λ out s'. Concluded C hooks is_no_op path h out × IsIdle s')
          (execute_started engine policy hooks is_no_op path script
            (hooks.on_request_starting (hooks.on_context_created h))
            s)
  unfolding execute_started
  execute_started-Concluded hooks is_no_op path script h s live =
      Returns-bind _ _ (Safe-entries engine policy starts s live) (λ es s1 live1.
        Returns-bind _ _
          (Safe-apply_ini_overrides engine policy starts.init starts.interned es s1 live1)
          (λ _ s2 live2.
            Returns-bind _ _ (Safe-run_script engine policy starts script s2 live2)
              (λ code s3 live3.
                Returns-bind _ _ (finish-IsIdle engine policy s3 live3) (λ last s4 idle. returns (
                  record { success = not (is_failure code); last = last; returned = refl },
                  idle.1,
                )))))

  -- Whatever the hooks are, a request that starts tells them of its stages in their order, and
  -- concludes with them.
  pub execute_with_hooks-Concluded :
      {H : Type 0} (fs : FileSystem) (initialized : Bool) (hooks : ExecutionHooks H)
      (is_no_op : Bool) (ctx : ExecutionContext) (script : Bytes) (h : H) (s : Sapi C)
      → check_request initialized fs ctx ≡ ok script
      → Returns
          (λ out s'. Concluded C hooks is_no_op ctx.script_path h out × IsIdle s')
          (execute_with_hooks engine policy fs initialized hooks is_no_op ctx h s)
  unfolding execute_with_hooks execute_checked from_context
  execute_with_hooks-Concluded {H} fs initialized hooks is_no_op ctx script h s checked =
      rw checked (
        started engine policy
          (Returns (λ out s'. Concluded C hooks is_no_op ctx.script_path h out × IsIdle s')) false
          (from_context policy ctx) _
          (execute_started engine policy hooks is_no_op ctx.script_path script _) s (ground arith)
          starts.succeeds
          (λ s' live. execute_started-Concluded hooks is_no_op ctx.script_path script h s' live))
