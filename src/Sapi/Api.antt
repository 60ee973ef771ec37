-- ===== src/Sapi/Api.antt =====
-- `RiphtSapi::execute`, `execute_streaming` and `execute_with_hooks` of src/sapi/mod.rs, and the
-- `Display` of the errors of src/sapi.
use ripht_php_sapi.Prelude.{Bool, ◌≡◌, refl, Bool-cases, inl, inr, ◌++◌, ok, err}
use ripht_php_sapi.Text.{Str, Bytes, lit}
use ripht_php_sapi.Text.FilePath.{FileSystem}
use ripht_php_sapi.Execution.Hooks.{ExecutionHooks}
use ripht_php_sapi.Execution.Context.{ExecutionContext}
use ripht_php_sapi.Sapi.Buffer.{BufferPolicy}
use ripht_php_sapi.Sapi.Context.{Closure}
use ripht_php_sapi.Sapi.State.{M, pure}
use ripht_php_sapi.Sapi.Engine.{Engine}
use ripht_php_sapi.Sapi.Executor.{
  ExecutionError, invalid_path, script_not_found, not_initialized, startup_failed,
}
use ripht_php_sapi.Sapi.Instance.{
  SapiError, initialization_failed, invalid_ini_key, invalid_ini_value, ini_set_failed,
  library_not_found, Module, is_initialized, executor,
}
use ripht_php_sapi.Sapi.Execute.{Outcome}
use ripht_php_sapi.Sapi.Execute

unfoldable pub fmt_sapi : SapiError → Str
fmt_sapi SapiError.not_initialized = lit "PHP engine not initialized"
fmt_sapi (initialization_failed e) = lit "PHP initialization failed: " ++ e
fmt_sapi invalid_ini_key = lit "INI key contains null byte"
fmt_sapi invalid_ini_value = lit "INI value contains null byte"
fmt_sapi (ini_set_failed key) = lit "Failed to set INI: " ++ key
fmt_sapi library_not_found =
    lit "PHP library not found. Build PHP with --enable-embed=static and set RIPHT_PHP_SAPI_PREFIX"

unfoldable pub fmt_execution : ExecutionError → Str
fmt_execution (invalid_path e) = lit "Invalid path: " ++ e
fmt_execution (script_not_found path) = lit "Script not found: " ++ path
fmt_execution not_initialized = lit "PHP engine not initialized"
fmt_execution startup_failed = lit "Request startup failed"

-- Each method is `self.executor().map_err(|_| ExecutionError::NotInitialized)?` and the executor's.
module _ {C H : Type 0} (engine : Engine C) (policy : BufferPolicy) (fs : FileSystem) where
  unfoldable pub execute : Module → ExecutionContext → H → M C (Outcome H)
  unfolding executor is_initialized Execute.execute
  execute m ctx h = elim (executor m) [
    | err e ↦ pure (err not_initialized, h)
    | ok _ ↦ Execute.execute engine policy fs (is_initialized m) ctx h
  ]

  unfoldable pub execute_with_hooks :
      Module → ExecutionHooks H → Bool → ExecutionContext → H → M C (Outcome H)
  unfolding executor is_initialized Execute.execute_with_hooks
  execute_with_hooks m hooks is_no_op ctx h = elim (executor m) [
    | err e ↦ pure (err not_initialized, h)
    | ok _ ↦ Execute.execute_with_hooks engine policy fs (is_initialized m) hooks is_no_op ctx h
  ]

  -- The guard of the method is that of the executor.
  pub execute_with_hooks-executor :
      (m : Module) (hooks : ExecutionHooks H) (is_no_op : Bool) (ctx : ExecutionContext) (h : H)
      → execute_with_hooks m hooks is_no_op ctx h
        ≡ Execute.execute_with_hooks engine policy fs (is_initialized m) hooks is_no_op ctx h
  unfolding execute_with_hooks executor Execute.execute_with_hooks Execute.check_request
      Execute.execute_checked
  execute_with_hooks-executor m hooks is_no_op ctx h = elim (Bool-cases (is_initialized m)) [
    | inl begun ↦ rw (execute_with_hooks, executor, begun) (rw begun refl)
    | inr unready ↦ rw (execute_with_hooks, executor, unready) refl
  ]

module _ {C : Type 0} (engine : Engine C) (policy : BufferPolicy) (fs : FileSystem) where
  unfoldable pub execute_streaming : Module → ExecutionContext → Closure Bytes C → M C (Outcome C)
  unfolding executor is_initialized Execute.execute_streaming
  execute_streaming m ctx on_output = elim (executor m) [
    | err e ↦ pure (err not_initialized, on_output.env)
    | ok _ ↦ Execute.execute_streaming engine policy fs (is_initialized m) ctx on_output
  ]
