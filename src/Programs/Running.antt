-- ===== src/Programs/Running.antt =====
-- A request that a program of examples/ builds and executes has a result.
use ripht_php_sapi.Prelude.{◌≡◌, refl, true, false, some, List, arith, Result, ok, err}
use ripht_php_sapi.Text.{Str, Bytes}
use ripht_php_sapi.Text.Ascii.{Unicode}
use ripht_php_sapi.Text.FilePath.{FileSystem}
use ripht_php_sapi.Text.Utf8.{utf8, cstring}
use ripht_php_sapi.Vars.Builders.{Now}
use ripht_php_sapi.Execution.Context.{ExecutionContext, path_as_cstring}
use ripht_php_sapi.Execution.Result.{ExecutionResult}
use ripht_php_sapi.Execution.Hooks.{no_op_hooks}
use ripht_php_sapi.Adapters.Method.{Method}
use ripht_php_sapi.Adapters.Web.{WebRequest}
use ripht_php_sapi.Adapters.Web.Build.{build, build_vars, canonical}
use ripht_php_sapi.Sapi.State.{Sapi, done}
use ripht_php_sapi.Sapi.Engine.Live.{IsStatus, Returns, returns, Returns-bind}
use ripht_php_sapi.Sapi.Executor.{ExecutionError}
use ripht_php_sapi.Sapi.Instance.{
  Module, init, start_module, expect_init, sapi_instance, is_initialized, executor,
}
use ripht_php_sapi.Sapi.Execute.{execute}
use ripht_php_sapi.Sapi.Execute.Completion.{
  IsIdle, Starts, Completed, completed, execute_with_hooks-Completed,
}
use ripht_php_sapi.Sapi.Execute.Filtering.{check_request-ok}
use ripht_php_sapi.Sapi.Api
use ripht_php_sapi.Programs.{
  Print, Place, or_execution_error, or_web_error, start, build_request, perform,
}

-- The script is there, and its path has no null byte.
abbrev pub IsRunnable : FileSystem → Str → Type 0
IsRunnable fs path =
    (fs.exists path ≡ true) × ((script : Bytes) × (cstring (utf8 path) ≡ some script))

pub build-ok :
    (u : Unicode) (fs : FileSystem) (now : Now) (r : WebRequest) (m : Method) (path : Str)
    → r.method ≡ some m
    → fs.exists path ≡ true
    → (ctx : ExecutionContext) × (build u fs now r path ≡ ok ctx) × (ctx.script_path ≡ path)
unfolding build
build-ok u fs now r m path hm he = (
  record {
    script_path = path;
    server_vars = build_vars u now m (canonical fs path) r;
    input = r.body;
    env_vars = r.env_vars;
    ini_overrides = r.ini_overrides;
    log_to_stderr = false;
  },
  rw hm (rw he refl),
  refl,
)

-- An instance that is there is initialised.
pub expect_init-initialized :
    (code : _) (cell m : Module) → sapi_instance code cell ≡ some m → is_initialized m ≡ true
unfolding sapi_instance init start_module expect_init is_initialized
expect_init-initialized code cell m h = ground arith

pub start_lem :
    {C : Type 0} (place : Place C) (m : Module) (out : List Print) (s : Sapi C)
    → sapi_instance place.startup_code place.module_cell ≡ some m
    → start place out s ≡ done (ok m, out) s
unfolding start
start_lem place m out s found = rw (start, found) refl

module _ {C : Type 0} (place : Place C) (starts : Starts place.engine place.policy) (m : Module)
    (initialized : is_initialized m ≡ true) where
  api_execute :
      (ctx : ExecutionContext) (s : Sapi C)
      → Api.execute place.engine place.policy place.files m ctx tt s
        ≡ execute place.engine place.policy place.files true ctx tt s
  unfolding Api.execute executor
  api_execute ctx s = rw (Api.execute, executor, initialized) (rw initialized refl)

  pub api_execute-Completed :
      (ctx : ExecutionContext) (s : Sapi C)
      → IsRunnable place.files ctx.script_path
      → Returns
          (λ out s'. Completed out.0 s')
          (Api.execute place.engine place.policy place.files m ctx tt s)
  unfolding execute path_as_cstring
  api_execute-Completed ctx s (there, (script, path)) = rw (api_execute ctx s) (
      execute_with_hooks-Completed place.engine place.policy starts place.files true no_op_hooks
        true ctx script tt s ((check_request-ok true place.files ctx script).1 (refl, there, path)))

  -- What a request of a program comes to: a result with a status of HTTP, nothing printed, nothing held.
  abbrev pub Answered : List Print → Result Str ExecutionResult × List Print → Sapi C → Type 0
  Answered out res s' =
      (result : ExecutionResult) × (res ≡ (ok result, out)) × IsStatus result.status × IsIdle s'

  answered :
      (out : List Print) (r : Result ExecutionError ExecutionResult) (s' : Sapi C)
      → Completed r s'
      → Answered out (or_execution_error r, out) s'
  unfolding or_execution_error
  answered out (err e) s' c = elim c [ ]
  answered out (ok result) s' (completed status idle) = (result, refl, status, idle)

  -- A request with a method, for a script that is there.
  pub perform-Answered :
      (r : WebRequest) (method : Method) (path : Str) (out : List Print) (s : Sapi C)
      → r.method ≡ some method
      → IsRunnable place.files path
      → Returns (Answered out) (perform place m r path out s)
  unfolding perform build_request or_web_error
  perform-Answered r method path out s hm (there, runnable) =
      let (ctx, built, same) =
        build-ok place.unicode place.files place.now r method path hm there in
      rw built (
        Returns-bind _ _ (api_execute-Completed ctx s (rw same (there, runnable)))
          (λ o s' c. returns (answered out o.0 s' c)))
