-- ===== src/Bench/Backend.antt =====
-- `BenchSuite` of benches/shared/backend.rs, and the backend of benches/shared/sapi.rs, which runs
-- the library in the process of the benchmark.
use ripht_php_sapi.Prelude.{Option, none, some, Result, ok, err}
use ripht_php_sapi.Text.{Str, Bytes, lit}
use ripht_php_sapi.Text.FilePath.{join_path}
use ripht_php_sapi.Execution.Result.{ExecutionResult}
use ripht_php_sapi.Execution.Context.{ExecutionContext}
use ripht_php_sapi.Adapters.{WebRequestError}
use ripht_php_sapi.Adapters.Web.{WebRequest, with_content_type, with_body}
use ripht_php_sapi.Adapters.Web.Build.{build}
use ripht_php_sapi.Sapi.State.{M, pure, ◌>>=◌}
use ripht_php_sapi.Sapi.Executor.{ExecutionError}
use ripht_php_sapi.Sapi.Api.{execute}
use ripht_php_sapi.Bench.Protocol.{Method}
use ripht_php_sapi.Bench.Worker.{Site, start_builder}

pub record BenchSuite : Type 0 where
  pub name : Str
  pub script : Str
  pub method : Method
  pub body : Option Bytes

-- `BenchSuite::new`.
unfoldable pub new_suite : Str → Str → Method → BenchSuite
new_suite name script method = record { name = name; script = script; method = method; body = none }

unfoldable pub with_suite_body : Bytes → BenchSuite → BenchSuite
with_suite_body body suite = record suite { body = some body }

unfoldable pub add_json : Option Bytes → WebRequest → WebRequest
unfolding with_content_type with_body
add_json none builder = builder
add_json (some b) builder = with_content_type (lit "application/json") (with_body b builder)

unfoldable pub body_of : Result ExecutionError ExecutionResult → Option Bytes
body_of (ok result) = some result.body
body_of (err e) = none

module _ {C : Type 0} (site : Site C) where
  abbrev pub run_built : Result WebRequestError ExecutionContext → M C (Option Bytes)
  run_built (err e) = pure none
  run_built (ok ctx) = do
    (result, _) ← execute site.engine site.policy site.files site.sapi ctx tt
    pure (body_of result)

  -- `execute` of `SapiBackend`.
  unfoldable pub backend_execute : Str → Method → Option Bytes → M C (Option Bytes)
  unfolding join_path start_builder add_json build execute body_of
  backend_execute script method body =
      let path = join_path site.scripts_dir script in
      let request = add_json body (start_builder method) in
      run_built (build site.unicode site.files site.now request path)
