-- ===== src/Programs.antt =====
-- The programs of examples/: each builds web requests, executes them, and prints what comes back.
-- What a program prints is a list of texts; it ends, or returns the text of an error.
pub mod Running
pub mod Basic
pub mod Cases
pub mod Forms
pub mod Hooked
pub mod Server
pub mod Encoding
pub mod Sessions
use Prim.Native.String.{String}
use ripht_php_sapi.Prelude.{
  ℕ, false, ◌-◌, Option, none, some, List, [], ◌∷◌, ◌++◌, replicate, length, Result, ok, err,
}
use ripht_php_sapi.Prelude.Int.{ℤ}
use ripht_php_sapi.Text.{Str, Bytes, lit}
use ripht_php_sapi.Text.Ascii.{Unicode}
use ripht_php_sapi.Text.FilePath.{FileSystem, join_path}
use ripht_php_sapi.Vars.Builders.{Now}
use ripht_php_sapi.Execution.Context.{ExecutionContext}
use ripht_php_sapi.Execution.Hooks.{ExecutionHooks}
use ripht_php_sapi.Execution.Result.{ExecutionResult}
use ripht_php_sapi.Adapters.Display.{fmt_web}
use ripht_php_sapi.Adapters.{WebRequestError}
use ripht_php_sapi.Adapters.Web.{WebRequest}
use ripht_php_sapi.Adapters.Web.Build.{build}
use ripht_php_sapi.Sapi.Buffer.{BufferPolicy}
use ripht_php_sapi.Sapi.State.{M, panic, and_then, done}
use ripht_php_sapi.Sapi.Executor.{ExecutionError}
use ripht_php_sapi.Sapi.Engine.{Engine}
use ripht_php_sapi.Sapi.Instance.{Module, sapi_instance}
use ripht_php_sapi.Sapi.Execute.{Outcome}
use ripht_php_sapi.Sapi.Api

-- A piece of text on the standard output, or on the standard error.
pub data Print : Type 0 where
  stdout stderr : Str → Print

-- What a program finds in place: Unicode's tables, the files, the clock, `CARGO_MANIFEST_DIR`, PHP with
-- the code that its module startup returns, and the cell of the initialisation.
pub record Place (C : Type 0) : Type 0 where
  pub unicode : Unicode
  pub files : FileSystem
  pub now : Now
  pub manifest_dir : Str
  pub engine : Engine C
  pub policy : BufferPolicy
  pub startup_code : ℤ
  pub module_cell : Module

-- An action of a program: it prints behind what was printed, and ends with a value or the text of an
-- error, which `?` hands on.
abbrev pub Program : Type 0 → Type 0 → Type 0
Program C A = List Print → M C (Result Str A × List Print)

-- `sapi.execute(ctx)?`
unfoldable pub or_execution_error :
    Result ExecutionError ExecutionResult → Result Str ExecutionResult
unfolding Api.fmt_execution
or_execution_error (ok result) = ok result
or_execution_error (err e) = err (Api.fmt_execution e)

module _ {C : Type 0} where
  abbrev pub pure : {A : Type 0} → A → Program C A
  pure a out = done (ok a, out)

  abbrev pub proceed :
      {A B : Type 0}
      → (A → Program C B)
      → Result Str A × List Print
      → M C (Result Str B × List Print)
  proceed k (ok a, out) = k a out
  proceed k (err e, out) = done (err e, out)

  infixl 5 ◌>>=◌ ◌>>◌
  abbrev pub ◌>>=◌ : {A B : Type 0} → Program C A → (A → Program C B) → Program C B
  ◌>>=◌ m k out s = and_then (m out s) (proceed k)

  abbrev pub ◌>>◌ : {B : Type 0} → Program C (Unit {0}) → Program C B → Program C B
  m >> k = m >>= λ _. k

  abbrev pub print : Str → Program C (Unit {0})
  print text out = done (ok tt, out ++ stdout text ∷ [])

  abbrev pub println : Str → Program C (Unit {0})
  println text = print (text ++ lit "\n")

  abbrev pub eprintln : Str → Program C (Unit {0})
  eprintln text out = done (ok tt, out ++ stderr (text ++ lit "\n") ∷ [])

  -- `RiphtSapi::instance()`.
  unfoldable pub start : Place C → Program C Module
  unfolding sapi_instance
  start place out s = elim (sapi_instance place.startup_code place.module_cell) [
    | none ↦ panic
    | some m ↦ done (ok m, out) s
  ]

  -- `.build(&script)?`
  unfoldable pub or_web_error : Result WebRequestError ExecutionContext → Program C ExecutionContext
  unfolding fmt_web
  or_web_error (ok ctx) out = done (ok ctx, out)
  or_web_error (err e) out = done (err (fmt_web e), out)

  unfoldable pub build_request : Place C → WebRequest → Str → Program C ExecutionContext
  unfolding build or_web_error
  build_request place r path = or_web_error (build place.unicode place.files place.now r path)

  unfoldable pub execute : Place C → Module → ExecutionContext → Program C ExecutionResult
  unfolding Api.execute or_execution_error
  execute place m ctx out s =
      and_then (Api.execute place.engine place.policy place.files m ctx tt s)
        (λ outcome. done (or_execution_error outcome.0, out))

  -- A request that is built and executed.
  unfoldable pub perform : Place C → Module → WebRequest → Str → Program C ExecutionResult
  unfolding build_request execute
  perform place m r path = build_request place r path >>= execute place m

  -- `sapi.execute_with_hooks(ctx, hooks)?`, with what the hooks print, also where they are dropped.
  unfoldable pub execute_with_hooks :
      {H : Type 0}
      → Place C
      → Module
      → ExecutionHooks H
      → (H → List Print)
      → ExecutionContext
      → H
      → Program C ExecutionResult
  unfolding Api.execute_with_hooks or_execution_error
  execute_with_hooks place m hooks printed ctx h out s =
      and_then (Api.execute_with_hooks place.engine place.policy place.files m hooks false ctx h s)
        (λ outcome. done (or_execution_error outcome.0, out ++ printed outcome.1))

-- The path of one of the PHP scripts.
unfoldable pub php_script_path : {C : Type 0} → Place C → Str → Str
unfolding join_path
php_script_path place name = join_path (join_path place.manifest_dir (lit "tests/php_scripts")) name

-- `{:.<w}`: a text on the left of so many chars, which dots fill.
unfoldable pub dotted : ℕ → Str → Str
dotted w text = text ++ replicate (w - length text) b'.'
