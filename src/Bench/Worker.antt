-- ===== src/Bench/Worker.antt =====
-- The worker process of benches/shared/worker.rs.
pub mod Session
pub mod Serving
use Prim.Native.String.{String}
use ripht_php_sapi.Prelude.{
  ℕ, zero, suc, ◌≡◌, refl, Bool, true, false, not, Option, none, some, List, [], ◌∷◌, ◌++◌,
  if◌then◌else◌, is_some, get_or, length, Result, ok, err,
}
use ripht_php_sapi.Text.{Str, Bytes, lit}
use ripht_php_sapi.Text.Ascii.{Unicode}
use ripht_php_sapi.Text.FilePath.{FileSystem, join_path}
use ripht_php_sapi.Vars.Builders.{Now}
use ripht_php_sapi.Execution.Context.{ExecutionContext}
use ripht_php_sapi.Adapters.Display.{fmt_web}
use ripht_php_sapi.Adapters.Web.{WebRequest, new_request, with_uri, with_content_type, with_body}
use ripht_php_sapi.Adapters.Web.Methods
use ripht_php_sapi.Adapters.Web.Build.{build}
use ripht_php_sapi.Adapters.Method.{Method as WebMethod}
use ripht_php_sapi.Sapi.Buffer.{BufferPolicy}
use ripht_php_sapi.Sapi.State.{M, pure, ◌>>=◌}
use ripht_php_sapi.Sapi.Executor.{ExecutionError}
use ripht_php_sapi.Execution.Result.{ExecutionResult}
use ripht_php_sapi.Adapters.{WebRequestError}
use ripht_php_sapi.Sapi.Engine.{Engine}
use ripht_php_sapi.Sapi.Instance.{Module}
use ripht_php_sapi.Sapi.Api.{fmt_execution, execute}
use ripht_php_sapi.Bench.{IoError, invalid_data, unexpected_eof, other, Write}
use ripht_php_sapi.Bench.Protocol.{
  Method, Exec, Request, Response, error, Codec, write_message, read_message,
}

-- `WebRequest::get()` and its siblings, by the method of the message.
unfoldable pub start_builder : Method → WebRequest
start_builder Method.get = Methods.get
start_builder Method.post = Methods.post
start_builder Method.put = Methods.put
start_builder Method.delete = Methods.delete
start_builder Method.patch = Methods.patch
start_builder Method.head = Methods.head
start_builder Method.options = Methods.options

unfoldable pub add_uri : Option Str → WebRequest → WebRequest
unfolding with_uri
add_uri none builder = builder
add_uri (some u) builder = with_uri u builder

unfoldable pub add_type : Option Str → WebRequest → WebRequest
unfolding with_content_type
add_type none builder = builder
add_type (some ct) builder = with_content_type ct builder

unfoldable pub add_body : Option Bytes → Option Str → WebRequest → WebRequest
unfolding with_content_type with_body
add_body none content_type builder = builder
add_body (some b) content_type builder =
    let filled = with_body b builder in
    if is_some content_type
    then filled
    else with_content_type (lit "application/octet-stream") filled

-- The builder of `execute_php`, with what the message sets.
unfoldable pub builder_of : Exec → WebRequest
unfolding start_builder add_uri add_type add_body
builder_of e =
    add_body e.body e.content_type
      (add_type e.content_type (add_uri e.uri (start_builder e.method)))

-- What a worker finds in place: the scripts, PHP and the state of its initialisation, and the clock.
pub record Site (C : Type 0) : Type 0 where
  pub unicode : Unicode
  pub files : FileSystem
  pub now : Now
  pub scripts_dir : Str
  pub engine : Engine C
  pub policy : BufferPolicy
  pub sapi : Module

unfoldable pub response_of : Result ExecutionError ExecutionResult → Response
unfolding fmt_execution
response_of (ok result) = Response.exec result.status result.body
response_of (err e) = error (lit "Execution failed: " ++ fmt_execution e)

module _ {C : Type 0} (site : Site C) where
  unfoldable pub run_context : Result WebRequestError ExecutionContext → M C Response
  unfolding fmt_web execute response_of
  run_context (err e) = pure (error (lit "Failed to build context: " ++ fmt_web e))
  run_context (ok ctx) = do
    (result, _) ← execute site.engine site.policy site.files site.sapi ctx tt
    pure (response_of result)

  unfoldable pub execute_php : Exec → M C Response
  unfolding join_path build builder_of run_context
  execute_php e =
      let path = join_path site.scripts_dir e.script in
      if not (site.files.exists path)
      then pure (error (lit "Script not found: " ++ path))
      else run_context (build site.unicode site.files site.now (builder_of e) path)

  -- `handle_request`; no answer is `std::process::exit`.
  unfoldable pub handle_request : Request → M C (Option Response)
  unfolding execute_php
  handle_request (Request.exec e) = execute_php e >>= λ response. pure (some response)
  handle_request (Request.echo size) = pure (some (Response.echo size))
  handle_request Request.shutdown = pure none

-- The text of an `io::Error`.
unfoldable pub fmt_io : IoError → Str
fmt_io (invalid_data e) = e
fmt_io unexpected_eof = lit "failed to fill whole buffer"
fmt_io (other e) = e

-- How a worker ends, with the stream of its answers: the loop breaks, or the process exits in it.
pub data Ended (W : Type 0) : Type 0 where
  broke exited : W → Ended W
  out_of_fuel : Ended W

abbrev pub is_eof : IoError → Bool
is_eof unexpected_eof = true
is_eof _ = false

module _ {C W : Type 0} (site : Site C) (requests : Codec Request) (responses : Codec Response)
    (stream : Write W) where
  -- The loop behind an answer that was written, or was not.
  abbrev pub after_answer : Result IoError (Unit {0}) × W → (W → M C (Ended W)) → M C (Ended W)
  after_answer (ok _, w) more = more w
  after_answer (err e, w) more = pure (broke w)

  -- The loop on a request, by what `handle_request` returns.
  unfoldable pub answer : Option Response → W → (W → M C (Ended W)) → M C (Ended W)
  unfolding write_message
  answer none w more = pure (exited w)
  answer (some response) w more = after_answer (write_message responses stream response w) more

  -- The loop on what `read_message` returns.
  unfoldable pub round : Result IoError Request → W → (W → M C (Ended W)) → M C (Ended W)
  unfolding handle_request answer fmt_io write_message
  round (ok request) w more = handle_request site request >>= λ response. answer response w more
  round (err e) w more =
      if is_eof e
      then pure (broke w)
      else more
          (write_message responses stream (error (lit "Failed to read request: " ++ fmt_io e)) w).1

  -- `run_worker_loop` on what stdin holds; a message takes at least the four bytes of its length.
  unfoldable pub worker_loop : ℕ → Bytes → W → M C (Ended W)
  unfolding read_message round
  worker_loop zero input w = pure out_of_fuel
  worker_loop (suc fuel) input w =
      let (request, rest) = read_message requests input in
      round request w (λ w'. worker_loop fuel rest w')

  unfoldable pub run_worker_loop : Bytes → W → M C (Ended W)
  unfolding worker_loop
  run_worker_loop input w = worker_loop (suc (length input)) input w
