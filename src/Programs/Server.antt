-- ===== src/Programs/Server.antt =====
-- examples/http_server.rs. A connection is what the client sends, cut behind each line feed, and the
-- stream to it.
pub mod Serving
use Prim.Native.String.{String}
use ripht_php_sapi.Prelude.{
  ℕ, Option, none, some, List, [], ◌∷◌, ◌++◌, length, ◌==◌, is_empty, if◌then◌else◌, Result, ok,
  err,
}
use ripht_php_sapi.Text.{Str, Bytes, lit}
use ripht_php_sapi.Text.Ascii.{trim}
use ripht_php_sapi.Text.Decimal.{decimal}
use ripht_php_sapi.Text.Utf8.{utf8, from_utf8}
use ripht_php_sapi.Execution.Result.{ExecutionResult}
use ripht_php_sapi.Adapters.Method.{get}
use ripht_php_sapi.Adapters.Web.{new_request}
use ripht_php_sapi.Adapters.Web.Methods
use ripht_php_sapi.Sapi.State.{M, and_then, done}
use ripht_php_sapi.Sapi.Executor.{ExecutionError}
use ripht_php_sapi.Sapi.Instance.{Module}
use ripht_php_sapi.Sapi.Api
use ripht_php_sapi.Bench.{IoError, Write}
use ripht_php_sapi.Bench.Worker.{fmt_io}
use ripht_php_sapi.Programs.{
  Place, Program, ◌>>=◌, ◌>>◌, pure, println, start, build_request, php_script_path,
}

pub record Connection (W : Type 0) : Type 0 where
  pub received : List Bytes
  pub stream : W

-- Bytes, cut behind each line feed.
abbrev put_byte : ℕ → List Bytes → List Bytes
put_byte b [] = (b ∷ []) ∷ []
put_byte b (l ∷ ls) = (b ∷ l) ∷ ls

unfoldable pub lines_of : Bytes → List Bytes
lines_of [] = []
lines_of (b ∷ bs) = let rest = lines_of bs in if b == 10 then (b ∷ []) ∷ rest else put_byte b rest

-- `read_line` into an empty string: the next line, which is empty at the end, and the other lines.
unfoldable pub read_line : List Bytes → Result Str (Str × List Bytes)
unfolding from_utf8
read_line [] = ok ([], [])
read_line (l ∷ ls) = elim (from_utf8 l) [
  | none ↦ err (lit "stream did not contain valid UTF-8")
  | some text ↦ ok (text, ls)
]

-- The loop up to the first blank line.
unfoldable pub skip_headers : List Bytes → Result Str (Unit {0})
unfolding from_utf8 trim
skip_headers [] = ok tt
skip_headers (l ∷ ls) =
    let rest = skip_headers ls in
    elim (from_utf8 l) [
      | none ↦ err (lit "stream did not contain valid UTF-8")
      | some text ↦ if is_empty (trim text) then ok tt else rest
    ]

abbrev pub read_rest : Result Str (Str × List Bytes) → Result Str (Unit {0})
read_rest (ok (request_line, ls)) = skip_headers ls
read_rest (err e) = err e

-- The request line and the headers of a request.
unfoldable pub read_head : List Bytes → Result Str (Unit {0})
unfolding read_line skip_headers
read_head ls = read_rest (read_line ls)

-- The pieces of an answer, each of which is written with `write_all`.
unfoldable pub answer : Result ExecutionError ExecutionResult → List Bytes
unfolding utf8 decimal Api.fmt_execution
answer (ok result) =
    lit "HTTP/1.1 "
    ∷ utf8 (decimal result.status)
    ∷ lit "\r\nContent-Length: "
    ∷ utf8 (decimal (length result.body))
    ∷ lit "\r\n\r\n"
    ∷ result.body
    ∷ []
answer (err e) = lit "HTTP/1.1 500\r\n\r\nError: " ∷ utf8 (Api.fmt_execution e) ∷ []

module _ {W : Type 0} (tcp : Write W) where
  abbrev pub or_io : {A : Type 0} → Result IoError (Unit {0}) → A → Result Str A
  or_io (ok _) a = ok a
  or_io (err e) a = err (fmt_io e)

  unfoldable pub write_each : List Bytes → W → Result Str W
  unfolding fmt_io
  write_each [] w = ok w
  write_each (piece ∷ pieces) w =
      let (written, w') = tcp.write_all piece w in
      let rest = write_each pieces w' in elim written [ ok _ ↦ rest | err e ↦ err (fmt_io e) ]

  module _ {C : Type 0} (place : Place C) where
    -- `?` on the result of an input or output.
    abbrev pub or_error : {A : Type 0} → Result Str A → Program C A
    or_error r out = done (r, out)

    -- `match php.execute(exec)`
    unfoldable pub respond : Module → W → Str → Program C W
    unfolding build_request Api.execute answer write_each
    respond php w script = build_request place Methods.get script >>= λ exec out s.
        and_then (Api.execute place.engine place.policy place.files php exec tt s)
          (λ outcome. done (write_each (answer outcome.0) w, out))

    -- One round of the loop over the connections: the stream as it is left.
    unfoldable pub handle : Module → Str → Result Str (Connection W) → Program C W
    unfolding read_head respond
    handle php script (err e) = or_error (err e)
    handle php script (ok c) = do
      head ← or_error (read_head c.received)
      respond php c.stream script

    unfoldable pub serve : Module → Str → List (Result Str (Connection W)) → Program C (List W)
    unfolding handle
    serve php script [] = pure []
    serve php script (c ∷ cs) = do w ← handle php script c; ws ← serve php script cs; pure (w ∷ ws)

    -- `main`, for the connections that come in; `bound` is the result of `TcpListener::bind`.
    unfoldable pub main :
        Result Str (Unit {0}) → List (Result Str (Connection W)) → Program C (List W)
    unfolding start serve
    main bound incoming = do
      php ← start place
      listener ← or_error bound
      println (lit "Server running on http://127.0.0.1:8001")
      serve php (php_script_path place (lit "api.php")) incoming
