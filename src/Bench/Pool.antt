-- ===== src/Bench/Pool.antt =====
-- The pool of worker processes of benches/shared/pool.rs, which takes the workers in turn.
pub mod Turns
pub mod Dropping
use Prim.Native.String.{String}
use ripht_php_sapi.Prelude.{
  ℕ, zero, suc, ◌+◌, ◌%◌, Bool, true, false, Option, none, some, List, [], ◌∷◌, length, is_empty,
  if◌then◌else◌, Result, ok, err,
}
use ripht_php_sapi.Text.{Str, Bytes, lit}
use ripht_php_sapi.Bench.{IoError, Write}
use ripht_php_sapi.Bench.Protocol.{
  Method, Exec, Request, Response, error, Codec, write_message, read_message,
}

-- `Worker`: the stream to the child's stdin, and what its stdout still holds.
pub record Worker (W : Type 0) : Type 0 where
  pub writer : W
  pub reader : Bytes

-- `Worker::send`; the child runs on what was written to it, and adds to its stdout. A failed `expect`
-- is no result.
module _ {W : Type 0} (requests : Codec Request) (responses : Codec Response) (stream : Write W)
    (child : W → Bytes → Bytes) where
  unfoldable pub receive : W → Result IoError Response × Bytes → Option (Response × Worker W)
  receive w (ok response, rest) = some (response, record { writer = w; reader = rest })
  receive w (err e, rest) = none

  unfoldable pub worker_send : Request → Worker W → Option (Response × Worker W)
  unfolding write_message read_message receive
  worker_send req k =
      let (written, w) = write_message requests stream req k.writer in
      elim written [ err e ↦ none | ok _ ↦ receive w (read_message responses (child w k.reader)) ]

-- `Pool`, for any kind of worker.
pub record Pool (K : Type 0) : Type 0 where
  pub workers : List K
  pub next : ℕ

module _ {K : Type 0} where
  -- `self.workers[idx]`, and the workers with that one replaced.
  unfoldable pub get_worker : List K → ℕ → Option K
  get_worker [] i = none
  get_worker (k ∷ ks) zero = some k
  get_worker (k ∷ ks) (suc i) = get_worker ks i

  unfoldable pub put_worker : List K → ℕ → K → List K
  put_worker [] i x = []
  put_worker (k ∷ ks) zero x = x ∷ ks
  put_worker (k ∷ ks) (suc i) x = k ∷ put_worker ks i x

  -- The pool behind an answer: the worker is the one whose turn it was.
  unfoldable pub put_back : Pool K → Option (Response × K) → Option (Response × Pool K)
  unfolding put_worker
  put_back p none = none
  put_back p (some (response, k)) = some (
    response,
    record { workers = put_worker p.workers p.next k; next = (p.next + 1) % length p.workers },
  )

  module _ (send_one : Request → K → Option (Response × K)) where
    -- `Pool::send`; a remainder by zero, an index out of range and a failed `expect` are panics.
    unfoldable pub send : Request → Pool K → Option (Response × Pool K)
    unfolding get_worker put_back
    send req p = if is_empty p.workers then none else elim (get_worker p.workers p.next) [
      | none ↦ none
      | some k ↦ put_back p (send_one req k)
    ]

    -- `Pool::exec`.
    unfoldable pub exec :
        Str → Method → Option Str → Option Str → Option Bytes → Pool K → Option (Response × Pool K)
    unfolding send
    exec script method uri content_type body p =
        send
          (Request.exec (record {
            method = method;
            script = script;
            uri = uri;
            content_type = content_type;
            body = body;
          }))
          p

    abbrev pub echoed : Response → ℕ
    echoed (Response.echo size) = size
    echoed _ = 0

    -- `Pool::echo`.
    unfoldable pub echo : ℕ → Pool K → Option (ℕ × Pool K)
    unfolding send
    echo size p = elim (send (Request.echo size) p) [
      | none ↦ none
      | some (r, p') ↦ some (echoed r, p')
    ]

    abbrev pub body_of : Response → Option Bytes
    body_of (Response.exec status body) = some body
    body_of _ = none

    abbrev pub json_type : Option Bytes → Option Str
    json_type none = none
    json_type (some b) = some (lit "application/json")

    -- `execute` of `PooledBackend`.
    unfoldable pub execute : Str → Method → Option Bytes → Pool K → Option (Option Bytes × Pool K)
    unfolding exec
    execute script method body p = elim (exec script method none (json_type body) body p) [
      | none ↦ none
      | some (r, p') ↦ some (body_of r, p')
    ]

-- The loop of `Pool`'s `drop`; what a write returns is not looked at.
unfoldable pub drop_all : {W : Type 0} → Codec Request → Write W → List (Worker W) → List (Worker W)
unfolding write_message
drop_all requests stream [] = []
drop_all requests stream (k ∷ ks) =
    record k { writer = (write_message requests stream Request.shutdown k.writer).1 }
    ∷ drop_all requests stream ks
