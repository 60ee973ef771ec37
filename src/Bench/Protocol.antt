-- ===== src/Bench/Protocol.antt =====
-- The messages of benches/shared/protocol.rs between the pool and its workers, and their framing.
-- `rmp_serde` is a parameter.
pub mod Framing
use Prim.Native.String.{String}
use ripht_php_sapi.Prelude.{
  ℕ, ◌+◌, ◌*◌, ◌/◌, ◌%◌, Bool, Option, List, [], ◌∷◌, ◌++◌, take, drop, length, ltb, if◌then◌else◌,
  Result, ok, err,
}
use ripht_php_sapi.Text.{Str, Bytes, lit}
use ripht_php_sapi.Bench.{IoError, invalid_data, unexpected_eof, Io, Write}

pub data Method : Type 0 where
  get post put delete patch head options : Method

unfoldable pub as_str : Method → Str
as_str get = lit "GET"
as_str post = lit "POST"
as_str put = lit "PUT"
as_str delete = lit "DELETE"
as_str patch = lit "PATCH"
as_str head = lit "HEAD"
as_str options = lit "OPTIONS"

pub record Exec : Type 0 where
  pub method : Method
  pub script : Str
  pub uri : Option Str
  pub content_type : Option Str
  pub body : Option Bytes

pub data Request : Type 0 where
  exec : Exec → Request
  echo : ℕ → Request
  shutdown : Request

pub data Response : Type 0 where
  exec : ℕ → Bytes → Response
  echo : ℕ → Response
  error : Str → Response

-- `rmp_serde::to_vec` and `rmp_serde::from_slice` at a type of messages.
pub record Codec (A : Type 0) : Type 0 where
  pub to_vec : A → Result Str Bytes
  pub from_slice : Bytes → Result Str A

-- `(n as u32).to_le_bytes()`
abbrev pub to_le_bytes : ℕ → Bytes
to_le_bytes n = n % 256 ∷ n / 256 % 256 ∷ n / 65536 % 256 ∷ n / 16777216 % 256 ∷ []

-- `u32::from_le_bytes` on four bytes.
unfoldable pub from_le_bytes : Bytes → ℕ
from_le_bytes [] = 0
from_le_bytes (b ∷ bytes) = b + 256 * from_le_bytes bytes

-- `.map_err(|e| io::Error::new(io::ErrorKind::InvalidData, e))`
abbrev pub as_io : {A : Type 0} → Result Str A → Result IoError A
as_io (ok a) = ok a
as_io (err e) = err (invalid_data e)

abbrev pub and_then : {A B : Type 0} → Result IoError A → (A → Result IoError B) → Result IoError B
and_then (ok a) k = k a
and_then (err e) k = err e

abbrev pub proceed : {W A B : Type 0} → Result IoError A × W → (A → Io W B) → Result IoError B × W
proceed (ok a, w) k = k a w
proceed (err e, w) k = (err e, w)

infixl 5 ◌>>=◌ ◌>>◌
abbrev pub ◌>>=◌ : {W A B : Type 0} → Io W A → (A → Io W B) → Io W B
◌>>=◌ m k w = proceed (m w) k

abbrev pub ◌>>◌ : {W B : Type 0} → Io W (Unit {0}) → Io W B → Io W B
m >> k = m >>= λ _. k

module _ {A W : Type 0} (codec : Codec A) (stream : Write W) where
  unfoldable pub write_message : A → Io W (Unit {0})
  write_message msg = do
    payload ← (λ w. (as_io (codec.to_vec msg), w))
    stream.write_all (to_le_bytes (length payload))
    stream.write_all payload
    stream.flush

-- `read_exact` of `n` bytes from what a stream still holds, which it takes all where that is less.
unfoldable pub read_exact : ℕ → Bytes → Result IoError Bytes × Bytes
read_exact n input =
    if ltb (length input) n then (err unexpected_eof, []) else (ok (take n input), drop n input)

-- `read_message`, with what the stream still holds.
module _ {A : Type 0} (codec : Codec A) where
  unfoldable pub read_payload : Result IoError Bytes × Bytes → Result IoError A × Bytes
  read_payload (payload, rest) = (and_then payload (λ bytes. as_io (codec.from_slice bytes)), rest)

  unfoldable pub behind_length : Result IoError Bytes × Bytes → Result IoError A × Bytes
  unfolding read_exact from_le_bytes read_payload
  behind_length (err e, rest) = (err e, rest)
  behind_length (ok len_buf, rest) = read_payload (read_exact (from_le_bytes len_buf) rest)

  unfoldable pub read_message : Bytes → Result IoError A × Bytes
  unfolding behind_length
  read_message input = behind_length (read_exact 4 input)
