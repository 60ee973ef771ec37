-- ===== src/Bench/Fcgi.antt =====
-- The FastCGI client of benches/shared/fpm.rs: the parameters, the records that it sends and the
-- output that it takes from the records of the answer.
pub mod Params
pub mod Records
pub mod Exchange
pub mod Server
use Prim.Native.Nat.{bit_or}
use Prim.Native.String.{String}
use ripht_php_sapi.Prelude.{
  ℕ, zero, suc, ◌+◌, ◌-◌, ◌*◌, ◌/◌, ◌%◌, ◌≡◌, refl, Bool, true, false, ◌&&◌, Option, none, some,
  List, [], ◌∷◌, ◌++◌, take, drop, length, replicate, ltb, leb, ◌==◌, if◌then◌else◌, is_some,
  Result,
}
use ripht_php_sapi.Text.{Str, Bytes, lit}
use ripht_php_sapi.Text.Utf8.{utf8}
use ripht_php_sapi.Text.Decimal.{decimal}
use ripht_php_sapi.Text.FilePath.{join_path}
use ripht_php_sapi.Bench.{IoError, Write, to_option, behind_headers, read_loop}
use ripht_php_sapi.Bench.Protocol.{Method, as_str}

-- `n as u8`.
abbrev pub byte : ℕ → ℕ
byte n = n % 256

-- A length as one byte below 128, and as four bytes with the top bit set from there on.
unfoldable pub put_length : ℕ → Bytes
put_length n =
    if ltb n 128
    then byte n ∷ []
    else bit_or (byte (n / 16777216)) 0x80 ∷ byte (n / 65536) ∷ byte (n / 256) ∷ byte n ∷ []

-- `build_fcgi_params`.
unfoldable pub build_fcgi_params : List (Str × Str) → Bytes
unfolding put_length utf8
build_fcgi_params [] = []
build_fcgi_params ((name, value) ∷ params) =
    put_length (length (utf8 name))
    ++ (put_length (length (utf8 value)) ++ (utf8 name ++ (utf8 value ++ build_fcgi_params params)))

-- `(8 - (content_len % 8)) % 8`.
unfoldable pub padding_len : ℕ → ℕ
padding_len n = (8 - n % 8) % 8

-- The eight bytes in front of a record's content.
unfoldable pub record_header : ℕ → ℕ → ℕ → Bytes
unfolding padding_len
record_header record_type request_id content_len =
    1
    ∷ record_type
    ∷ byte (request_id / 256)
    ∷ byte request_id
    ∷ byte (content_len / 256)
    ∷ byte content_len
    ∷ byte (padding_len content_len)
    ∷ 0
    ∷ []

infixl 5 ◌>>=◌
abbrev pub ◌>>=◌ {ℓ κ} : {A : Type ℓ} {B : Type κ} → Option A → (A → Option B) → Option B
none >>= k = none
some a >>= k = k a

module _ {W : Type 0} (stream : Write W) where
  abbrev pub put : Bytes → W → Option W
  put bytes w = to_option (stream.write_all bytes w)

  -- `write_fcgi_record`.
  unfoldable pub write_fcgi_record : ℕ → ℕ → Bytes → W → Option W
  unfolding record_header padding_len
  write_fcgi_record record_type request_id content w = do
    w1 ← put (record_header record_type request_id (length content)) w
    w2 ← put content w1
    let padding = padding_len (length content)
    if ltb 0 padding then put (replicate padding 0) w2 else some w2

-- The byte at an index, which the code reads inside of the input only.
unfoldable pub byte_at : Bytes → ℕ → ℕ
byte_at [] i = 0
byte_at (b ∷ input) zero = b
byte_at (b ∷ input) (suc i) = byte_at input i

-- `((data[pos + 4] as usize) << 8) | (data[pos + 5] as usize)`, whose bytes do not overlap.
unfoldable pub content_len_at : Bytes → ℕ → ℕ
unfolding byte_at
content_len_at input pos = byte_at input (pos + 4) * 256 + byte_at input (pos + 5)

-- The loop of `extract_fcgi_stdout`, on fuel.
unfoldable pub stdout_loop : ℕ → Bytes → ℕ → Bytes → Bytes
unfolding byte_at content_len_at
stdout_loop zero input pos result = result
stdout_loop (suc fuel) input pos result =
    let content_len = content_len_at input pos in
    let content = take content_len (drop (pos + 8) input) in
    let next = pos + 8 + content_len + byte_at input (pos + 6) in
    let is_output = byte_at input (pos + 1) == 6 && ltb 0 content_len in
    let more = stdout_loop fuel input next (if is_output then result ++ content else result) in
    if leb (pos + 8) (length input)
    then (if ltb (length input) (pos + 8 + content_len) then result else more)
    else result

-- `extract_fcgi_stdout`; a round takes at least the eight bytes of a header.
unfoldable pub extract_fcgi_stdout : Bytes → Option Bytes
unfolding stdout_loop behind_headers
extract_fcgi_stdout input = some (behind_headers (stdout_loop (suc (length input)) input 0 []))

-- FCGI_BEGIN_REQUEST, as the client writes it.
abbrev pub begin : Bytes
begin = 0 ∷ 1 ∷ 0 ∷ 1 ∷ 0 ∷ 8 ∷ 0 ∷ 0 ∷ 0 ∷ 1 ∷ 0 ∷ 0 ∷ 0 ∷ 0 ∷ 0 ∷ 0 ∷ []

abbrev pub body_len : Option Bytes → ℕ
body_len none = 0
body_len (some b) = length b

unfoldable pub fcgi_params : Str → Str → Method → Option Bytes → List (Str × Str)
unfolding as_str decimal join_path
fcgi_params scripts_dir script method body =
    (lit "REQUEST_METHOD", as_str method)
    ∷ (lit "SCRIPT_FILENAME", join_path scripts_dir script)
    ∷ (lit "SCRIPT_NAME", script)
    ∷ (lit "REQUEST_URI", lit "/" ++ script)
    ∷ (lit "QUERY_STRING", [])
    ∷ (lit "CONTENT_TYPE", if is_some body then lit "application/json" else [])
    ∷ (lit "CONTENT_LENGTH", decimal (body_len body))
    ∷ (lit "SERVER_SOFTWARE", lit "bench")
    ∷ (lit "SERVER_NAME", lit "localhost")
    ∷ (lit "SERVER_PORT", lit "80")
    ∷ (lit "SERVER_PROTOCOL", lit "HTTP/1.1")
    ∷ (lit "GATEWAY_INTERFACE", lit "CGI/1.1")
    ∷ []

module _ {W : Type 0} (stream : Write W) where
  unfoldable pub write_body : Option Bytes → W → Option W
  unfolding write_fcgi_record
  write_body none w = some w
  write_body (some b) w = write_fcgi_record stream 5 1 b w

  -- What `fcgi_execute` writes to the socket, for encoded parameters.
  unfoldable pub write_records : Bytes → Option Bytes → W → Option W
  unfolding write_fcgi_record write_body
  write_records params_data body w = do
    w1 ← put stream begin w
    w2 ← write_fcgi_record stream 4 1 params_data w1
    w3 ← write_fcgi_record stream 4 1 [] w2
    w4 ← write_body body w3
    w5 ← write_fcgi_record stream 5 1 [] w4
    to_option (stream.flush w5)

  -- `fcgi_execute`, on what `connect` returns and on what the server lets the client read. The
  -- timeouts of five seconds are values that their setters take.
  unfoldable pub fcgi_execute :
      Str
      → Option W
      → (W → List (Result IoError Bytes))
      → Str
      → Method
      → Option Bytes
      → Option Bytes
  unfolding write_records fcgi_params build_fcgi_params read_loop extract_fcgi_stdout
  fcgi_execute scripts_dir connection server script method body = do
    w0 ← connection
    w ← write_records (build_fcgi_params (fcgi_params scripts_dir script method body)) body w0
    extract_fcgi_stdout (read_loop (server w))
