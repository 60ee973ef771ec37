-- ===== src/Bench/Fcgi/Records.antt =====
-- The records of benches/shared/fpm.rs: the client's writer of records, and its reader of the output.
use ripht_php_sapi.Prelude.{
  ℕ, zero, suc, ◌+◌, ◌<◌, ◌≤◌, ◌≡◌, refl, sym, ap, ◌∙◌, ◌&&◌, some, List, [], ◌∷◌, ◌++◌, take, drop,
  length, replicate, ltb, ◌==◌, if◌then◌else◌, All, ◌⊎◌, arith, length-append, length-replicate,
  take-append, drop-append, append-nil, append_assoc,
}
use ripht_php_sapi.Text.{Bytes}
use ripht_php_sapi.Bench.{vec, behind_headers}
use ripht_php_sapi.Bench.Fcgi.{
  byte, padding_len, record_header, write_fcgi_record, byte_at, content_len_at, stdout_loop,
  extract_fcgi_stdout,
}

-- A record as it goes over the wire: header, content and padding.
abbrev pub record_bytes : ℕ → ℕ → Bytes → Bytes
record_bytes kind id content =
    record_header kind id (length content)
    ++ (content ++ replicate (padding_len (length content)) 0)

padded :
    (w : Bytes) (n : ℕ)
    → (if ltb 0 n then some (w ++ replicate n 0) else some w) ≡ some (w ++ replicate n 0)
padded w zero = ap some (sym (append-nil w))
padded w (suc n) = ground arith

-- The client appends the whole record to a stream that takes every byte.
pub write_fcgi_record-record_bytes :
    (kind id : ℕ) (content sent : Bytes)
    → write_fcgi_record vec kind id content sent ≡ some (sent ++ record_bytes kind id content)
unfolding write_fcgi_record
write_fcgi_record-record_bytes kind id content sent =
    let header = record_header kind id (length content) in
    let zeros : Bytes = replicate (padding_len (length content)) 0 in
    padded ((sent ++ header) ++ content) (padding_len (length content))
    ∙ ap some
        (append_assoc (sent ++ header) content zeros ∙ append_assoc sent header (content ++ zeros))

-- The answer of a server: records of any kind, each with its content.
unfoldable pub records : ℕ → List (ℕ × Bytes) → Bytes
records id [] = []
records id ((kind, content) ∷ rs) = record_bytes kind id content ++ records id rs

-- What the records of type 6 hold.
unfoldable pub output_of : List (ℕ × Bytes) → Bytes
output_of [] = []
output_of ((kind, content) ∷ rs) = if kind == 6 then content ++ output_of rs else output_of rs

byte_at-append : (xs ys : Bytes) (i : ℕ) → byte_at (xs ++ ys) (length xs + i) ≡ byte_at ys i
unfolding byte_at
byte_at-append [] ys i = ap (byte_at ys) (omega arith)
byte_at-append (x ∷ xs) ys i = ap (byte_at (x ∷ (xs ++ ys))) (suc_add i) ∙ byte_at-append xs ys i
  where
    suc_add : (i : ℕ) → suc (length xs) + i ≡ suc (length xs + i)
    suc_add i = omega arith

appended :
    (result content : Bytes) (kind : ℕ)
    → (if kind == 6 && ltb 0 (length content) then result ++ content else result)
      ≡ (if kind == 6 then result ++ content else result)
appended result [] kind = ground (arith, append-nil result)
appended result (b ∷ content) kind = ground arith

-- One round at a position with a whole record.
stdout_loop_round :
    (fuel pos kind pad : ℕ) (input content result : Bytes)
    → byte_at input (pos + 1) ≡ kind
    → content_len_at input pos ≡ length content
    → byte_at input (pos + 6) ≡ pad
    → take (length content) (drop (pos + 8) input) ≡ content
    → pos + 8 + length content ≤ length input
    → stdout_loop (suc fuel) input pos result
      ≡ stdout_loop fuel input
          (pos + 8 + length content + pad)
          (if kind == 6 then result ++ content else result)
unfolding stdout_loop
stdout_loop_round fuel pos kind pad input content result hk hn hp hc h =
    rw (hk, hn, hp, hc, appended result content kind) (ground arith)

small_padding : (n : ℕ) → byte (padding_len n) ≡ padding_len n
unfolding padding_len
small_padding n = omega arith

length_past :
    (front : Bytes) (kind id : ℕ) (content : Bytes)
    → length (front ++ record_bytes kind id content)
      ≡ length front + 8 + length content + padding_len (length content)
unfolding record_header
length_past front kind id content =
    let zeros : Bytes = replicate (padding_len (length content)) 0 in
    omega (
      arith,
      length-append front (record_bytes kind id content),
      length-append content zeros,
      length-replicate {A = ℕ} (padding_len (length content)) 0,
    )

-- One round on a whole record behind `front`.
stdout_loop-record :
    (fuel kind id : ℕ) (front content back result : Bytes)
    → length content < 65536
    → stdout_loop (suc fuel) (front ++ (record_bytes kind id content ++ back)) (length front) result
      ≡ stdout_loop fuel
          (front ++ (record_bytes kind id content ++ back))
          (length (front ++ record_bytes kind id content))
          (if kind == 6 then result ++ content else result)
unfolding record_header byte_at content_len_at
stdout_loop-record fuel kind id front content back result h =
    let tail = record_bytes kind id content ++ back in
    let zeros : Bytes = replicate (padding_len (length content)) 0 in
    stdout_loop_round fuel (length front) kind (padding_len (length content)) (front ++ tail)
      content result (byte_at-append front tail 1)
      (omega (arith, byte_at-append front tail 4, byte_at-append front tail 5))
      (byte_at-append front tail 6 ∙ small_padding (length content))
      (ap (take (length content)) (drop-append front tail 8)
        ∙ (ap (take (length content)) (append_assoc content zeros back)
            ∙ take-append content (zeros ++ back)))
      (omega (
        arith,
        length-append front tail,
        length-append (content ++ zeros) back,
        length-append content zeros,
      ))
    ∙ ap (λ k. stdout_loop fuel (front ++ tail) k (if kind == 6 then result ++ content else result))
        (sym (length_past front kind id content))

-- Bytes that hold no whole header, or less content than their header says.
abbrev pub IsCutOff : Bytes → Type 0
IsCutOff tail = (length tail < 8) ⊎ (length tail < 8 + content_len_at tail 0)

stdout_loop-end :
    (fuel : ℕ) (front tail result : Bytes)
    → IsCutOff tail
    → stdout_loop fuel (front ++ tail) (length front) result ≡ result
unfolding stdout_loop content_len_at
stdout_loop-end zero front tail result h = refl
stdout_loop-end (suc fuel) front tail result h =
    ground
      (arith, length-append front tail, byte_at-append front tail 4, byte_at-append front tail 5)

gathered :
    (kind : ℕ) (result content more : Bytes)
    → (if kind == 6 then result ++ content else result) ++ more
      ≡ result ++ (if kind == 6 then content ++ more else more)
gathered kind result content more = ground (arith, append_assoc result content more)

-- The rounds on all records behind `front`.
stdout_loop-records :
    (fuel id : ℕ) (rs : List (ℕ × Bytes)) (front tail result : Bytes)
    → All (λ r. length (r.1) < 65536) rs
    → IsCutOff tail
    → length rs < fuel
    → stdout_loop fuel (front ++ (records id rs ++ tail)) (length front) result
      ≡ result ++ output_of rs
unfolding records output_of
stdout_loop-records zero id rs front tail result h k l = absurd (omega arith)
stdout_loop-records (suc fuel) id [] front tail result h k l =
    stdout_loop-end (suc fuel) front tail result k ∙ sym (append-nil result)
stdout_loop-records (suc fuel) id ((kind, content) ∷ rs) front tail result (h, hs) k l =
    let first = record_bytes kind id content in
    let back = records id rs ++ tail in
    let gained = if kind == 6 then result ++ content else result in
    ap (λ input. stdout_loop (suc fuel) (front ++ input) (length front) result)
      (append_assoc first (records id rs) tail)
    ∙ stdout_loop-record fuel kind id front content back result h
    ∙ ap (λ input. stdout_loop fuel input (length (front ++ first)) gained)
        (sym (append_assoc front first back))
    ∙ stdout_loop-records fuel id rs (front ++ first) tail gained hs k (omega arith)
    ∙ gathered kind result content (output_of rs)

length-records : (id : ℕ) (rs : List (ℕ × Bytes)) → length rs ≤ length (records id rs)
unfolding records
length-records id [] = omega arith
length-records id ((kind, content) ∷ rs) = omega (
  arith,
  length-records id rs,
  length_past [] kind id content,
  length-append (record_bytes kind id content) (records id rs),
)

-- From records whose contents are shorter than 2^16, with a record that was cut off behind them, the
-- client takes the contents of those of type 6, in order, and drops what they have up to the first
-- blank line.
pub extract_fcgi_stdout-records :
    (id : ℕ) (rs : List (ℕ × Bytes)) (tail : Bytes)
    → All (λ r. length (r.1) < 65536) rs
    → IsCutOff tail
    → extract_fcgi_stdout (records id rs ++ tail) ≡ some (behind_headers (output_of rs))
unfolding extract_fcgi_stdout
extract_fcgi_stdout-records id rs tail h k =
    let input = records id rs ++ tail in
    ap (λ output. some (behind_headers output))
      (stdout_loop-records (suc (length input)) id rs [] tail [] h k
        (omega (arith, length-append (records id rs) tail, length-records id rs)))
