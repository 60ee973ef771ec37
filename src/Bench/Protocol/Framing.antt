-- ===== src/Bench/Protocol/Framing.antt =====
-- What `write_message` of benches/shared/protocol.rs wrote is read back by `read_message`.
use ripht_php_sapi.Prelude.{
  ℕ, zero, suc, ◌<◌, ◌≡◌, ap, ◌∙◌, [], ◌++◌, take, length, arith, length-append, length-take,
  take-append, drop-append_all, append_assoc, ok, err,
}
use ripht_php_sapi.Text.{Bytes}
use ripht_php_sapi.Bench.{unexpected_eof, vec}
use ripht_php_sapi.Bench.Protocol.{
  Codec, to_le_bytes, from_le_bytes, as_io, write_message, read_exact, read_payload, behind_length,
  read_message,
}

from_le_bytes-to_le_bytes : (n : ℕ) → n < 4294967296 → from_le_bytes (to_le_bytes n) ≡ n
unfolding from_le_bytes
from_le_bytes-to_le_bytes n h = omega arith

abbrev pub frame : Bytes → Bytes
frame payload = to_le_bytes (length payload) ++ payload

read_exact-append : (xs ys : Bytes) → read_exact (length xs) (xs ++ ys) ≡ (ok xs, ys)
unfolding read_exact
read_exact-append xs ys =
    ground (arith, length-append xs ys, take-append xs ys, drop-append_all xs ys)

read_exact_short : (n : ℕ) (xs : Bytes) → length xs < n → read_exact n xs ≡ (err unexpected_eof, [])
unfolding read_exact
read_exact_short n xs h = ground arith

module _ {A : Type 0} (codec : Codec A) where
  -- The codec encodes a message in less than 2^32 bytes, and decodes it again.
  abbrev pub IsEncodable : A → Type 0
  IsEncodable msg =
      (payload : Bytes) × (codec.to_vec msg ≡ ok payload)
      × (codec.from_slice payload ≡ ok msg)
      × (length payload < 4294967296)

  pub read_message-payload :
      (payload rest : Bytes)
      → length payload < 4294967296
      → read_message codec (frame payload ++ rest) ≡ read_payload codec (ok payload, rest)
  unfolding read_message behind_length
  read_message-payload payload rest h =
      ap (behind_length codec) (read_exact-append (to_le_bytes (length payload)) (payload ++ rest))
      ∙ ap (λ n. read_payload codec (read_exact n (payload ++ rest)))
          (from_le_bytes-to_le_bytes (length payload) h)
      ∙ ap (read_payload codec) (read_exact-append payload rest)

  pub write_message_lem :
      (msg : A) (sent : Bytes) (h : IsEncodable msg)
      → write_message codec vec msg sent ≡ (ok tt, sent ++ frame h.0)
  unfolding write_message
  write_message_lem msg sent (payload, e, d, h) =
      rw e (ap (λ w. (ok tt, w)) (append_assoc sent (to_le_bytes (length payload)) payload))

  pub read_message-frame :
      (msg : A) (rest : Bytes) (h : IsEncodable msg)
      → read_message codec (frame h.0 ++ rest) ≡ (ok msg, rest)
  unfolding read_payload
  read_message-frame msg rest (payload, e, d, h) =
      read_message-payload payload rest h ∙ ap (λ r. (as_io r, rest)) d

  -- A message that the codec encodes in less than 2^32 bytes and decodes again is read back from what
  -- was written of it, and what is behind it stays.
  pub read_message-write_message :
      (msg : A) (rest : Bytes)
      → IsEncodable msg
      → read_message codec ((write_message codec vec msg []).1 ++ rest) ≡ (ok msg, rest)
  read_message-write_message msg rest h =
      ap (λ r. read_message codec (r.1 ++ rest)) (write_message_lem msg [] h)
      ∙ read_message-frame msg rest h

  cut_payload :
      (n : ℕ) (payload : Bytes)
      → length payload < 4294967296
      → n < length payload
      → (read_message codec (to_le_bytes (length payload) ++ take n payload)).0 ≡ err unexpected_eof
  unfolding read_message behind_length read_payload
  cut_payload n payload h k =
      ap (λ r. (behind_length codec r).0)
        (read_exact-append (to_le_bytes (length payload)) (take n payload))
      ∙ ap (λ n'. (read_payload codec (read_exact n' (take n payload))).0)
          (from_le_bytes-to_le_bytes (length payload) h)
      ∙ ap (λ r. (read_payload codec r).0)
          (read_exact_short (length payload) (take n payload)
            (omega (arith, length-take n payload)))

  cut_length :
      (input : Bytes) → length input < 4 → (read_message codec input).0 ≡ err unexpected_eof
  unfolding read_message behind_length
  cut_length input h = ap (λ r. (behind_length codec r).0) (read_exact_short 4 input h)

  -- If a message of less than 2^32 bytes was cut off anywhere, reading it reports the end of the file.
  pub read_message_cut :
      (n : ℕ) (payload : Bytes)
      → length payload < 4294967296
      → n < length (frame payload)
      → (read_message codec (take n (frame payload))).0 ≡ err unexpected_eof
  read_message_cut zero payload h k = cut_length _ (omega arith)
  read_message_cut (suc zero) payload h k = cut_length _ (omega arith)
  read_message_cut (suc (suc zero)) payload h k = cut_length _ (omega arith)
  read_message_cut (suc (suc (suc zero))) payload h k = cut_length _ (omega arith)
  read_message_cut (suc (suc (suc (suc n)))) payload h k = cut_payload n payload h (omega arith)
