-- ===== src/Programs/Encoding/RoundTrip.antt =====
-- What `percent_encode` of examples/encoding_gaunlet.rs writes is read back by percent decoding.
use ripht_php_sapi.Prelude.{
  ℕ, ◌+◌, ◌-◌, ◌*◌, ◌/◌, ◌%◌, ◌<◌, ◌≡◌, ◌≢◌, refl, ap, ◌∙◌, ◌⊎◌, inl, inr, true, some, [], ◌∷◌,
  ◌++◌, ◌==◌, ltb, if◌then◌else◌, Bool-cases, All, All-append, arith,
}
use ripht_php_sapi.Text.{Str, Bytes, lit}
use ripht_php_sapi.Text.Utf8.{utf8_char, utf8}
use ripht_php_sapi.Text.Utf8.RoundTrip.{IsChar}
use ripht_php_sapi.Text.Ascii.{Unicode}
use ripht_php_sapi.Vars.Builders.{Now}
use ripht_php_sapi.Vars.Lookup.{var}
use ripht_php_sapi.Adapters.Method.{get}
use ripht_php_sapi.Adapters.Web.Uri.{parse_uri}
use ripht_php_sapi.Adapters.Web.Build.{uri_or_script, build_vars}
use ripht_php_sapi.Adapters.Web.Build.Description.{build_vars-Reads}
use ripht_php_sapi.Programs.Encoding.{
  data_request, is_plain, hex_upper, encode_byte, encode_bytes, percent_encode,
}

abbrev hex_value : ℕ → ℕ
hex_value d = if ltb d 58 then d - 48 else d - 55

-- Percent decoding: a percent sign and two hexadecimal digits are a byte.
unfoldable pub percent_decode : Str → Bytes
percent_decode [] = []
percent_decode (c ∷ []) = c ∷ []
percent_decode (c ∷ d ∷ []) = c ∷ d ∷ []
percent_decode (c ∷ d ∷ e ∷ s) =
    let coded = (16 * hex_value d + hex_value e) ∷ percent_decode s in
    let plain = c ∷ percent_decode (d ∷ e ∷ s) in if c == b'%' then coded else plain

pub percent_decode-plain :
    (c : ℕ) (s : Str) → c ≢ b'%' → percent_decode (c ∷ s) ≡ c ∷ percent_decode s
unfolding percent_decode
percent_decode-plain c [] h = refl
percent_decode-plain c (d ∷ []) h = refl
percent_decode-plain c (d ∷ e ∷ s) h = ground arith

percent_decode-encode_byte :
    (b : ℕ) (s : Str) → b < 256 → percent_decode (encode_byte b ++ s) ≡ b ∷ percent_decode s
unfolding encode_byte percent_decode
percent_decode-encode_byte b s h = elim (Bool-cases (is_plain b)) [
  | inl plain ↦ rw plain (percent_decode-plain b s (ground arith))
  | inr coded ↦ rw coded (ap (λ n. n ∷ percent_decode s) (ground arith))
]

percent_decode-encode_bytes :
    (bs : Bytes) → All (λ b. b < 256) bs → percent_decode (encode_bytes bs) ≡ bs
unfolding encode_bytes
percent_decode-encode_bytes [] h = unfold percent_decode in refl
percent_decode-encode_bytes (b ∷ bs) (h, hs) =
    percent_decode-encode_byte b (encode_bytes bs) h
    ∙ ap (λ l. b ∷ l) (percent_decode-encode_bytes bs hs)

utf8_char_bytes : (c : ℕ) → IsChar c → All (λ b. b < 256) (utf8_char c)
unfolding utf8_char
utf8_char_bytes c h = ground arith

utf8_bytes : (s : Str) → All IsChar s → All (λ b. b < 256) (utf8 s)
unfolding utf8
utf8_bytes [] h = tt
utf8_bytes (c ∷ s) (h, hs) =
    All-append (λ b. b < 256) (utf8_char c) (utf8 s) (utf8_char_bytes c h) (utf8_bytes s hs)

-- A char that stays as it is, or a percent sign.
abbrev pub IsSafe : ℕ → Type 0
IsSafe c = (is_plain c ≡ true) ⊎ (c ≡ b'%')

hex_upper-IsSafe : (d : ℕ) → d < 16 → is_plain (hex_upper d) ≡ true
hex_upper-IsSafe d h = ground arith

encode_byte-IsSafe : (b : ℕ) → b < 256 → All IsSafe (encode_byte b)
unfolding encode_byte
encode_byte-IsSafe b h = elim (Bool-cases (is_plain b)) [
  | inl plain ↦ rw plain (inl plain, tt)
  | inr coded ↦ rw coded (
    inr refl,
    (
      inl (hex_upper-IsSafe (b / 16) (omega arith)),
      (inl (hex_upper-IsSafe (b % 16) (omega arith)), tt),
    ),
  )
]

encode_bytes-IsSafe : (bs : Bytes) → All (λ b. b < 256) bs → All IsSafe (encode_bytes bs)
unfolding encode_bytes
encode_bytes-IsSafe [] h = tt
encode_bytes-IsSafe (b ∷ bs) (h, hs) =
    All-append IsSafe (encode_byte b) (encode_bytes bs) (encode_byte-IsSafe b h)
      (encode_bytes-IsSafe bs hs)

percent_decode-name :
    (s : Str) → percent_decode (lit "data=" ++ s) ≡ lit "data=" ++ percent_decode s
percent_decode-name s =
    percent_decode-plain b'd' (lit "ata=" ++ s) (ground arith)
    ∙ ap (λ l. b'd' ∷ l)
        (percent_decode-plain b'a' (lit "ta=" ++ s) (ground arith)
          ∙ ap (λ l. b'a' ∷ l)
              (percent_decode-plain b't' (lit "a=" ++ s) (ground arith)
                ∙ ap (λ l. b't' ∷ l)
                    (percent_decode-plain b'a' (lit "=" ++ s) (ground arith)
                      ∙ ap (λ l. b'a' ∷ l) (percent_decode-plain b'=' s (ground arith)))))

-- For a text of valid chars: the request of the program that carries it has the query `data=` and the
-- encoded text, which percent decoding turns into `data=` and the UTF-8 of the text; and the encoded
-- text has no other chars than letters, digits, `-`, `_`, `.`, `~` and percent signs.
pub data_request-query :
    (u : Unicode) (now : Now) (script s : Str)
    → All IsChar s
    → (var (lit "QUERY_STRING") (build_vars u now get script (data_request s))
        ≡ some (lit "data=" ++ percent_encode s))
      × (percent_decode (lit "data=" ++ percent_encode s) ≡ lit "data=" ++ utf8 s)
      × All IsSafe (percent_encode s)
unfolding data_request percent_encode uri_or_script parse_uri
data_request-query u now script s h = (
  (build_vars-Reads u now get script (data_request s)).query,
  percent_decode-name (percent_encode s)
      ∙ ap (λ l. lit "data=" ++ l) (percent_decode-encode_bytes (utf8 s) (utf8_bytes s h)),
  encode_bytes-IsSafe (utf8 s) (utf8_bytes s h),
)
