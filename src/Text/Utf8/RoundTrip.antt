-- ===== src/Text/Utf8/RoundTrip.antt =====
-- What is encoded is decoded to the same chars, and where a text holds a zero byte.
use ripht_php_sapi.Prelude.{
  ℕ, ◌<◌, ◌≡◌, refl, ap, ◌⊎◌, ◌∙◌, Option, none, some, List, [], ◌∷◌, ◌++◌, map, arith,
  if◌then◌else◌, get_or, All,
}
use ripht_php_sapi.Text.{Str, Bytes, contains, contains-append}
use ripht_php_sapi.Text.Utf8.{
  utf8_char, utf8, start, first_byte, next_byte, decode, collect, from_utf8, from_utf8_lossy,
  cstring,
}

-- The values of `char`: code points but the surrogates.
abbrev pub IsChar : ℕ → Type 0
IsChar c = (c < 0xd800) ⊎ ((0xdfff < c) × (c < 0x110000))

decode-utf8_char :
    (c : ℕ) (bs : Bytes) → IsChar c → decode start (utf8_char c ++ bs) ≡ some c ∷ decode start bs
unfolding decode next_byte first_byte utf8_char
decode-utf8_char c bs h = ground arith

decode-utf8 : (s : Str) → All IsChar s → decode start (utf8 s) ≡ map some s
unfolding utf8
decode-utf8 [] h = unfold decode in refl
decode-utf8 (c ∷ s) (p, h) =
    decode-utf8_char c (utf8 s) p ∙ ap (λ os. some c ∷ os) (decode-utf8 s h)

collect-map-some : (s : Str) → collect (map some s) ≡ some s
unfolding collect
collect-map-some [] = refl
collect-map-some (c ∷ s) = ground (arith, collect-map-some s)

pub from_utf8-utf8 : (s : Str) → All IsChar s → from_utf8 (utf8 s) ≡ some s
unfolding from_utf8
from_utf8-utf8 s h = ap collect (decode-utf8 s h) ∙ collect-map-some s

lossy-collect :
    (os : List (Option ℕ)) (s : Str) → collect os ≡ some s → map (λ o. get_or o 0xfffd) os ≡ s
unfolding collect
lossy-collect [] s h = ground arith
lossy-collect (none ∷ os) s h = ground arith
lossy-collect (some c ∷ os) [] h = ground arith
lossy-collect (some c ∷ os) (d ∷ s) h = ground (arith, lossy-collect os s)

-- Where the bytes are UTF-8 the lossy decoding is the strict one.
pub from_utf8_lossy_of_valid :
    (bs : Bytes) (s : Str) → from_utf8 bs ≡ some s → from_utf8_lossy bs ≡ s
unfolding from_utf8 from_utf8_lossy
from_utf8_lossy_of_valid bs s h = lossy-collect (decode start bs) s h

contains-utf8_char : (c k : ℕ) → k < 128 → contains (utf8_char c) k ≡ contains (c ∷ []) k
unfolding contains utf8_char
contains-utf8_char c k h = ground arith

-- An ASCII char occurs in a string exactly when its byte occurs in the encoding.
pub contains-utf8 : (s : Str) (k : ℕ) → k < 128 → contains (utf8 s) k ≡ contains s k
unfolding utf8 contains
contains-utf8 [] k h = refl
contains-utf8 (c ∷ s) k h =
    ground
      (arith, contains-append (utf8_char c) (utf8 s) k, contains-utf8_char c k, contains-utf8 s k h)

-- A string becomes a C string exactly when it has no NUL.
pub cstring-utf8 : (s : Str) → cstring (utf8 s) ≡ (if contains s 0 then none else some (utf8 s))
unfolding cstring
cstring-utf8 s = rw (contains-utf8 s 0 (omega arith))
