-- ===== src/Execution/Header/Laws.antt =====
-- What `ResponseHeader::parse` accepts, and the headers that it reads back.
use ripht_php_sapi.Prelude.{
  ℕ, suc, ◌≡◌, ◌≢◌, refl, ◌∙◌, true, false, Option, none, some, List, [], ◌∷◌, ◌++◌, take-append,
  drop, length, arith, ◌==◌, if◌then◌else◌, All,
}
use native.Mathlib.Numerals.{add-one}
use ripht_php_sapi.Text.{Str, Bytes, contains}
use ripht_php_sapi.Text.Ascii.{is_ascii_whitespace, trim}
use ripht_php_sapi.Text.Utf8.{utf8_char, utf8, from_utf8}
use ripht_php_sapi.Text.Utf8.RoundTrip.{IsChar, from_utf8-utf8, contains-utf8}
use ripht_php_sapi.Execution.Header.{
  Memchr, colon, skip_ows, value_string, with_name, parse_at, parse,
}

-- The index of the first occurrence of a byte.
unfoldable pub position : ℕ → Bytes → Option ℕ
position needle [] = none
position needle (b ∷ bs) =
    if b == needle
    then some 0
    else elim (position needle bs) [ none ↦ none | some i ↦ some (suc i) ]

-- What the crate documents of `memchr`: it returns the index of the first occurrence, as
-- `iter().position` does.
abbrev pub IsMemchr : Memchr → Type 0
IsMemchr memchr =
    (needle : ℕ) (haystack : Bytes) → memchr needle haystack ≡ position needle haystack

position-append :
    (n : ℕ) (xs ys : Bytes) → contains xs n ≡ false → position n (xs ++ n ∷ ys) ≡ some (length xs)
unfolding position contains
position-append n [] ys h = ground arith
position-append n (x ∷ xs) ys h = ground (arith, position-append n xs ys)

drop_past {ℓ} :
    {A : Type ℓ} (xs : List A) (y : A) (ys : List A) → drop (suc (length xs)) (xs ++ y ∷ ys) ≡ ys
drop_past [] y ys = refl
drop_past (x ∷ xs) y ys = drop_past xs y ys

-- No ASCII white space at the front.
abbrev pub StartsBare : Str → Type 0
StartsBare [] = Unit
StartsBare (c ∷ s) = is_ascii_whitespace c ≡ false

skip_ows-append :
    (ws bs : Bytes) → All (λ b. is_ascii_whitespace b ≡ true) ws → skip_ows (ws ++ bs) ≡ skip_ows bs
unfolding skip_ows
skip_ows-append [] bs h = refl
skip_ows-append (w ∷ ws) bs (p, h) = rw p (skip_ows-append ws bs h)

skip_ows-utf8 : (v : Str) → StartsBare v → skip_ows (utf8 v) ≡ utf8 v
unfolding skip_ows utf8 utf8_char is_ascii_whitespace
skip_ows-utf8 [] h = refl
skip_ows-utf8 (c ∷ v) h = ground arith

utf8-ne-nil : (s : Str) → s ≢ [] → (length (utf8 s) == 0) ≡ false
unfolding utf8 utf8_char
utf8-ne-nil [] h = absurd (h refl)
utf8-ne-nil (c ∷ s) h = ground arith

value_string-utf8 : (v : Str) → All IsChar v → value_string (utf8 v) ≡ v
unfolding value_string
value_string-utf8 v h = rw (from_utf8-utf8 v h, value_string)

-- A header's text: the name, a colon, white space, the value.
abbrev pub header_line : Str → Bytes → Str → Bytes
header_line name ws value = utf8 name ++ colon ∷ (ws ++ utf8 value)

parse_of_position :
    (memchr : Memchr) (bytes : Bytes) (o : Option ℕ)
    → memchr colon bytes ≡ o
    → parse memchr bytes ≡ elim o [ none ↦ none | some pos ↦ parse_at pos bytes ]
unfolding parse
parse_of_position memchr bytes o h = rw (h, parse)

with_name_trimmed :
    (name value : Str)
    → name ≢ []
    → trim name ≡ name
    → with_name (some name) value ≡ some (record { name = name; value = value })
unfolding with_name
with_name_trimmed [] value filled h = absurd (filled refl)
with_name_trimmed (c ∷ name) value filled h = rw (h, with_name)

parse_at-append :
    (name value : Bytes)
    → (length name == 0) ≡ false
    → parse_at (length name) (name ++ colon ∷ value)
      ≡ with_name (from_utf8 name) (value_string (skip_ows value))
unfolding parse_at
parse_at-append name value h = rw (h, parse_at, take-append, add-one, drop_past)

module _ (memchr : Memchr) (lawful : IsMemchr memchr) where
  -- If memchr finds the first occurrence of a byte, a header that is written as "Name: Value" is read
  -- back: for a name that is not empty, has no colon and no white space at its ends, a value with no
  -- white space in front, and any ASCII white space between the colon and the value.
  pub parse-header_line :
      (name : Str) (ws : Bytes) (value : Str)
      → All IsChar name
      → All IsChar value
      → name ≢ []
      → contains name colon ≡ false
      → trim name ≡ name
      → All (λ b. is_ascii_whitespace b ≡ true) ws
      → StartsBare value
      → parse memchr (header_line name ws value) ≡ some (record { name = name; value = value })
  parse-header_line name ws value hn hv filled plain trimmed blank bare =
      parse_of_position memchr _ (some (length (utf8 name))) (
        lawful _ _
        ∙ position-append colon (utf8 name) _ (contains-utf8 name colon (omega arith) ∙ plain))
      ∙ parse_at-append (utf8 name) (ws ++ utf8 value) (utf8-ne-nil name filled)
      ∙ rw
          (
            skip_ows-append ws (utf8 value) blank,
            skip_ows-utf8 value bare,
            value_string-utf8 value hv,
            from_utf8-utf8 name hn,
          )
          (with_name_trimmed name value filled trimmed)
