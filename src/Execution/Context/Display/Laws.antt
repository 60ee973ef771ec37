-- ===== src/Execution/Context/Display/Laws.antt =====
-- Which values can be printed, and which make `Display` panic.
use ripht_php_sapi.Prelude.{
  ℕ, zero, suc, subst, take, ◌+◌, ◌≤◌, ◌<◌, ◌≡◌, refl, ap, ◌∙◌, Option, none, some, [], ◌∷◌, ◌++◌,
  length, length-append, arith, ltb, if◌then◌else◌, All, Bool-cases, inl, inr,
}
use ripht_php_sapi.Text.{Str, lit}
use ripht_php_sapi.Text.Utf8.{utf8_char, utf8}
use ripht_php_sapi.Execution.Context.Display.{
  escape_char, escape_control_chars, slice_to, shown_value, append_dots,
}

-- Printable ASCII.
abbrev pub IsPlain : ℕ → Type 0
IsPlain c = (32 ≤ c) × (c < 127)

escape_char-plain : (c : ℕ) → IsPlain c → escape_char c ≡ c ∷ []
unfolding escape_char
escape_char-plain c h = ground arith

escape_char-wide : (c : ℕ) → 160 ≤ c → escape_char c ≡ c ∷ []
unfolding escape_char
escape_char-wide c h = ground arith

escape-plain-append :
    (s t : Str) → All IsPlain s → escape_control_chars (s ++ t) ≡ s ++ escape_control_chars t
unfolding escape_control_chars
escape-plain-append [] t h = refl
escape-plain-append (c ∷ s) t (p, h) = rw (escape_char-plain c p, escape-plain-append s t h)

length-escape_char : (c : ℕ) → 1 ≤ length (escape_char c)
unfolding escape_char
length-escape_char c = ground arith

length-le-escape : (s : Str) → length s ≤ length (escape_control_chars s)
unfolding escape_control_chars
length-le-escape [] = omega arith
length-le-escape (c ∷ s) = omega (
  arith,
  length-append (escape_char c) (escape_control_chars s),
  length-escape_char c,
  length-le-escape s,
)

length-utf8_char : (c : ℕ) → (1 ≤ length (utf8_char c)) × (length (utf8_char c) ≤ 4)
unfolding utf8_char
length-utf8_char c = ground arith

length-utf8_char_wide : (c : ℕ) → 128 ≤ c → 2 ≤ length (utf8_char c)
unfolding utf8_char
length-utf8_char_wide c h = ground arith

length-le-utf8 : (s : Str) → length s ≤ length (utf8 s)
unfolding utf8
length-le-utf8 [] = omega arith
length-le-utf8 (c ∷ s) =
    omega (arith, length-append (utf8_char c) (utf8 s), length-utf8_char c, length-le-utf8 s)

length-utf8_plain :
    (s t : Str) → All IsPlain s → length (utf8 (s ++ t)) ≡ length s + length (utf8 t)
unfolding utf8 utf8_char
length-utf8_plain [] t h = omega arith
length-utf8_plain (c ∷ s) t (p, h) = ground (arith, length-utf8_plain s t h)

utf8-plain : (s : Str) → All IsPlain s → length (utf8 s) ≡ length s
unfolding utf8 utf8_char
utf8-plain [] h = refl
utf8-plain (c ∷ s) (p, h) = ground (arith, utf8-plain s h)

length-utf8_wide : (c : ℕ) (t : Str) → 128 ≤ c → 2 + length t ≤ length (utf8 (c ∷ t))
unfolding utf8
length-utf8_wide c t h =
    omega (arith, length-append (utf8_char c) (utf8 t), length-utf8_char_wide c h, length-le-utf8 t)

escape-wide :
    (c : ℕ) (t : Str) → 160 ≤ c → escape_control_chars (c ∷ t) ≡ c ∷ escape_control_chars t
unfolding escape_control_chars
escape-wide c t h = rw (escape_char-wide c h)

slice_to-inside :
    (s : Str) (c : ℕ) (rest : Str)
    → All IsPlain s
    → 128 ≤ c
    → slice_to (s ++ c ∷ rest) (length s + 1) ≡ none
unfolding slice_to
slice_to-inside [] c rest h k = ground arith
slice_to-inside (d ∷ s) c rest (p, h) k = ground (arith, slice_to-inside s c rest h k)

slice_to-plain : (s : Str) (n : ℕ) → All IsPlain s → n ≤ length s → slice_to s n ≡ some (take n s)
unfolding slice_to utf8_char
slice_to-plain [] zero h k = refl
slice_to-plain [] (suc n) h k = absurd (omega arith)
slice_to-plain (c ∷ s) zero h k = refl
slice_to-plain (c ∷ s) (suc n) (p, h) k = ground (arith, slice_to-plain s n h)

-- `shown_value` by the escaped text.
shown_value_of_long :
    (value e : Str) (o : Option Str)
    → escape_control_chars value ≡ e
    → 60 < length (utf8 e)
    → slice_to e 57 ≡ o
    → shown_value value ≡ append_dots o
unfolding shown_value
shown_value_of_long value e o esc long cut = rw esc (rw cut (ground arith))

shown_value_of_short :
    (value e : Str)
    → escape_control_chars value ≡ e
    → length (utf8 e) ≤ 60
    → shown_value value ≡ some e
unfolding shown_value
shown_value_of_short value e esc short = rw esc (ground arith)

escape-plain : (s : Str) → All IsPlain s → escape_control_chars s ≡ s
unfolding escape_control_chars
escape-plain [] h = refl
escape-plain (c ∷ s) (p, h) = rw (escape_char-plain c p, escape-plain s h)

-- A value of printable ASCII is printed: whole up to 60 chars, else its first 57 and three dots.
shown_value-plain :
    (v : Str)
    → All IsPlain v
    → shown_value v ≡ some (if ltb 60 (length v) then take 57 v ++ lit "..." else v)
shown_value-plain v h = elim (Bool-cases (ltb 60 (length v))) [
  | inl long ↦ rw long (
      shown_value_of_long v v (some (take 57 v)) (escape-plain v h)
        (ground (arith, length-le-utf8 v)) (slice_to-plain v 57 h (ground arith)))
  | inr short ↦
      rw short (shown_value_of_short v v (escape-plain v h) (ground (arith, utf8-plain v h)))
]

-- A value of 56 printable ASCII chars, a char from U+00A0 on and three chars or more behind it cannot
-- be printed: the cut at byte 57 falls inside that char.
pub shown_value-panics :
    (s : Str) (c : ℕ) (rest : Str)
    → All IsPlain s
    → length s ≡ 56
    → 160 ≤ c
    → 3 ≤ length rest
    → shown_value (s ++ c ∷ rest) ≡ none
shown_value-panics s c rest h k w long =
    shown_value_of_long (s ++ c ∷ rest) (s ++ c ∷ escape_control_chars rest) none
      (escape-plain-append s (c ∷ rest) h ∙ ap (λ t. s ++ t) (escape-wide c rest w))
      (omega (
        arith,
        length-utf8_plain s (c ∷ escape_control_chars rest) h,
        length-utf8_wide c (escape_control_chars rest) (omega arith),
        length-le-escape rest,
      ))
      (subst (λ n. slice_to (s ++ c ∷ escape_control_chars rest) n ≡ none) (omega (arith, k))
        (slice_to-inside s c (escape_control_chars rest) h (omega arith)))
