-- ===== src/Text/Ascii.antt =====
-- Case, trimming and white space: `eq_ignore_ascii_case`, `to_uppercase`, `replace`, `trim`,
-- `is_ascii_whitespace` and `is_control` of Rust's standard library.
use mathlib.Core.List.{reverse}
use ripht_php_sapi.Prelude.{
  ℕ, ◌+◌, ◌-◌, Bool, ◌&&◌, ◌||◌, [], ◌∷◌, ◌++◌, map, ◌==◌, leb, ltb, if◌then◌else◌,
}
use ripht_php_sapi.Text.{Str, str_eq}

-- The case mapping of the chars outside ASCII, which the standard library takes from the Unicode
-- tables that its build generates: a parameter of all that calls `to_uppercase`.
abbrev pub Unicode : Type 0
Unicode = ℕ → Str

unfoldable pub is_ascii_lower : ℕ → Bool
is_ascii_lower c = leb b'a' c && leb c b'z'

unfoldable pub ascii_upper : ℕ → ℕ
unfolding is_ascii_lower
ascii_upper c = if is_ascii_lower c then c - 32 else c

unfoldable pub is_ascii_upper : ℕ → Bool
is_ascii_upper c = leb b'A' c && leb c b'Z'

unfoldable pub ascii_lower : ℕ → ℕ
unfolding is_ascii_upper
ascii_lower c = if is_ascii_upper c then c + 32 else c

-- `a.eq_ignore_ascii_case(b)`.
unfoldable pub eq_ignore_ascii_case : Str → Str → Bool
unfolding ascii_lower
eq_ignore_ascii_case s t = str_eq (map ascii_lower s) (map ascii_lower t)

-- `char::to_uppercase`, and `str::to_uppercase` which maps it over the chars.
unfoldable pub upper_char : Unicode → ℕ → Str
unfolding ascii_upper
upper_char u c = if ltb c 128 then ascii_upper c ∷ [] else u c

unfoldable pub to_uppercase : Unicode → Str → Str
unfolding upper_char
to_uppercase u [] = []
to_uppercase u (c ∷ s) = upper_char u c ++ to_uppercase u s

-- `s.replace('-', "_")`.
unfoldable pub replace_char : ℕ → ℕ → Str → Str
replace_char from to s = map (λ c. if c == from then to else c) s

-- `u8::is_ascii_whitespace`: tab, line feed, form feed, carriage return, space.
unfoldable pub is_ascii_whitespace : ℕ → Bool
is_ascii_whitespace c = c == 32 || c == 9 || c == 10 || c == 12 || c == 13

-- `char::is_whitespace`: the Unicode property White_Space.
unfoldable pub is_whitespace : ℕ → Bool
is_whitespace c =
    c == 32
    || (leb 9 c && leb c 13)
    || c == 0x85
    || c == 0xa0
    || c == 0x1680
    || (leb 0x2000 c && leb c 0x200a)
    || c == 0x2028
    || c == 0x2029
    || c == 0x202f
    || c == 0x205f
    || c == 0x3000

-- `char::is_control`: the Unicode category Cc.
unfoldable pub is_control : ℕ → Bool
is_control c = ltb c 32 || (leb 127 c && leb c 159)

unfoldable pub trim_start : Str → Str
unfolding is_whitespace
trim_start [] = []
trim_start (c ∷ s) = let rest = trim_start s in if is_whitespace c then rest else c ∷ s

-- `s.trim()`.
unfoldable pub trim : Str → Str
unfolding trim_start
trim s = reverse (trim_start (reverse (trim_start s)))
