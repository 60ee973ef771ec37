-- ===== src/Text.antt =====
-- Rust's `String`, `Vec<u8>` and `CString` as lists of numbers, and the methods of the standard
-- library that src/adapters, src/execution and src/sapi call on them.
pub mod Ascii
pub mod Decimal
pub mod FilePath
pub mod Utf8
use Prim.Native.Char.{code}
use Prim.Native.String.{String}
use ripht_php_sapi.Prelude.{
  ℕ, ◌+◌, ◌≤◌, ◌<◌, ◌≡◌, refl, ap, ◌↔◌, ◌⊎◌, Bool, true, false, ◌&&◌, ◌||◌, Option, none, some,
  List, [], ◌∷◌, ◌++◌, arith, ◌==◌, leb, if◌then◌else◌, All, is_empty,
}

-- A `String` or `&str`: its chars, by code point.
abbrev pub Str : Type 0
Str = List ℕ

-- A `Vec<u8>`, `&[u8]` or the content of a `CString`.
abbrev pub Bytes : Type 0
Bytes = List ℕ

-- A literal.
abbrev pub lit : String → Str
lit String.[] = []
lit (String.◌∷◌ c s) = code c ∷ lit s

-- `==` on `&str` and on `&[u8]`.
unfoldable pub str_eq : List ℕ → List ℕ → Bool
str_eq [] [] = true
str_eq (a ∷ s) (b ∷ t) = a == b && str_eq s t
str_eq _ _ = false

pub str_eq_iff : (s t : List ℕ) → (str_eq s t ≡ true) ↔ (s ≡ t)
unfolding str_eq
str_eq_iff [] [] = ground arith
str_eq_iff [] (b ∷ t) = ground arith
str_eq_iff (a ∷ s) [] = ground arith
str_eq_iff (a ∷ s) (b ∷ t) = ground (arith, str_eq_iff s t)

pub str_eq_refl : (s : List ℕ) → str_eq s s ≡ true
str_eq_refl s = (str_eq_iff s s).1 refl

-- Whether a code point or byte occurs.
unfoldable pub contains : List ℕ → ℕ → Bool
contains [] c = false
contains (d ∷ s) c = d == c || contains s c

pub contains-append : (s t : List ℕ) (c : ℕ) → contains (s ++ t) c ≡ (contains s c || contains t c)
unfolding contains
contains-append [] t c = refl
contains-append (d ∷ s) t c = ground (arith, contains-append s t c)

-- `parts.join(sep)` on a vector of strings.
unfoldable pub join : Str → List Str → Str
join sep [] = []
join sep (s ∷ []) = s
join sep (s ∷ t ∷ rest) = s ++ (sep ++ join sep (t ∷ rest))

-- `s.starts_with(prefix)`.
unfoldable pub starts_with : Str → Str → Bool
starts_with s [] = true
starts_with [] (p ∷ prefix) = false
starts_with (c ∷ s) (p ∷ prefix) = c == p && starts_with s prefix
