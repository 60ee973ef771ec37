-- ===== src/Execution/Header.antt =====
-- src/execution/header.rs: a response header, parsed from the bytes of "Name: Value".
pub mod Laws
use ripht_php_sapi.Prelude.{
  ℕ, suc, ◌+◌, Bool, Option, none, some, List, [], ◌∷◌, take, drop, is_empty, ◌==◌, if◌then◌else◌,
}
use ripht_php_sapi.Text.{Str, Bytes}
use ripht_php_sapi.Text.Ascii.{is_ascii_whitespace, trim}
use ripht_php_sapi.Text.Utf8.{from_utf8, from_utf8_lossy}

pub record ResponseHeader : Type 0 where
  pub name : Str
  pub value : Str

-- `memchr::memchr(needle, haystack)` of the crate memchr, which is a parameter.
abbrev pub Memchr : Type 0
Memchr = ℕ → Bytes → Option ℕ

abbrev pub colon : ℕ
colon = b':'

-- The loop that skips the white space after the colon: the bytes from `value_start` on.
unfoldable pub skip_ows : Bytes → Bytes
unfolding is_ascii_whitespace
skip_ows [] = []
skip_ows (b ∷ bs) = let rest = skip_ows bs in if is_ascii_whitespace b then rest else b ∷ bs

-- The strict decoding, or the lossy one where it fails.
unfoldable pub value_string : Bytes → Str
unfolding from_utf8 from_utf8_lossy
value_string bs = elim (from_utf8 bs) [ none ↦ from_utf8_lossy bs | some s ↦ s ]

-- The header of a decoded name, unless nothing is left of the name.
unfoldable pub with_name : Option Str → Str → Option ResponseHeader
unfolding trim
with_name none value = none
with_name (some name) value =
    if is_empty (trim name) then none else some (record { name = trim name; value = value })

unfoldable pub parse_at : ℕ → Bytes → Option ResponseHeader
unfolding with_name value_string skip_ows from_utf8
parse_at colon_pos bytes =
    if colon_pos == 0
    then none
    else with_name (from_utf8 (take colon_pos bytes))
        (value_string (skip_ows (drop (colon_pos + 1) bytes)))

-- `ResponseHeader::parse`.
unfoldable pub parse : Memchr → Bytes → Option ResponseHeader
unfolding parse_at
parse memchr bytes = elim (memchr colon bytes) [ none ↦ none | some pos ↦ parse_at pos bytes ]
