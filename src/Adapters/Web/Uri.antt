-- ===== src/Adapters/Web/Uri.antt =====
-- `parse_uri` of src/adapters/web.rs.
use ripht_php_sapi.Prelude.{
  ℕ, zero, suc, ◌+◌, ◌≡◌, refl, ◌↔◌, false, Option, none, some, [], ◌∷◌, ◌++◌, take, drop, arith,
  ◌==◌, if◌then◌else◌,
}
use native.Mathlib.Numerals.{add-one}
use ripht_php_sapi.Text.{Str, contains}

-- `uri.find('?')`. A position is counted in chars here and in bytes in Rust; both name the same place.
unfoldable pub find_char : ℕ → Str → Option ℕ
find_char c [] = none
find_char c (d ∷ s) =
    if d == c then some 0 else elim (find_char c s) [ none ↦ none | some i ↦ some (suc i) ]

abbrev pub question : ℕ
question = b'?'

unfoldable pub split_at : Option ℕ → Str → Str × Option Str
split_at (some pos) uri = (take pos uri, some (drop (pos + 1) uri))
split_at none uri = (uri, none)

unfoldable pub parse_uri : Str → Str × Option Str
unfolding find_char split_at
parse_uri uri = split_at (find_char question uri) uri

-- A path and a query, put together again.
abbrev pub joined : Str → Option Str → Str
joined path none = path
joined path (some query) = path ++ question ∷ query

find_char-some :
    (c : ℕ) (s : Str) (i : ℕ)
    → find_char c s ≡ some i
    → (take i s ++ c ∷ drop (suc i) s ≡ s) × (contains (take i s) c ≡ false)
unfolding find_char contains
find_char-some c [] i h = absurd (cc h)
find_char-some c (d ∷ s) zero h = ground arith
find_char-some c (d ∷ s) (suc i) h = ground (arith, find_char-some c s i)

find_char-none : (c : ℕ) (s : Str) → (find_char c s ≡ none) ↔ (contains s c ≡ false)
unfolding find_char contains
find_char-none c [] = ground arith
find_char-none c (d ∷ s) = ground (arith, find_char-none c s)

-- A path and a query that are the URI, cut at its first question mark.
abbrev pub IsSplit : Str → Str × Option Str → Type 0
IsSplit uri (path, query) =
    (joined path query ≡ uri)
    × (contains path question ≡ false)
    × ((query ≡ none) ↔ (contains uri question ≡ false))

parse_uri_at :
    (uri : Str) (o : Option ℕ) → find_char question uri ≡ o → IsSplit uri (split_at o uri)
unfolding split_at
parse_uri_at uri none h =
    (refl, (find_char-none question uri).0 h, ground (arith, find_char-none question uri))
parse_uri_at uri (some i) h =
    let (whole, plain) = find_char-some question uri i h in
    rw add-one (whole, plain, ground (arith, find_char-none question uri))

-- The path has no question mark, and the parts put together are the URI: the URI is cut at its first
-- question mark, and there is a query exactly if there is one.
pub parse_uri_lem :
    (uri : Str)
    → (joined (parse_uri uri).0 (parse_uri uri).1 ≡ uri)
      × (contains (parse_uri uri).0 question ≡ false)
      × (((parse_uri uri).1 ≡ none) ↔ (contains uri question ≡ false))
unfolding parse_uri
parse_uri_lem uri = parse_uri_at uri (find_char question uri) refl
