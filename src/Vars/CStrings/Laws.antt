-- ===== src/Vars/CStrings/Laws.antt =====
-- Which variables PHP is given.
use ripht_php_sapi.Prelude.{
  ◌≡◌, refl, Bool, false, not, ◌&&◌, none, some, List, [], ◌∷◌, map, keep, arith, if◌then◌else◌,
  All,
}
use ripht_php_sapi.Text.{Str, Bytes, contains}
use ripht_php_sapi.Text.Utf8.{utf8}
use ripht_php_sapi.Text.Utf8.RoundTrip.{cstring-utf8, contains-utf8}
use ripht_php_sapi.Vars.{ServerVars}
use ripht_php_sapi.Vars.CStrings.{cstring_of, cstring_pair, cstring_pairs, into_cstring_pairs}

abbrev pub no_nul : Str × Str → Bool
no_nul (k, v) = not (contains k 0) && not (contains v 0)

abbrev pub encoded : Str × Str → Bytes × Bytes
encoded (k, v) = (utf8 k, utf8 v)

cstring_pair-eq :
    (k v : Str) → cstring_pair k v ≡ (if no_nul (k, v) then some (encoded (k, v)) else none)
unfolding cstring_pair cstring_of
cstring_pair-eq k v = ground (arith, cstring-utf8 k, cstring-utf8 v)

-- The pairs that become C strings are those with no NUL, in their order and encoded in UTF-8.
pub cstring_pairs-eq-keep :
    (kvs : List (Str × Str)) → cstring_pairs kvs ≡ map encoded (keep no_nul kvs)
unfolding cstring_pairs keep
cstring_pairs-eq-keep [] = refl
cstring_pairs-eq-keep ((k, v) ∷ kvs) =
    ground (arith, cstring_pair-eq k v, cstring_pairs-eq-keep kvs)

encoded-All-no_nul :
    (kvs : List (Str × Str))
    → All (λ p. (contains p.0 0 ≡ false) × (contains p.1 0 ≡ false)) (map encoded (keep no_nul kvs))
unfolding keep
encoded-All-no_nul [] = tt
encoded-All-no_nul ((k, v) ∷ kvs) = ground (
  arith,
  contains-utf8 k 0 (omega arith),
  contains-utf8 v 0 (omega arith),
  encoded-All-no_nul kvs,
)

-- Every variable that PHP is given is the UTF-8 of one that was set, in the same order, and none
-- that is given has a zero byte; exactly those with a NUL in the name or the value are left out.
pub into_cstring_pairs-vars :
    (s : ServerVars)
    → ((into_cstring_pairs s).vars ≡ map encoded (keep no_nul s.vars))
      × All (λ p. (contains p.0 0 ≡ false) × (contains p.1 0 ≡ false)) (into_cstring_pairs s).vars
unfolding into_cstring_pairs
into_cstring_pairs-vars s =
    (cstring_pairs-eq-keep s.vars, rw cstring_pairs-eq-keep (encoded-All-no_nul s.vars))
