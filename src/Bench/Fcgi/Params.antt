-- ===== src/Bench/Fcgi/Params.antt =====
-- `build_fcgi_params` of benches/shared/fpm.rs, and a reader of the name-value pairs of FastCGI.
use Prim.Native.Nat.{bit_or}
use mathlib.Core.Logic.{ite}
use native.Mathlib.Decide.{ℕ_discrete}
use ripht_php_sapi.Prelude.{
  ℕ, zero, suc, ◌+◌, ◌-◌, ◌*◌, ◌/◌, ◌<◌, ◌≤◌, ◌≡◌, ◌≢◌, refl, ap, ◌∙◌, Bool, true, false, Option,
  none, some, List, [], ◌∷◌, ◌++◌, take, drop, length, ltb, if◌then◌else◌, map, All, arith,
  length-append, take-append, drop-append_all,
}
use ripht_php_sapi.Text.{Str, Bytes}
use ripht_php_sapi.Text.Utf8.{utf8}
use ripht_php_sapi.Bench.Fcgi.{byte, put_length, build_fcgi_params, ◌>>=◌}

-- A length in front of other bytes: a byte with the top bit set begins four bytes.
read_long : ℕ → Bytes → Option (ℕ × Bytes)
read_long b (c ∷ d ∷ e ∷ rest) = some (b * 16777216 + c * 65536 + d * 256 + e, rest)
read_long b _ = none

read_length : Bytes → Option (ℕ × Bytes)
unfolding read_long
read_length [] = none
read_length (b ∷ rest) = if ltb b 128 then some (b, rest) else read_long (b - 128) rest

read_bytes : ℕ → Bytes → Option (Bytes × Bytes)
read_bytes n input = if ltb (length input) n then none else some (take n input, drop n input)

read_pair : Bytes → Option ((Bytes × Bytes) × Bytes)
unfolding read_length read_bytes
read_pair input = do
  (m, input1) ← read_length input
  (n, input2) ← read_length input1
  (name, input3) ← read_bytes m input2
  (value, rest) ← read_bytes n input3
  some ((name, value), rest)

-- All pairs; each takes two bytes at least.
read_pairs : ℕ → Bytes → Option (List (Bytes × Bytes))
unfolding read_pair
read_pairs fuel [] = some []
read_pairs zero (b ∷ input) = none
read_pairs (suc fuel) (b ∷ input) = do
  (pair, rest) ← read_pair (b ∷ input)
  pairs ← read_pairs fuel rest
  some (pair ∷ pairs)

unfoldable pub read_fcgi_params : Bytes → Option (List (Bytes × Bytes))
unfolding read_pairs
read_fcgi_params input = read_pairs (length input) input

sets_top_bit_below : ℕ → Bool
unfolding ℕ_discrete
sets_top_bit_below zero = true
sets_top_bit_below (suc n) = ite (ℕ_discrete (bit_or n 0x80) (n + 128)) (sets_top_bit_below n) false

set_top_bit_lem : (n : ℕ) → sets_top_bit_below n ≡ true → (b : ℕ) → b < n → bit_or b 0x80 ≡ b + 128
unfolding sets_top_bit_below
set_top_bit_lem zero e b h = absurd (omega arith)
set_top_bit_lem (suc n) e b h = ground (arith, set_top_bit_lem n (ground arith) b)

set_top_bit : (b : ℕ) → b < 128 → bit_or b 0x80 ≡ b + 128
unfolding sets_top_bit_below
set_top_bit = set_top_bit_lem 128 refl

long_length : (n : ℕ) → n < 2147483648 → bit_or (byte (n / 16777216)) 0x80 ≡ n / 16777216 + 128
long_length n h = ap (λ b. bit_or b 0x80) (omega arith) ∙ set_top_bit (n / 16777216) (omega arith)

read_length-put :
    (n : ℕ) (rest : Bytes) → n < 2147483648 → read_length (put_length n ++ rest) ≡ some (n, rest)
unfolding put_length read_length read_long
read_length-put n rest h = ground (arith, long_length n h)

read_bytes-append : (xs ys : Bytes) → read_bytes (length xs) (xs ++ ys) ≡ some (xs, ys)
unfolding read_bytes
read_bytes-append xs ys =
    ground (arith, length-append xs ys, take-append xs ys, drop-append_all xs ys)

-- A name and a value whose lengths fit in 31 bits.
abbrev pub IsShort : Str × Str → Type 0
IsShort (name, value) = (length (utf8 name) < 2147483648) × (length (utf8 value) < 2147483648)

abbrev pub encoded : Str × Str → Bytes × Bytes
encoded (name, value) = (utf8 name, utf8 value)

read_pair-build :
    (m v rest : Bytes)
    → length m < 2147483648
    → length v < 2147483648
    → read_pair (put_length (length m) ++ (put_length (length v) ++ (m ++ (v ++ rest))))
      ≡ some ((m, v), rest)
unfolding read_pair
read_pair-build m v rest hm hv =
    rw
      (
        read_length-put (length m) (put_length (length v) ++ (m ++ (v ++ rest))) hm,
        read_length-put (length v) (m ++ (v ++ rest)) hv,
        read_bytes-append m (v ++ rest),
        read_bytes-append v rest,
      )
      refl

nothing_to_read : (p : (Bytes × Bytes) × Bytes) → read_pair [] ≢ some p
unfolding read_pair read_length
nothing_to_read p e = cc

read_pairs_step :
    (fuel : ℕ) (input rest : Bytes) (pair : Bytes × Bytes) (pairs : List (Bytes × Bytes))
    → read_pair input ≡ some (pair, rest)
    → read_pairs fuel rest ≡ some pairs
    → read_pairs (suc fuel) input ≡ some (pair ∷ pairs)
unfolding read_pairs
read_pairs_step fuel [] rest pair pairs h k = absurd (nothing_to_read (pair, rest) h)
read_pairs_step fuel (b ∷ input) rest pair pairs h k = rw (h, k) refl

length-put_length : (n : ℕ) → 1 ≤ length (put_length n)
unfolding put_length
length-put_length n = ground arith

read_pairs-nil : (fuel : ℕ) → read_pairs fuel [] ≡ some []
unfolding read_pairs
read_pairs-nil zero = refl
read_pairs-nil (suc fuel) = refl

build_takes :
    (name value : Str) (params : List (Str × Str))
    → suc (length (build_fcgi_params params)) ≤ length (build_fcgi_params ((name, value) ∷ params))
unfolding build_fcgi_params
build_takes name value params =
    let rest = build_fcgi_params params in
    let values = utf8 name ++ (utf8 value ++ rest) in
    let n = put_length (length (utf8 value)) in
    omega (
      arith,
      length-put_length (length (utf8 name)),
      length-append (put_length (length (utf8 name))) (n ++ values),
      length-append n values,
      length-append (utf8 name) (utf8 value ++ rest),
      length-append (utf8 value) rest,
    )

read_pairs-build :
    (fuel : ℕ) (params : List (Str × Str))
    → All IsShort params
    → length (build_fcgi_params params) ≤ fuel
    → read_pairs fuel (build_fcgi_params params) ≡ some (map encoded params)
unfolding build_fcgi_params
read_pairs-build fuel [] h k = read_pairs-nil fuel
read_pairs-build zero ((name, value) ∷ params) h k =
    absurd (omega (arith, build_takes name value params))
read_pairs-build (suc fuel) ((name, value) ∷ params) (h, hs) k =
    read_pairs_step fuel _ (build_fcgi_params params) (encoded (name, value)) (map encoded params)
      (read_pair-build (utf8 name) (utf8 value) (build_fcgi_params params) h.0 h.1)
      (read_pairs-build fuel params hs (omega (arith, build_takes name value params)))

-- Names and values whose lengths are below 2^31 are read back from the encoded parameters, as UTF-8
-- and in order.
pub read_fcgi_params-build_fcgi_params :
    (params : List (Str × Str))
    → All IsShort params
    → read_fcgi_params (build_fcgi_params params) ≡ some (map encoded params)
unfolding read_fcgi_params
read_fcgi_params-build_fcgi_params params h =
    read_pairs-build (length (build_fcgi_params params)) params h (omega arith)
