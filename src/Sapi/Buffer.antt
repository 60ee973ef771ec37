-- ===== src/Sapi/Buffer.antt =====
-- The output buffer of src/sapi/server_context.rs: its policy, from the environment, and its growth.
-- A `usize` has 64 bits.
pub mod Growing
use Prim.Native.String.{String}
use ripht_php_sapi.Prelude.{
  ℕ, zero, suc, ◌+◌, ◌-◌, ◌*◌, ◌%◌, min, max, Bool, true, false, ◌&&◌, ◌||◌, Option, none, some,
  List, [], ◌∷◌, ◌++◌, length, leb, ltb, ◌==◌, if◌then◌else◌, get_or,
}
use ripht_php_sapi.Text.{Str, Bytes, lit, str_eq}

abbrev pub usize_mod : ℕ
usize_mod = 18446744073709551616

abbrev pub usize_max : ℕ
usize_max = 18446744073709551615

abbrev pub min_buffer_size : ℕ
min_buffer_size = 4096

abbrev pub default_buffer_size : ℕ
default_buffer_size = 65536

pub data Growth : Type 0 where
  x4 x2 : Growth
  fixed : ℕ → Growth

pub record BufferPolicy : Type 0 where
  pub initial_cap : ℕ
  pub strategy : Growth

-- The digits of a `usize` behind the number read so far; `none` where it does not fit.
parse_digits : ℕ → Str → Option ℕ
parse_digits acc [] = some acc
parse_digits acc (c ∷ s) =
    let next = acc * 10 + (c - b'0') in
    let rest = parse_digits next s in
    if leb b'0' c && (leb c b'9' && leb next usize_max) then rest else none

-- `v.parse::<usize>().ok()`: digits, with a plus sign in front or none.
unfoldable pub parse_usize : Str → Option ℕ
unfolding parse_digits
parse_usize [] = none
parse_usize (c ∷ []) = parse_digits 0 (c ∷ [])
parse_usize (c ∷ d ∷ s) = if c == b'+' then parse_digits 0 (d ∷ s) else parse_digits 0 (c ∷ d ∷ s)

-- `.and_then(parse).filter(|&n| n >= MIN_BUFFER_SIZE)`.
large_enough : Option ℕ → Option ℕ
large_enough none = none
large_enough (some n) = if leb min_buffer_size n then some n else none

initial_cap_of : Option Str → Option ℕ
initial_cap_of none = none
initial_cap_of (some v) = parse_usize v

unfoldable pub strategy_of : Option Str → Growth
unfolding str_eq
strategy_of none = x4
strategy_of (some v) =
    if str_eq v (lit "x2") || str_eq v (lit "X2")
    then x2
    else if str_eq v (lit "fixed32k")
    then fixed 32768
    else x4

-- `buffer_policy`, from the values of `SAPI_INIT_BUF` and `SAPI_BUF_GROWTH`. The program computes it
-- once and keeps it.
unfoldable pub buffer_policy : Option Str → Option Str → BufferPolicy
unfolding large_enough initial_cap_of parse_usize strategy_of
buffer_policy init_buf buf_growth = record {
  initial_cap = get_or (large_enough (initial_cap_of init_buf)) default_buffer_size;
  strategy = strategy_of buf_growth;
}

unfoldable pub saturating_mul : ℕ → ℕ → ℕ
saturating_mul a b = min (a * b) usize_max

unfoldable pub saturating_add : ℕ → ℕ → ℕ
saturating_add a b = min (a + b) usize_max

-- `while cap < required { cap = cap.saturating_add(step) }`, with fuel for the rounds.
unfoldable pub grow_fixed : ℕ → ℕ → ℕ → ℕ → ℕ
unfolding saturating_add
grow_fixed zero step required cap = cap
grow_fixed (suc fuel) step required cap =
    let rest = grow_fixed fuel step required (saturating_add cap step) in
    if ltb cap required then rest else cap

-- The `match` on the strategy: the new capacity, from the actual and the required one.
unfoldable pub new_cap : BufferPolicy → ℕ → ℕ → ℕ
unfolding saturating_mul grow_fixed
new_cap policy actual required = elim policy.strategy [
  | x4 ↦ max (saturating_mul actual 4) ((required + policy.initial_cap) % usize_mod)
  | x2 ↦ max (saturating_mul actual 2) ((required + policy.initial_cap) % usize_mod)
  | fixed step ↦ grow_fixed required step required actual
]

-- `Vec::reserve` of bytes: nothing if there is room, else at least twice the capacity.
unfoldable pub reserve : ℕ → ℕ → ℕ → ℕ
reserve len cap additional =
    if leb (len + additional) cap then cap else max (max (cap * 2) (len + additional)) 8

-- A vector of bytes with its capacity.
pub record Buffer : Type 0 where
  pub content : Bytes
  pub capacity : ℕ

-- The capacity after the explicit growth: for `len` bytes, to hold `required`.
unfoldable pub grow : BufferPolicy → ℕ → ℕ → ℕ → ℕ
unfolding new_cap reserve
grow policy len capacity required =
    if ltb capacity required
    then reserve len capacity (new_cap policy capacity required - len)
    else capacity

-- The part of `write_output` behind the callback; `extend_from_slice` reserves once more.
unfoldable pub append_output : BufferPolicy → Bytes → Buffer → Buffer
unfolding grow
append_output policy bytes buffer =
    let len = length buffer.content in
    let grown = grow policy len buffer.capacity (len + length bytes) in
    record { content = buffer.content ++ bytes; capacity = reserve len grown (length bytes) }
