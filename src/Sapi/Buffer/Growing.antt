-- ===== src/Sapi/Buffer/Growing.antt =====
-- The growth of the output buffer is sufficient, and the loop for a fixed step ends.
use ripht_php_sapi.Prelude.{
  ℕ, zero, suc, ◌+◌, ◌-◌, ◌≤◌, ◌<◌, ◌≡◌, ◌⊎◌, refl, Option, none, some, ◌||◌, Bool-cases, inl, inr,
  ◌++◌, length, length-append, arith,
}
use ripht_php_sapi.Text.{Str, Bytes, lit, str_eq}
use ripht_php_sapi.Sapi.Buffer.{
  usize_max, min_buffer_size, Growth, x4, x2, fixed, BufferPolicy, strategy_of, buffer_policy,
  saturating_add, grow_fixed, new_cap, reserve, grow, Buffer, append_output,
}

-- With a positive step, a required capacity that a `usize` holds, and fuel for the distance, the loop ends at a capacity that is enough and
-- exceeds what is required by less than one step, unless the required capacity was there before.
pub grow_fixed_bounds :
    (fuel step required cap : ℕ)
    → 0 < step
    → required ≤ usize_max
    → required ≤ cap + fuel
    → (required ≤ grow_fixed fuel step required cap)
      × (cap ≤ grow_fixed fuel step required cap)
      × ((grow_fixed fuel step required cap < required + step)
          ⊎ (grow_fixed fuel step required cap ≡ cap))
unfolding grow_fixed
grow_fixed_bounds zero step required cap h bounded k = omega arith
grow_fixed_bounds (suc fuel) step required cap h bounded k =
    ground (arith, grow_fixed_bounds fuel step required (saturating_add cap step) h bounded)

-- The growth strategies that the policy chooses: a fixed step is not zero.
abbrev pub IsGrowing : Growth → Type 0
IsGrowing (fixed step) = 0 < step
IsGrowing _ = Unit

strategy_of-IsGrowing : (growth : Option Str) → IsGrowing (strategy_of growth)
unfolding strategy_of
strategy_of-IsGrowing none = tt
strategy_of-IsGrowing (some v) = elim (Bool-cases (str_eq v (lit "x2") || str_eq v (lit "X2"))) [
  | inl doubled ↦ rw doubled tt
  | inr other ↦ elim (Bool-cases (str_eq v (lit "fixed32k"))) [
    | inl stepped ↦ rw other (rw stepped (ground arith))
    | inr free ↦ rw other (rw free tt)
  ]
]

-- Whatever the environment says, the policy does not start below the minimal size, and its strategy
-- grows the buffer.
buffer_policy_bounds :
    (init_buf growth : Option Str)
    → (min_buffer_size ≤ (buffer_policy init_buf growth).initial_cap)
      × IsGrowing (buffer_policy init_buf growth).strategy
unfolding buffer_policy
buffer_policy_bounds init_buf growth = (ground arith, strategy_of-IsGrowing growth)

new_cap-enough_at :
    (init actual required : ℕ) (s : Growth)
    → IsGrowing s
    → required ≤ usize_max
    → required + init ≤ usize_max
    → required ≤ new_cap (record { initial_cap = init; strategy = s }) actual required
unfolding new_cap
new_cap-enough_at init actual required x4 g h fits = ground arith
new_cap-enough_at init actual required x2 g h fits = ground arith
new_cap-enough_at init actual required (fixed step) g h fits =
    (grow_fixed_bounds required step required actual g h (omega arith)).0

-- Every strategy asks for at least the required capacity, where its sums do not overflow.
pub new_cap-enough :
    (policy : BufferPolicy) (actual required : ℕ)
    → IsGrowing policy.strategy
    → required + policy.initial_cap ≤ usize_max
    → required ≤ new_cap policy actual required
new_cap-enough policy actual required g fits =
    new_cap-enough_at policy.initial_cap actual required policy.strategy g (omega arith) fits

reserve_bounds :
    (len cap additional : ℕ)
    → (cap ≤ reserve len cap additional) × (len + additional ≤ reserve len cap additional)
unfolding reserve
reserve_bounds len cap additional = ground arith

reserve_of_room :
    (len cap additional : ℕ) → len + additional ≤ cap → reserve len cap additional ≡ cap
unfolding reserve
reserve_of_room len cap additional h = ground arith

grow_bounds :
    (policy : BufferPolicy) (len capacity required : ℕ)
    → len ≤ required
    → required ≤ new_cap policy capacity required
    → (required ≤ grow policy len capacity required)
      × (capacity ≤ grow policy len capacity required)
unfolding grow
grow_bounds policy len capacity required h enough =
    ground (arith, reserve_bounds len capacity (new_cap policy capacity required - len))

-- With a strategy that grows, and as long as the new length and the initial capacity add up to a
-- `usize`, writing appends the bytes. The capacity that the growth strategy asks for holds the new content,
-- so that the vector does not grow once more by itself, and the capacity never shrinks.
pub append_output_lem :
    (policy : BufferPolicy) (bytes : Bytes) (buffer : Buffer)
    → IsGrowing policy.strategy
    → length buffer.content + length bytes + policy.initial_cap ≤ usize_max
    → ((append_output policy bytes buffer).content ≡ buffer.content ++ bytes)
      × ((append_output policy bytes buffer).capacity
          ≡ grow policy
              (length buffer.content)
              buffer.capacity
              (length buffer.content + length bytes))
      × (length (append_output policy bytes buffer).content
          ≤ (append_output policy bytes buffer).capacity)
      × (buffer.capacity ≤ (append_output policy bytes buffer).capacity)
unfolding append_output
append_output_lem policy bytes buffer g fits =
    let len = length buffer.content in
    let required = len + length bytes in
    let (holds, keeps) =
      grow_bounds policy len buffer.capacity required (omega arith)
        (new_cap-enough policy buffer.capacity required g fits) in
    let stays =
      reserve_of_room len (grow policy len buffer.capacity required) (length bytes) holds in
    (refl, stays, omega (arith, length-append buffer.content bytes, stays), omega (arith, stays))
