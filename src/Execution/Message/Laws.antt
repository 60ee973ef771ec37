-- ===== src/Execution/Message/Laws.antt =====
-- The levels and their numbers.
use ripht_php_sapi.Prelude.{◌≡◌, ◌↔◌, true, arith}
use ripht_php_sapi.Prelude.Int.{ℤ, pos, ◌≤ℤ◌}
use ripht_php_sapi.Execution.Message.{
  SyslogLevel, to_i32, from_raw, is_error_or_worse, is_warning_or_worse, level_str,
}

pub from_raw-to_i32 : (l : SyslogLevel) → from_raw (to_i32 l) ≡ l
unfolding from_raw to_i32
from_raw-to_i32 l = ground arith

-- `from_raw` clamps its argument to 0..=7: numbers in the range are kept, others go to the end
-- of the range on their side.
pub record IsClamped (raw level : ℤ) : Type 0 where
  pub lower : pos 0 ≤ℤ level
  pub upper : level ≤ℤ pos 7
  pub inside : pos 0 ≤ℤ raw → raw ≤ℤ pos 7 → level ≡ raw
  pub below : raw ≤ℤ pos 0 → level ≡ pos 0
  pub above : pos 7 ≤ℤ raw → level ≡ pos 7

-- The number of the level that is made from any number is that number, clamped to 0..=7.
to_i32-from_raw-IsClamped : (raw : ℤ) → IsClamped raw (to_i32 (from_raw raw))
unfolding from_raw to_i32
to_i32-from_raw-IsClamped raw = ground arith

-- The two thresholds are tests on the number that PHP reports: at most 3 for an error, at most 4
-- for a warning, whatever the number.
from_raw_thresholds :
    (raw : ℤ)
    → ((is_error_or_worse (from_raw raw) ≡ true) ↔ (raw ≤ℤ pos 3))
      × ((is_warning_or_worse (from_raw raw) ≡ true) ↔ (raw ≤ℤ pos 4))
unfolding from_raw is_error_or_worse is_warning_or_worse
from_raw_thresholds raw = ground arith

-- The printed names tell the levels apart.
pub level_str-injective : (l k : SyslogLevel) → level_str l ≡ level_str k → l ≡ k
unfolding level_str
level_str-injective l k h = ground arith
