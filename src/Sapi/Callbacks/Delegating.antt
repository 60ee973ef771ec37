-- ===== src/Sapi/Callbacks/Delegating.antt =====
-- The callbacks of src/sapi/callbacks.rs that answer a constant or hand the call back to PHP, whose
-- default functions are parameters.
use ripht_php_sapi.Prelude.{ℕ, Option}
use ripht_php_sapi.Prelude.Int.{ℤ}
use ripht_php_sapi.Text.{Bytes}
use ripht_php_sapi.Sapi.Callbacks.{success}

unfoldable pub sapi_startup : ℤ
sapi_startup = success

unfoldable pub sapi_shutdown : ℤ
sapi_shutdown = success

unfoldable pub activate : ℤ
activate = success

unfoldable pub deactivate : ℤ
deactivate = success

unfoldable pub default_post_reader : Unit {0}
default_post_reader = tt

-- PHP's default functions on PHP's own state `S`: one fills an array from a text, the other one
-- filters a variable.
module _ {S : Type 0} (php_default_treat_data : ℤ → Option Bytes → S → S)
    (php_default_input_filter : ℤ → Bytes → Bytes → S → ℕ × S) where
  unfoldable pub treat_data : ℤ → Option Bytes → S → S
  treat_data arg text s = php_default_treat_data arg text s

  unfoldable pub input_filter : ℤ → Bytes → Bytes → S → ℕ × S
  input_filter arg var val s = php_default_input_filter arg var val s
