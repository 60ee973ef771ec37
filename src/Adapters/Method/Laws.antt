-- ===== src/Adapters/Method/Laws.antt =====
-- Methods and their names.
use ripht_php_sapi.Prelude.{◌≡◌, refl, ◌↔◌, arith, ok, ap, ◌∙◌}
use ripht_php_sapi.Text.{Str, lit, str_eq, str_eq_iff}
use ripht_php_sapi.Text.Ascii.{Unicode, to_uppercase}
use ripht_php_sapi.Adapters.Method.{Method, get, of_upper, try_from, as_str}

of_upper-as_str : (value : Str) (m : Method) → of_upper value (as_str m) ≡ ok m
unfolding of_upper as_str str_eq
of_upper-as_str value get = refl
of_upper-as_str value _ = refl

as_str-of_upper : (value upper : Str) (m : Method) → of_upper value upper ≡ ok m → upper ≡ as_str m
unfolding of_upper as_str
as_str-of_upper value upper m h = ground (
  arith,
  str_eq_iff upper (lit "GET"),
  str_eq_iff upper (lit "POST"),
  str_eq_iff upper (lit "PUT"),
  str_eq_iff upper (lit "DELETE"),
  str_eq_iff upper (lit "PATCH"),
  str_eq_iff upper (lit "HEAD"),
  str_eq_iff upper (lit "OPTIONS"),
)

-- A text is read as a method exactly if its upper case is the method's name.
try_from-eq-ok_iff :
    (u : Unicode) (value : Str) (m : Method)
    → (try_from u value ≡ ok m) ↔ (to_uppercase u value ≡ as_str m)
unfolding try_from
try_from-eq-ok_iff u value m = (
  as_str-of_upper value (to_uppercase u value) m,
  λ e. ap (of_upper value) e ∙ of_upper-as_str value m,
)

upper-as_str : (u : Unicode) (m : Method) → to_uppercase u (as_str m) ≡ as_str m
unfolding to_uppercase as_str
upper-as_str u get = refl
upper-as_str u _ = refl

-- Printing a method and reading the text gives the method.
pub try_from-as_str : (u : Unicode) (m : Method) → try_from u (as_str m) ≡ ok m
try_from-as_str u m = (try_from-eq-ok_iff u (as_str m) m).1 (upper-as_str u m)
