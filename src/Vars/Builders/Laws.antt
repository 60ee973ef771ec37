-- ===== src/Vars/Builders/Laws.antt =====
-- Which variables a header can reach.
use ripht_php_sapi.Prelude.{
  ◌≡◌, ap, ◌∙◌, inl, inr, Bool, true, false, ◌||◌, if◌then◌else◌, Bool-cases,
}
use ripht_php_sapi.Text.{Str, lit, str_eq, str_eq_iff, starts_with}
use ripht_php_sapi.Text.Ascii.{Unicode}
use ripht_php_sapi.Vars.{ServerVars}
use ripht_php_sapi.Vars.Lookup.{var, var-set}
use ripht_php_sapi.Vars.Builders.{key_of_upper, header_key, http_header}

-- The variables that are reserved for headers.
unfoldable pub is_header_var : Str → Bool
unfolding str_eq starts_with
is_header_var k =
    str_eq k (lit "CONTENT_TYPE") || str_eq k (lit "CONTENT_LENGTH") || starts_with k (lit "HTTP_")

key_of_upper-is_header_var : (upper : Str) → is_header_var (key_of_upper upper) ≡ true
unfolding is_header_var key_of_upper
key_of_upper-is_header_var upper = elim (Bool-cases (str_eq upper (lit "CONTENT_TYPE"))) [
  | inl e ↦ rw (e, if◌then◌else◌)
  | inr e ↦
      rw (e, if◌then◌else◌)
        (elim (Bool-cases (str_eq upper (lit "CONTENT_LENGTH"))) [
          | inl e' ↦ rw (e', if◌then◌else◌)
          | inr e' ↦ rw (e', if◌then◌else◌)
        ])
]

header_key-is_header_var : (u : Unicode) (name : Str) → is_header_var (header_key u name) ≡ true
unfolding header_key
header_key-is_header_var u name = key_of_upper-is_header_var _

header_key-ne :
    (u : Unicode) (k name : Str) → is_header_var k ≡ false → str_eq (header_key u name) k ≡ false
header_key-ne u k name h = elim (Bool-cases (str_eq (header_key u name) k)) [
  | inl same ↦ cc (
    header_key-is_header_var u name,
    ap is_header_var ((str_eq_iff (header_key u name) k).0 same),
  )
  | inr apart ↦ apart
]

-- A header changes no variable but those reserved for headers, whatever its name.
pub var-http_header :
    (u : Unicode) (k name value : Str) (s : ServerVars)
    → is_header_var k ≡ false
    → var k (http_header u name value s) ≡ var k s
unfolding http_header
var-http_header u k name value s h =
    var-set k (header_key u name) value s ∙ rw (header_key-ne u k name h)
