-- ===== src/Vars/CStrings.antt =====
-- `into_cstring_pairs` of src/sapi/server_vars.rs: the variables as C strings, for PHP. A pair with
-- a NUL in its name or value has no C string and is dropped.
pub mod Laws
use Prim.Native.String.{String}
use ripht_php_sapi.Prelude.{Option, none, some, List, [], ◌∷◌}
use ripht_php_sapi.Text.{Str, Bytes, lit}
use ripht_php_sapi.Text.Utf8.{utf8, cstring}
use ripht_php_sapi.Vars.{ServerVars}

pub record ServerVarsCString : Type 0 where
  pub vars : List (Bytes × Bytes)
  pub content_type : Option Bytes
  pub query_string : Option Bytes
  pub cookie : Option Bytes
  pub request_method : Option Bytes

-- `CString::new(s).ok()` on a string.
unfoldable pub cstring_of : Str → Option Bytes
unfolding utf8 cstring
cstring_of s = cstring (utf8 s)

infixl 5 ◌>>=◌
abbrev pub ◌>>=◌ {ℓ κ} : {A : Type ℓ} {B : Type κ} → Option A → (A → Option B) → Option B
none >>= k = none
some a >>= k = k a

-- The closure of the `filter_map`.
unfoldable pub cstring_pair : Str → Str → Option (Bytes × Bytes)
unfolding cstring_of
cstring_pair k v = do some ((← cstring_of k), (← cstring_of v))

unfoldable pub cstring_pairs : List (Str × Str) → List (Bytes × Bytes)
unfolding cstring_pair
cstring_pairs [] = []
cstring_pairs ((k, v) ∷ rest) = elim (cstring_pair k v) [
  | none ↦ cstring_pairs rest
  | some p ↦ p ∷ cstring_pairs rest
]

unfoldable pub into_cstring_pairs : ServerVars → ServerVarsCString
unfolding cstring_pairs
into_cstring_pairs s = record {
  vars = cstring_pairs s.vars;
  content_type = s.content_type >>= cstring_of;
  query_string = s.query_string >>= cstring_of;
  cookie = s.cookie >>= cstring_of;
  request_method = s.request_method >>= cstring_of;
}

-- A `*const c_char` in PHP's globals: null, a string of the program's static data, or the content of
-- a C string that the current server context owns.
pub data CPtr : Type 0 where
  null : CPtr
  static : Bytes → CPtr
  owned : Bytes → CPtr

abbrev ptr_or : CPtr → Option Bytes → CPtr
ptr_or d none = d
ptr_or d (some bs) = owned bs

unfoldable pub content_type_ptr : ServerVarsCString → CPtr
content_type_ptr v = ptr_or null v.content_type

unfoldable pub query_string_ptr : ServerVarsCString → CPtr
query_string_ptr v = ptr_or null v.query_string

unfoldable pub cookie_ptr : ServerVarsCString → CPtr
cookie_ptr v = ptr_or null v.cookie

unfoldable pub request_method_ptr : ServerVarsCString → CPtr
request_method_ptr v = ptr_or (static (lit "GET")) v.request_method
