-- ===== src/Vars/Lookup.antt =====
-- What a variable is worth: the value that was set last, as a later registration in PHP's array
-- replaces an earlier one; and the four tracked fields, which say the same.
use ripht_php_sapi.Prelude.{
  ◌≡◌, refl, true, false, Option, none, some, List, [], ◌∷◌, ◌++◌, arith, if◌then◌else◌,
}
use ripht_php_sapi.Text.{Str, lit, str_eq, str_eq_iff}
use ripht_php_sapi.Vars.{ServerVars, new_vars, set, extend}

unfoldable pub last_value {ℓ} : {V : Type ℓ} → Str → List (Str × V) → Option V
last_value k [] = none
last_value k ((j, v) ∷ m) = elim (last_value k m) [
  | some w ↦ some w
  | none ↦ if str_eq j k then some v else none
]

pub last_value-push {ℓ} :
    {V : Type ℓ} (k j : Str) (v : V) (m : List (Str × V))
    → last_value k (m ++ (j, v) ∷ []) ≡ (if str_eq j k then some v else last_value k m)
unfolding last_value
last_value-push k j v [] = ground arith
last_value-push k j v ((i, w) ∷ m) = ground (arith, last_value-push k j v m)

unfoldable pub var : Str → ServerVars → Option Str
unfolding last_value
var k s = last_value k s.vars

-- After a variable is set it has the new value, and every other has the value it had.
pub var-set :
    (k j v : Str) (s : ServerVars) → var k (set j v s) ≡ (if str_eq j k then some v else var k s)
unfolding var set
var-set k j v s = ground (arith, last_value-push k j v s.vars)

-- The tracked fields are the values of their variables.
pub record IsTracked (s : ServerVars) : Type 0 where
  pub cookie : s.cookie ≡ var (lit "HTTP_COOKIE") s
  pub content_type : s.content_type ≡ var (lit "CONTENT_TYPE") s
  pub query_string : s.query_string ≡ var (lit "QUERY_STRING") s
  pub request_method : s.request_method ≡ var (lit "REQUEST_METHOD") s

pub new_vars-IsTracked : IsTracked new_vars
unfolding var
new_vars-IsTracked = record {
  cookie = refl;
  content_type = refl;
  query_string = refl;
  request_method = refl;
}

-- Two names that differ are not both equal to a key.
names_differ : (k a b : Str) → str_eq a b ≡ false → str_eq k a ≡ true → str_eq k b ≡ false
names_differ k a b apart same = rw ((str_eq_iff k a).0 same) apart

module _ (k v : Str) (s : ServerVars) where
  cookie-set : (set k v s).cookie ≡ (if str_eq k (lit "HTTP_COOKIE") then some v else s.cookie)
  unfolding set
  cookie-set = ground arith

  content_type-set :
      (set k v s).content_type ≡ (if str_eq k (lit "CONTENT_TYPE") then some v else s.content_type)
  unfolding set
  content_type-set =
      ground
        (arith, names_differ k (lit "HTTP_COOKIE") (lit "CONTENT_TYPE") (unfold str_eq in refl))

  query_string-set :
      (set k v s).query_string ≡ (if str_eq k (lit "QUERY_STRING") then some v else s.query_string)
  unfolding set
  query_string-set = ground (
    arith,
    names_differ k (lit "HTTP_COOKIE") (lit "QUERY_STRING") (unfold str_eq in refl),
    names_differ k (lit "CONTENT_TYPE") (lit "QUERY_STRING") (unfold str_eq in refl),
  )

  request_method-set :
      (set k v s).request_method
      ≡ (if str_eq k (lit "REQUEST_METHOD") then some v else s.request_method)
  unfolding set
  request_method-set = ground (
    arith,
    names_differ k (lit "HTTP_COOKIE") (lit "REQUEST_METHOD") (unfold str_eq in refl),
    names_differ k (lit "CONTENT_TYPE") (lit "REQUEST_METHOD") (unfold str_eq in refl),
    names_differ k (lit "QUERY_STRING") (lit "REQUEST_METHOD") (unfold str_eq in refl),
  )

  -- Setting any variable keeps the tracked fields in step with the vector.
  pub set-IsTracked : IsTracked s → IsTracked (set k v s)
  set-IsTracked h = record {
    cookie = ground (arith, cookie-set, var-set (lit "HTTP_COOKIE") k v s);
    content_type = ground (arith, content_type-set, var-set (lit "CONTENT_TYPE") k v s);
    query_string = ground (arith, query_string-set, var-set (lit "QUERY_STRING") k v s);
    request_method = ground (arith, request_method-set, var-set (lit "REQUEST_METHOD") k v s);
  }

pub extend-IsTracked :
    (kvs : List (Str × Str)) (s : ServerVars) → IsTracked s → IsTracked (extend kvs s)
unfolding extend
extend-IsTracked [] s h = h
extend-IsTracked ((k, v) ∷ rest) s h = extend-IsTracked rest (set k v s) (set-IsTracked k v s h)
