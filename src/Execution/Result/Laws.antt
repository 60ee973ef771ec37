-- ===== src/Execution/Result/Laws.antt =====
-- The queries of a result agree with one another.
use ripht_php_sapi.Prelude.{
  ◌≤◌, ◌<◌, ◌≡◌, ◌≢◌, ◌↔◌, ◌⊎◌, refl, ap, Bool, true, false, List, [], ◌∷◌, map, any, keep, find,
  head?, arith, All,
}
use ripht_php_sapi.Text.{Str, str_eq, str_eq_iff}
use ripht_php_sapi.Text.Ascii.{eq_ignore_ascii_case, ascii_lower}
use ripht_php_sapi.Execution.Message.{ExecutionMessage, message_is_error}
use ripht_php_sapi.Execution.Header.{ResponseHeader}
use ripht_php_sapi.Execution.Result.{
  ExecutionResult, has_errors, errors, named, value_of, header_val, header_vals, is_success,
  is_redirect, is_client_error, is_server_error,
}

find-keep :
    (p : ResponseHeader → Bool) (hs : List ResponseHeader)
    → value_of (find p hs) ≡ head? (map (λ (h : ResponseHeader). h.value) (keep p hs))
unfolding find keep
find-keep p [] = refl
find-keep p (h ∷ hs) = ground (arith, find-keep p hs)

-- `header_val` is the first of `header_vals`: both have no value exactly for the same names.
pub header_val-eq-head :
    (r : ExecutionResult) (name : Str) → header_val r name ≡ head? (header_vals r name)
unfolding header_val header_vals
header_val-eq-head r name = find-keep (named name) r.headers

named-ignore_case : (n m : Str) → eq_ignore_ascii_case n m ≡ true → named n ≡ named m
unfolding eq_ignore_ascii_case
named-ignore_case n m h =
    ap {B = ResponseHeader → Bool}
      (λ (t : Str) (k : ResponseHeader). str_eq (map ascii_lower k.name) t)
      ((str_eq_iff (map ascii_lower n) (map ascii_lower m)).0 h)

-- Names that differ only in the case of ASCII letters find the same headers.
header_vals-ignore_case :
    (r : ExecutionResult) (n m : Str)
    → eq_ignore_ascii_case n m ≡ true
    → (header_vals r n ≡ header_vals r m) × (header_val r n ≡ header_val r m)
unfolding header_vals header_val
header_vals-ignore_case r n m h = (
  ap (λ p. map (λ (k : ResponseHeader). k.value) (keep p r.headers)) (named-ignore_case n m h),
  ap (λ p. value_of (find p r.headers)) (named-ignore_case n m h),
)

-- One status belongs to one of the four classes exactly if it lies in 200..600, and to no two.
status_classes :
    (r : ExecutionResult)
    → (((200 ≤ r.status) × (r.status < 600)) ↔ (
        (is_success r ≡ true)
        ⊎ (is_redirect r ≡ true)
        ⊎ (is_client_error r ≡ true)
        ⊎ (is_server_error r ≡ true)))
      × (is_success r ≡ true
          → (is_redirect r ≡ false) × (is_client_error r ≡ false) × (is_server_error r ≡ false))
      × (is_redirect r ≡ true → (is_client_error r ≡ false) × (is_server_error r ≡ false))
      × (is_client_error r ≡ true → is_server_error r ≡ false)
unfolding is_success is_redirect is_client_error is_server_error
status_classes r = ground arith

any-keep :
    (p : ExecutionMessage → Bool) (ms : List ExecutionMessage)
    → (any p ms ≡ true) ↔ (keep p ms ≢ [])
unfolding any keep
any-keep p [] = ground arith
any-keep p (m ∷ ms) = ground (arith, any-keep p ms)

keep-All :
    (p : ExecutionMessage → Bool) (ms : List ExecutionMessage) → All (λ m. p m ≡ true) (keep p ms)
unfolding keep
keep-All p [] = tt
keep-All p (m ∷ ms) = ground (arith, keep-All p ms)

-- `has_errors` holds exactly if `errors` is not empty, and every message of `errors` is an error.
has_errors-errors :
    (r : ExecutionResult)
    → ((has_errors r ≡ true) ↔ (errors r ≢ [])) × All (λ m. message_is_error m ≡ true) (errors r)
unfolding has_errors errors
has_errors-errors r = (any-keep message_is_error r.messages, keep-All message_is_error r.messages)
