-- ===== src/Vars.antt =====
-- src/sapi/server_vars.rs: the CGI meta-variables of a request, as a vector of pairs in the order in
-- which they were set, with four of them tracked aside.
pub mod Lookup
pub mod Builders
pub mod CStrings
use Prim.Native.String.{String}
use ripht_php_sapi.Prelude.{ℕ, Bool, Option, none, some, List, [], ◌∷◌, ◌++◌, length, if◌then◌else◌}
use ripht_php_sapi.Text.{Str, lit, str_eq}

pub record ServerVars : Type 0 where
  pub cookie : Option Str
  pub vars : List (Str × Str)
  pub content_type : Option Str
  pub query_string : Option Str
  pub request_method : Option Str

-- `ServerVars::new()`; `with_capacity` differs in the capacity of the vector alone.
abbrev pub new_vars : ServerVars
new_vars = record {
  cookie = none;
  vars = [];
  content_type = none;
  query_string = none;
  request_method = none;
}

unfoldable pub track_special : Str → Str → ServerVars → ServerVars
track_special key value s =
    if str_eq key (lit "HTTP_COOKIE")
    then record s { cookie = some value }
    else if str_eq key (lit "CONTENT_TYPE")
    then record s { content_type = some value }
    else if str_eq key (lit "QUERY_STRING")
    then record s { query_string = some value }
    else if str_eq key (lit "REQUEST_METHOD")
    then record s { request_method = some value }
    else s

abbrev pub push_var : Str → Str → ServerVars → ServerVars
push_var key value s = record s { vars = s.vars ++ (key, value) ∷ [] }

unfoldable pub set : Str → Str → ServerVars → ServerVars
unfolding track_special
set key value s = push_var key value (track_special key value s)

unfoldable pub extend : List (Str × Str) → ServerVars → ServerVars
unfolding set
extend [] s = s
extend ((k, v) ∷ rest) s = extend rest (set k v s)

unfoldable pub len : ServerVars → ℕ
len s = length s.vars

abbrev pub get_content_type : ServerVars → Option Str
get_content_type s = s.content_type

abbrev pub get_query_string : ServerVars → Option Str
get_query_string s = s.query_string

abbrev pub get_cookie : ServerVars → Option Str
get_cookie s = s.cookie

abbrev pub get_request_method : ServerVars → Option Str
get_request_method s = s.request_method

abbrev pub into_vec : ServerVars → List (Str × Str)
into_vec s = s.vars
