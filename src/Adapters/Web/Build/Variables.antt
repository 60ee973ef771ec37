-- ===== src/Adapters/Web/Build/Variables.antt =====
-- The variables of a web request: which part of the request decides each.
use ripht_php_sapi.Prelude.{Bool, true, false, Option, none, some, List, [], ◌∷◌, length, arith}
use ripht_php_sapi.Text.{Str, Bytes, lit}
use ripht_php_sapi.Text.Ascii.{Unicode}
use ripht_php_sapi.Text.Decimal.{decimal}
use ripht_php_sapi.Vars.{ServerVars, set}
use ripht_php_sapi.Vars.Lookup.{IsTracked, set-IsTracked, new_vars-IsTracked}
use ripht_php_sapi.Vars.Builders.{Now, http_header, https, web_defaults}
use ripht_php_sapi.Adapters.Method.{Method}
use ripht_php_sapi.Adapters.Web.{WebRequest}
use ripht_php_sapi.Adapters.Web.Build.{
  request_vars, add_path_info, add_cookies, HeaderLoop, add_header, add_headers, add_content,
  build_vars,
}

https-IsTracked : (enabled : Bool) (s : ServerVars) → IsTracked s → IsTracked (https enabled s)
unfolding https
https-IsTracked true s h = search set-IsTracked
https-IsTracked false s h = search set-IsTracked

web_defaults-IsTracked : (now : Now) → IsTracked (web_defaults now)
unfolding web_defaults
web_defaults-IsTracked now = search (set-IsTracked, new_vars-IsTracked)

request_vars-IsTracked :
    (now : Now) (m : Method) (filename : Str) (r : WebRequest)
    → IsTracked (request_vars now m filename r)
unfolding request_vars
request_vars-IsTracked now m filename r =
    search (https-IsTracked, set-IsTracked, web_defaults-IsTracked) depth 20

add_path_info-IsTracked :
    (o : Option Str) (root : Str) (s : ServerVars)
    → IsTracked s
    → IsTracked (add_path_info o root s)
unfolding add_path_info
add_path_info-IsTracked none root s h = h
add_path_info-IsTracked (some p) root s h = search set-IsTracked

add_cookies-IsTracked :
    (cs : List (Str × Str)) (s : ServerVars) → IsTracked s → IsTracked (add_cookies cs s)
unfolding add_cookies
add_cookies-IsTracked [] s h = h
add_cookies-IsTracked (c ∷ cs) s h = set-IsTracked _ _ s h

add_headers-IsTracked :
    (u : Unicode) (hs : List (Str × Str)) (l : HeaderLoop)
    → IsTracked l.vars
    → IsTracked (add_headers u hs l).vars
unfolding add_headers add_header
add_headers-IsTracked u [] l h = h
add_headers-IsTracked u ((n, v) ∷ hs) l h =
    add_headers-IsTracked u hs _ (unfold http_header in set-IsTracked _ _ l.vars h)

add_content-IsTracked :
    (body : Bytes) (l : HeaderLoop) → IsTracked l.vars → IsTracked (add_content body l)
unfolding add_content
add_content-IsTracked body l h = ground (
  arith,
  set-IsTracked (lit "CONTENT_TYPE") (lit "application/octet-stream") l.vars,
  set-IsTracked (lit "CONTENT_LENGTH") (decimal (length body)) l.vars,
  set-IsTracked (lit "CONTENT_LENGTH") (decimal (length body))
      (set (lit "CONTENT_TYPE") (lit "application/octet-stream") l.vars),
)

-- The tracked fields of a built request are the values of their variables.
pub build_vars-IsTracked :
    (u : Unicode) (now : Now) (m : Method) (filename : Str) (r : WebRequest)
    → IsTracked (build_vars u now m filename r)
unfolding build_vars
build_vars-IsTracked u now m filename r = add_content-IsTracked r.body _ (
    add_headers-IsTracked u r.headers _ (
      add_cookies-IsTracked r.cookies _
        (add_path_info-IsTracked r.path_info _ _ (request_vars-IsTracked now m filename r))))
