-- ===== src/Adapters/Web/Build/Forging.antt =====
-- Headers and cookies cannot forge the variables of a web request that the server decides.
use ripht_php_sapi.Prelude.{
  ◌≡◌, refl, ap, sym, ◌∙◌, true, false, List, [], ◌∷◌, length, arith, Bool-cases, inl, inr,
}
use ripht_php_sapi.Text.{Str, Bytes, lit, str_eq, str_eq_iff}
use ripht_php_sapi.Text.Ascii.{Unicode}
use ripht_php_sapi.Text.Decimal.{decimal}
use ripht_php_sapi.Vars.{ServerVars, set}
use ripht_php_sapi.Vars.Lookup.{var, var-set}
use ripht_php_sapi.Vars.Builders.{Now}
use ripht_php_sapi.Vars.Builders.Laws.{is_header_var, var-http_header}
use ripht_php_sapi.Adapters.Method.{Method}
use ripht_php_sapi.Adapters.Web.{WebRequest}
use ripht_php_sapi.Adapters.Web.Build.{
  uri_or_script, root_or_parent, request_vars, add_path_info, add_cookies, HeaderLoop, add_header,
  add_headers, add_content, build_vars,
}

module _ (k : Str) (server : is_header_var k ≡ false) where
  var-set_header_var :
      (j v : Str) (s : ServerVars) → is_header_var j ≡ true → var k (set j v s) ≡ var k s
  var-set_header_var j v s h = elim (Bool-cases (str_eq j k)) [
    | inl same ↦ absurd (cc (h, server, ap is_header_var ((str_eq_iff j k).0 same)))
    | inr apart ↦ var-set k j v s ∙ rw apart
  ]

  var-add_cookies : (cs : List (Str × Str)) (s : ServerVars) → var k (add_cookies cs s) ≡ var k s
  unfolding add_cookies
  var-add_cookies [] s = refl
  var-add_cookies (c ∷ cs) s =
      var-set_header_var (lit "HTTP_COOKIE") _ s (unfold is_header_var in refl)

  var-add_headers :
      (u : Unicode) (hs : List (Str × Str)) (l : HeaderLoop)
      → var k (add_headers u hs l).vars ≡ var k l.vars
  unfolding add_headers add_header
  var-add_headers u [] l = refl
  var-add_headers u ((n, v) ∷ hs) l =
      var-add_headers u hs (add_header u n v l) ∙ var-http_header u k n v l.vars server

  var-add_content : (body : Bytes) (l : HeaderLoop) → var k (add_content body l) ≡ var k l.vars
  unfolding add_content
  var-add_content body l = ground (
    arith,
    var-set_header_var (lit "CONTENT_TYPE") (lit "application/octet-stream") l.vars
        (unfold is_header_var in refl),
    var-set_header_var (lit "CONTENT_LENGTH") (decimal (length body)) l.vars
        (unfold is_header_var in refl),
    var-set_header_var (lit "CONTENT_LENGTH") (decimal (length body))
        (set (lit "CONTENT_TYPE") (lit "application/octet-stream") l.vars)
        (unfold is_header_var in refl),
  )

  pub var-build_vars :
      (u : Unicode) (now : Now) (m : Method) (filename : Str) (r : WebRequest)
      → var k (build_vars u now m filename r)
        ≡ var k
            (add_path_info r.path_info (root_or_parent r filename) (request_vars now m filename r))
  unfolding build_vars
  var-build_vars u now m filename r =
      var-add_content r.body _ ∙ (var-add_headers u r.headers _ ∙ var-add_cookies r.cookies _)

-- Whatever headers, cookies and body two requests have, if they agree in all else they have the same
-- value of each variable but CONTENT_TYPE, CONTENT_LENGTH and those that start with HTTP_.
pub build_vars_forging :
    (u : Unicode) (now : Now) (m : Method) (filename : Str) (r : WebRequest)
    (hs cs : List (Str × Str)) (body : Bytes) (k : Str)
    → is_header_var k ≡ false
    → var k (build_vars u now m filename (record r { headers = hs; cookies = cs; body = body }))
      ≡ var k (build_vars u now m filename r)
build_vars_forging u now m filename r hs cs body k server =
    var-build_vars k server u now m filename (record r { headers = hs; cookies = cs; body = body })
    ∙ unfold root_or_parent uri_or_script request_vars in
      sym (var-build_vars k server u now m filename r)
