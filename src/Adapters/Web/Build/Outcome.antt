-- ===== src/Adapters/Web/Build/Outcome.antt =====
-- When a web request is built, and what the context then holds.
use ripht_php_sapi.Prelude.{
  ◌≡◌, ◌≢◌, refl, ◌∙◌, ◌↔◌, true, false, none, some, List, [], ◌∷◌, length, arith, All, Bool-cases,
  Option-cases, inl, inr, ok, err,
}
use ripht_php_sapi.Text.{Str, Bytes, lit, str_eq}
use ripht_php_sapi.Text.Ascii.{Unicode, eq_ignore_ascii_case}
use ripht_php_sapi.Text.Decimal.{decimal}
use ripht_php_sapi.Text.FilePath.{FileSystem}
use ripht_php_sapi.Vars.Lookup.{var, var-set}
use ripht_php_sapi.Vars.Builders.{Now}
use ripht_php_sapi.Execution.Context.{ExecutionContext}
use ripht_php_sapi.Adapters.{WebRequestError, missing_method, invalid_method}
use ripht_php_sapi.Adapters.Method.{Method}
use ripht_php_sapi.Adapters.Web.{WebRequest}
use ripht_php_sapi.Adapters.Web.Build.{
  HeaderLoop, loop_start, add_header, add_headers, add_content, build_vars, canonical, build,
}

-- No header has this name, in any case of ASCII letters.
abbrev pub Lacks : Str → List (Str × Str) → Type 0
Lacks name hs = All (λ h. eq_ignore_ascii_case h.0 name ≡ false) hs

add_headers-content_length :
    (u : Unicode) (hs : List (Str × Str)) (l : HeaderLoop)
    → Lacks (lit "Content-Length") hs
    → (add_headers u hs l).has_content_length ≡ l.has_content_length
unfolding add_headers add_header
add_headers-content_length u [] l h = refl
add_headers-content_length u ((n, v) ∷ hs) l (p, h) =
    add_headers-content_length u hs (add_header u n v l) h ∙ ground arith

add_headers-content_type :
    (u : Unicode) (hs : List (Str × Str)) (l : HeaderLoop)
    → Lacks (lit "Content-Type") hs
    → (add_headers u hs l).has_content_type ≡ l.has_content_type
unfolding add_headers add_header
add_headers-content_type u [] l h = refl
add_headers-content_type u ((n, v) ∷ hs) l (p, h) =
    add_headers-content_type u hs (add_header u n v l) h ∙ ground arith

content_length-add_content :
    (body : Bytes) (l : HeaderLoop)
    → body ≢ []
    → l.has_content_length ≡ false
    → var (lit "CONTENT_LENGTH") (add_content body l) ≡ some (decimal (length body))
unfolding add_content str_eq
content_length-add_content [] l h e = absurd (h refl)
content_length-add_content (b ∷ body) l h e =
    rw e (var-set (lit "CONTENT_LENGTH") (lit "CONTENT_LENGTH") _ _)

content_type-add_content :
    (body : Bytes) (l : HeaderLoop)
    → body ≢ []
    → l.has_content_type ≡ false
    → var (lit "CONTENT_TYPE") (add_content body l) ≡ some (lit "application/octet-stream")
unfolding add_content str_eq
content_type-add_content [] l h e = absurd (h refl)
content_type-add_content (b ∷ body) l h e = elim (Bool-cases l.has_content_length) [
  | inl given ↦ rw (e, given) (simp var-set)
  | inr not_given ↦ rw (e, not_given) (simp var-set)
]

module _ (u : Unicode) (now : Now) (m : Method) (script : Str) (r : WebRequest)
    (filled : r.body ≢ []) where
  -- A request that has a body and no header Content-Length, in any case of letters, announces the
  -- length of its body.
  content_length-build_vars :
      Lacks (lit "Content-Length") r.headers
      → var (lit "CONTENT_LENGTH") (build_vars u now m script r) ≡ some (decimal (length r.body))
  unfolding build_vars
  content_length-build_vars h =
      content_length-add_content r.body (add_headers u r.headers (loop_start now m script r)) filled
        (add_headers-content_length u r.headers (loop_start now m script r) h)

  -- A request that has a body and no header Content-Type, in any case of letters, has the type
  -- application/octet-stream.
  content_type-build_vars :
      Lacks (lit "Content-Type") r.headers
      → var (lit "CONTENT_TYPE") (build_vars u now m script r)
        ≡ some (lit "application/octet-stream")
  unfolding build_vars
  content_type-build_vars h =
      content_type-add_content r.body (add_headers u r.headers (loop_start now m script r)) filled
        (add_headers-content_type u r.headers (loop_start now m script r) h)

-- The context that a request with a method makes of a script.
abbrev pub web_context : Unicode → FileSystem → Now → Method → WebRequest → Str → ExecutionContext
web_context u fs now m r path = record {
  script_path = path;
  server_vars = build_vars u now m (canonical fs path) r;
  input = r.body;
  env_vars = r.env_vars;
  ini_overrides = r.ini_overrides;
  log_to_stderr = false;
}

module _ (u : Unicode) (fs : FileSystem) (now : Now) (r : WebRequest) (path : Str) where
  pub build_of_none : r.method ≡ none → build u fs now r path ≡ err missing_method
  unfolding build
  build_of_none h = rw h

  pub build_of_missing :
      (m : Method)
      → r.method ≡ some m
      → fs.exists path ≡ false
      → build u fs now r path ≡ err (WebRequestError.script_not_found path)
  unfolding build
  build_of_missing m h e = rw (h, e)

  pub build_of_some :
      (m : Method)
      → r.method ≡ some m
      → fs.exists path ≡ true
      → build u fs now r path ≡ ok (web_context u fs now m r path)
  unfolding build
  build_of_some m h e = rw (h, e)

  -- A missing method is reported, before a missing script, exactly if there is no method; a missing
  -- script exactly if there is a method and no such file; and no other error is reported.
  build_errors :
      ((build u fs now r path ≡ err missing_method) ↔ (r.method ≡ none))
      × ((build u fs now r path ≡ err (WebRequestError.script_not_found path))
          ↔ ((r.method ≢ none) × (fs.exists path ≡ false)))
      × ((s : Str) → build u fs now r path ≢ err (invalid_method s))
  build_errors = elim (Option-cases r.method) [
    | inl absent ↦ ground (arith, build_of_none absent)
    | inr (m, present) ↦ elim (Bool-cases (fs.exists path)) [
      | inl there ↦ ground (arith, build_of_some m present there)
      | inr gone ↦ ground (arith, build_of_missing m present gone)
    ]
  ]
