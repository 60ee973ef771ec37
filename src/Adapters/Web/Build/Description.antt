-- ===== src/Adapters/Web/Build/Description.antt =====
-- The variables of a web request describe the request.
use ripht_php_sapi.Prelude.{
  ◌≡◌, refl, ap, ◌∙◌, ◌++◌, subst, Bool, true, false, ◌&&◌, Option, none, some, [], arith,
  if◌then◌else◌, get_or,
}
use ripht_php_sapi.Text.{Str, lit, str_eq}
use ripht_php_sapi.Text.Ascii.{Unicode}
use ripht_php_sapi.Text.Decimal.{decimal}
use ripht_php_sapi.Text.FilePath.{file_name, parent}
use ripht_php_sapi.Vars.{ServerVars, set, new_vars}
use ripht_php_sapi.Vars.Lookup.{var, var-set}
use ripht_php_sapi.Vars.Builders.{Now, https, web_defaults}
use ripht_php_sapi.Vars.Builders.Laws.{is_header_var}
use ripht_php_sapi.Adapters.Method.{Method, as_str}
use ripht_php_sapi.Adapters.Web.{WebRequest}
use ripht_php_sapi.Adapters.Web.Uri.{IsSplit, parse_uri, parse_uri_lem}
use ripht_php_sapi.Adapters.Web.Build.{
  uri_or_script, root_or_parent, request_vars, add_path_info, build_vars,
}
use ripht_php_sapi.Adapters.Web.Build.Forging.{var-build_vars}

-- What a script reads of the request in the variables that the server decides.
pub record Reads (m : Method) (script uri directory : Str) (r : WebRequest) (s : ServerVars)
    : Type 0 where
  pub method : var (lit "REQUEST_METHOD") s ≡ some (as_str m)
  pub request_uri : var (lit "REQUEST_URI") s ≡ some uri
  pub query : var (lit "QUERY_STRING") s ≡ some (get_or (parse_uri uri).1 [])
  pub script_name : var (lit "SCRIPT_NAME") s ≡ some (parse_uri uri).0
  pub php_self : var (lit "PHP_SELF") s ≡ some (parse_uri uri).0
  pub filename : var (lit "SCRIPT_FILENAME") s ≡ some script
  pub root : var (lit "DOCUMENT_ROOT") s ≡ some directory
  pub port : var (lit "SERVER_PORT") s ≡ some (decimal r.server_port)
  pub scheme : var (lit "REQUEST_SCHEME") s ≡ some (if r.https then lit "https" else lit "http")
  pub secure : var (lit "HTTPS") s ≡ (if r.https then some (lit "on") else none)

var-https :
    (k : Str) (enabled : Bool) (s : ServerVars)
    → var k (https enabled s) ≡ (
        if str_eq (lit "REQUEST_SCHEME") k
        then some (if enabled then lit "https" else lit "http")
        else if enabled && str_eq (lit "HTTPS") k
        then some (lit "on")
        else var k s)
unfolding https
var-https k true s =
    var-set k (lit "REQUEST_SCHEME") (lit "https") (set (lit "HTTPS") (lit "on") s)
    ∙ rw (var-set k (lit "HTTPS") (lit "on") s)
var-https k false s = var-set k (lit "REQUEST_SCHEME") (lit "http") s

var-new_vars : (k : Str) → var k new_vars ≡ none
unfolding var
var-new_vars k = refl

var-add_path_info :
    (k : Str) (o : Option Str) (directory : Str) (s : ServerVars)
    → str_eq (lit "PATH_INFO") k ≡ false
    → str_eq (lit "PATH_TRANSLATED") k ≡ false
    → var k (add_path_info o directory s) ≡ var k s
unfolding add_path_info
var-add_path_info k none directory s p q = refl
var-add_path_info k (some info) directory s p q = simp (var-set, p, q)

-- The variables up to `https` describe the request.
request_vars-Reads :
    (now : Now) (m : Method) (script : Str) (r : WebRequest)
    → Reads m script
        (uri_or_script r script)
        (root_or_parent r script)
        r
        (request_vars now m script r)
unfolding request_vars str_eq web_defaults
request_vars-Reads now m script r = record {
  method = simp (var-https, var-set) (ground arith);
  request_uri = simp (var-https, var-set) (ground arith);
  query = simp (var-https, var-set) (ground arith);
  script_name = simp (var-https, var-set) (ground arith);
  php_self = simp (var-https, var-set) (ground arith);
  filename = simp (var-https, var-set) (ground arith);
  root = simp (var-https, var-set) (ground arith);
  port = simp (var-https, var-set) (ground arith);
  scheme = simp (var-https, var-set) (ground arith);
  secure = simp (var-https, var-set, var-new_vars) (ground arith);
}

module _ (u : Unicode) (now : Now) (m : Method) (script : Str) (r : WebRequest) where
  same_var :
      (k : Str)
      → is_header_var k ≡ false
      → str_eq (lit "PATH_INFO") k ≡ false
      → str_eq (lit "PATH_TRANSLATED") k ≡ false
      → var k (build_vars u now m script r) ≡ var k (request_vars now m script r)
  same_var k server p q =
      var-build_vars k server u now m script r ∙ var-add_path_info k r.path_info _ _ p q

  -- The same, whatever the headers and cookies.
  pub build_vars-Reads :
      Reads m script
        (uri_or_script r script)
        (root_or_parent r script)
        r
        (build_vars u now m script r)
  unfolding is_header_var str_eq
  build_vars-Reads =
      let d = request_vars-Reads now m script r in
      record {
        method = same_var (lit "REQUEST_METHOD") refl refl refl ∙ d.method;
        request_uri = same_var (lit "REQUEST_URI") refl refl refl ∙ d.request_uri;
        query = same_var (lit "QUERY_STRING") refl refl refl ∙ d.query;
        script_name = same_var (lit "SCRIPT_NAME") refl refl refl ∙ d.script_name;
        php_self = same_var (lit "PHP_SELF") refl refl refl ∙ d.php_self;
        filename = same_var (lit "SCRIPT_FILENAME") refl refl refl ∙ d.filename;
        root = same_var (lit "DOCUMENT_ROOT") refl refl refl ∙ d.root;
        port = same_var (lit "SERVER_PORT") refl refl refl ∙ d.port;
        scheme = same_var (lit "REQUEST_SCHEME") refl refl refl ∙ d.scheme;
        secure = same_var (lit "HTTPS") refl refl refl ∙ d.secure;
      }

-- The URI that was asked for: the one of the request, or the name of the script.
abbrev pub requested : Option Str → Str → Str
requested (some uri) script = uri
requested none script = lit "/" ++ get_or (file_name script) []

-- The document root: the one of the request, or the directory of the script.
abbrev pub directory : Option Str → Str → Str
directory (some root) script = root
directory none script = get_or (parent script) (lit "/")

-- What a script reads of the request: the URI, its two parts around its first question mark, the
-- method, the script, the document root, the port and the scheme.
pub record Describes (m : Method) (script : Str) (r : WebRequest) (s : ServerVars) : Type 0 where
  pub path : Str
  pub query_text : Option Str
  pub split : IsSplit (requested r.uri script) (path, query_text)
  pub method : var (lit "REQUEST_METHOD") s ≡ some (as_str m)
  pub request_uri : var (lit "REQUEST_URI") s ≡ some (requested r.uri script)
  pub query : var (lit "QUERY_STRING") s ≡ some (get_or query_text [])
  pub script_name : var (lit "SCRIPT_NAME") s ≡ some path
  pub php_self : var (lit "PHP_SELF") s ≡ some path
  pub filename : var (lit "SCRIPT_FILENAME") s ≡ some script
  pub root : var (lit "DOCUMENT_ROOT") s ≡ some (directory r.document_root script)
  pub port : var (lit "SERVER_PORT") s ≡ some (decimal r.server_port)
  pub scheme : var (lit "REQUEST_SCHEME") s ≡ some (if r.https then lit "https" else lit "http")
  pub secure : var (lit "HTTPS") s ≡ (if r.https then some (lit "on") else none)

uri_or_script-requested :
    (o : Option Str) (script : Str) (r : WebRequest)
    → r.uri ≡ o
    → uri_or_script r script ≡ requested o script
unfolding uri_or_script
uri_or_script-requested none script r h = rw h refl
uri_or_script-requested (some uri) script r h = rw h refl

root_or_parent-directory :
    (o : Option Str) (script : Str) (r : WebRequest)
    → r.document_root ≡ o
    → root_or_parent r script ≡ directory o script
unfolding root_or_parent
root_or_parent-directory none script r h = rw h refl
root_or_parent-directory (some root) script r h = rw h refl

-- The variables of a built web request describe the request, whatever its headers and cookies: the
-- URI is the one of the request or the name of the script, the path and the query are its parts
-- around its first question mark, and the document root is the one of the request or the directory of
-- the script.
pub build_vars-Describes :
    (u : Unicode) (now : Now) (m : Method) (script : Str) (r : WebRequest)
    → Describes m script r (build_vars u now m script r)
build_vars-Describes u now m script r =
    let d = build_vars-Reads u now m script r in
    let same = uri_or_script-requested r.uri script r refl in
    record {
      path = (parse_uri (uri_or_script r script)).0;
      query_text = (parse_uri (uri_or_script r script)).1;
      split =
          subst (λ uri. IsSplit uri (parse_uri (uri_or_script r script))) same
            (parse_uri_lem (uri_or_script r script));
      method = d.method;
      request_uri = d.request_uri ∙ ap some same;
      query = d.query;
      script_name = d.script_name;
      php_self = d.php_self;
      filename = d.filename;
      root = d.root ∙ ap some (root_or_parent-directory r.document_root script r refl);
      port = d.port;
      scheme = d.scheme;
      secure = d.secure;
    }
