-- ===== src/Adapters/Web/Build.antt =====
-- `WebRequest::build` of src/adapters/web.rs.
pub mod Variables
pub mod Outcome
pub mod Forging
pub mod Description
use ripht_php_sapi.Prelude.{
  Bool, false, not, ◌&&◌, ◌||◌, Option, none, some, List, [], ◌∷◌, ◌++◌, map, length, is_empty,
  if◌then◌else◌, get_or, Result, ok, err,
}
use ripht_php_sapi.Text.{Str, Bytes, lit, join}
use ripht_php_sapi.Text.Ascii.{Unicode, eq_ignore_ascii_case}
use ripht_php_sapi.Text.FilePath.{FileSystem, file_name, parent}
use ripht_php_sapi.Vars.{ServerVars}
use ripht_php_sapi.Vars.Builders.{
  Now, ◌▸◌, request_method, request_uri, query_string, script_filename, script_name, document_root,
  server_name, server_port, server_addr, remote_addr, remote_port, server_protocol, https,
  path_info, cookies, http_header, content_type, content_length, web_defaults,
}
use ripht_php_sapi.Execution.Context.{ExecutionContext}
use ripht_php_sapi.Adapters.{WebRequestError, missing_method}
use ripht_php_sapi.Adapters.Method.{Method, as_str}
use ripht_php_sapi.Adapters.Web.{WebRequest}
use ripht_php_sapi.Adapters.Web.Uri.{parse_uri}

-- The URI, or the script's own name.
unfoldable pub uri_or_script : WebRequest → Str → Str
unfolding file_name
uri_or_script r filename = get_or r.uri (lit "/" ++ get_or (file_name filename) [])

unfoldable pub root_or_parent : WebRequest → Str → Str
unfolding parent
root_or_parent r filename = get_or r.document_root (get_or (parent filename) (lit "/"))

-- The variables up to `https`, from the URI and the document root.
unfoldable pub request_vars : Now → Method → Str → WebRequest → ServerVars
unfolding web_defaults parse_uri https as_str uri_or_script root_or_parent
request_vars now m filename r =
    let uri = uri_or_script r filename in
    web_defaults now
    ▸ request_method (as_str m)
    ▸ request_uri uri
    ▸ query_string (get_or (parse_uri uri).1 [])
    ▸ script_filename filename
    ▸ script_name (parse_uri uri).0
    ▸ document_root (root_or_parent r filename)
    ▸ server_name r.server_name
    ▸ server_port r.server_port
    ▸ server_addr r.server_addr
    ▸ remote_addr r.remote_addr
    ▸ remote_port r.remote_port
    ▸ server_protocol r.server_protocol
    ▸ https r.https

unfoldable pub add_path_info : Option Str → Str → ServerVars → ServerVars
add_path_info none root s = s
add_path_info (some info) root s = path_info info root s

-- `format!("{}={}", k, v)`.
abbrev pub cookie_pair : Str × Str → Str
cookie_pair (k, v) = k ++ (lit "=" ++ v)

unfoldable pub add_cookies : List (Str × Str) → ServerVars → ServerVars
unfolding join
add_cookies cs s = if not (is_empty cs) then cookies (join (lit "; ") (map cookie_pair cs)) s else s

-- The loop over the headers: whether the type and the length of the content were given, and the
-- variables.
pub record HeaderLoop : Type 0 where
  pub has_content_type : Bool
  pub has_content_length : Bool
  pub vars : ServerVars

unfoldable pub add_header : Unicode → Str → Str → HeaderLoop → HeaderLoop
unfolding eq_ignore_ascii_case http_header
add_header u name value l =
    let is_type = eq_ignore_ascii_case name (lit "Content-Type") in
    let is_length = eq_ignore_ascii_case name (lit "Content-Length") in
    record {
      has_content_type = l.has_content_type || is_type;
      has_content_length = l.has_content_length || (not is_type && is_length);
      vars = http_header u name value l.vars;
    }

unfoldable pub add_headers : Unicode → List (Str × Str) → HeaderLoop → HeaderLoop
unfolding add_header
add_headers u [] l = l
add_headers u ((name, value) ∷ rest) l = add_headers u rest (add_header u name value l)

-- The variables that describe the body, where no header did.
unfoldable pub add_content : Bytes → HeaderLoop → ServerVars
add_content body l =
    let typed =
      if not l.has_content_type && not (is_empty body)
      then content_type (lit "application/octet-stream") l.vars
      else l.vars in
    if not l.has_content_length && not (is_empty body)
    then content_length (length body) typed
    else typed

-- The state in front of the loop over the headers.
unfoldable pub loop_start : Now → Method → Str → WebRequest → HeaderLoop
unfolding request_vars add_path_info add_cookies
loop_start now m filename r = record {
  has_content_type = false;
  has_content_length = false;
  vars =
      request_vars now m filename r
      ▸ add_path_info r.path_info (root_or_parent r filename)
      ▸ add_cookies r.cookies;
}

-- All the variables of a request.
unfoldable pub build_vars : Unicode → Now → Method → Str → WebRequest → ServerVars
unfolding loop_start add_headers add_content
build_vars u now m filename r =
    add_content r.body (add_headers u r.headers (loop_start now m filename r))

abbrev pub canonical : FileSystem → Str → Str
canonical fs path = get_or (fs.canonicalize path) path

unfoldable pub build :
    Unicode → FileSystem → Now → WebRequest → Str → Result WebRequestError ExecutionContext
unfolding build_vars
build u fs now r script_path = elim r.method [
  | none ↦ err missing_method
  | some m ↦
      if not (fs.exists script_path)
      then err (WebRequestError.script_not_found script_path)
      else ok (record {
        script_path = script_path;
        server_vars = build_vars u now m (canonical fs script_path) r;
        input = r.body;
        env_vars = r.env_vars;
        ini_overrides = r.ini_overrides;
        log_to_stderr = false;
      })
]
