-- ===== src/Adapters/Web.antt =====
-- `WebRequest` of src/adapters/web.rs: the builder of HTTP-style requests.
pub mod Methods
pub mod Uri
pub mod Build
pub mod Http
use Prim.Native.String.{String}
use ripht_php_sapi.Prelude.{ℕ, Bool, true, false, Option, none, some, List, [], ◌∷◌, ◌++◌}
use ripht_php_sapi.Text.{Str, Bytes, lit}
use ripht_php_sapi.Adapters.Method.{Method}

pub record WebRequest : Type 0 where
  pub https : Bool
  pub body : Bytes
  pub server_port : ℕ
  pub remote_port : ℕ
  pub uri : Option Str
  pub remote_addr : Str
  pub server_addr : Str
  pub method : Option Method
  pub server_name : Str
  pub server_protocol : Str
  pub path_info : Option Str
  pub headers : List (Str × Str)
  pub cookies : List (Str × Str)
  pub document_root : Option Str
  pub env_vars : List (Str × Str)
  pub ini_overrides : List (Str × Str)

abbrev pub default_request : WebRequest
default_request = record {
  uri = none;
  method = none;
  server_name = lit "localhost";
  server_port = 80;
  server_protocol = lit "HTTP/1.1";
  remote_addr = lit "127.0.0.1";
  remote_port = 0;
  server_addr = lit "127.0.0.1";
  https = false;
  headers = [];
  cookies = [];
  body = [];
  document_root = none;
  path_info = none;
  env_vars = [];
  ini_overrides =
      (lit "log_errors", lit "1")
      ∷ (lit "html_errors", lit "0")
      ∷ (lit "request_order", lit "GP")
      ∷ (lit "display_errors", lit "1")
      ∷ (lit "implicit_flush", lit "0")
      ∷ (lit "variables_order", lit "EGPCS")
      ∷ (lit "output_buffering", lit "4096")
      ∷ [];
}

-- `WebRequest::new(method)`.
abbrev pub new_request : Method → WebRequest
new_request m = record default_request { method = some m }

unfoldable pub with_uri : Str → WebRequest → WebRequest
with_uri uri r = record r { uri = some uri }

unfoldable pub with_header : Str → Str → WebRequest → WebRequest
with_header name value r = record r { headers = r.headers ++ (name, value) ∷ [] }

unfoldable pub with_headers : List (Str × Str) → WebRequest → WebRequest
with_headers kvs r = record r { headers = r.headers ++ kvs }

unfoldable pub with_cookie : Str → Str → WebRequest → WebRequest
with_cookie name value r = record r { cookies = r.cookies ++ (name, value) ∷ [] }

unfoldable pub with_cookies : List (Str × Str) → WebRequest → WebRequest
with_cookies kvs r = record r { cookies = r.cookies ++ kvs }

unfoldable pub with_body : Bytes → WebRequest → WebRequest
with_body bytes r = record r { body = bytes }

unfoldable pub with_content_type : Str → WebRequest → WebRequest
unfolding with_header
with_content_type ct = with_header (lit "Content-Type") ct

unfoldable pub with_raw_cookie_header : Str → WebRequest → WebRequest
unfolding with_header
with_raw_cookie_header cookie_string = with_header (lit "Cookie") cookie_string

unfoldable pub with_server_name : Str → WebRequest → WebRequest
with_server_name name r = record r { server_name = name }

unfoldable pub with_server_port : ℕ → WebRequest → WebRequest
with_server_port port r = record r { server_port = port }

unfoldable pub with_server_protocol : Str → WebRequest → WebRequest
with_server_protocol proto r = record r { server_protocol = proto }

unfoldable pub with_remote_addr : Str → WebRequest → WebRequest
with_remote_addr addr r = record r { remote_addr = addr }

unfoldable pub with_remote_port : ℕ → WebRequest → WebRequest
with_remote_port port r = record r { remote_port = port }

unfoldable pub with_server_addr : Str → WebRequest → WebRequest
with_server_addr addr r = record r { server_addr = addr }

unfoldable pub with_https : Bool → WebRequest → WebRequest
with_https enabled r = record r { https = enabled }

unfoldable pub with_document_root : Str → WebRequest → WebRequest
with_document_root path r = record r { document_root = some path }

unfoldable pub with_path_info : Str → WebRequest → WebRequest
with_path_info path r = record r { path_info = some path }

unfoldable pub with_env : Str → Str → WebRequest → WebRequest
with_env key value r = record r { env_vars = r.env_vars ++ (key, value) ∷ [] }

unfoldable pub with_envs : List (Str × Str) → WebRequest → WebRequest
with_envs kvs r = record r { env_vars = r.env_vars ++ kvs }

unfoldable pub with_ini : Str → Str → WebRequest → WebRequest
with_ini key value r = record r { ini_overrides = r.ini_overrides ++ (key, value) ∷ [] }

unfoldable pub with_ini_overrides : List (Str × Str) → WebRequest → WebRequest
with_ini_overrides kvs r = record r { ini_overrides = r.ini_overrides ++ kvs }
