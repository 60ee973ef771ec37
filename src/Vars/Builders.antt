-- ===== src/Vars/Builders.antt =====
-- The setters of src/sapi/server_vars.rs, each a call of `set` or a chain of them.
pub mod Laws
use ripht_php_sapi.Prelude.{ℕ, Bool, Option, none, some, List, [], ◌∷◌, ◌++◌, if◌then◌else◌}
use ripht_php_sapi.Text.{Str, lit, str_eq}
use ripht_php_sapi.Text.Ascii.{Unicode, to_uppercase, replace_char}
use ripht_php_sapi.Text.Decimal.{decimal}
use ripht_php_sapi.Vars.{ServerVars, new_vars, set}

-- A method call on a builder.
infixl 20 ◌▸◌
abbrev pub ◌▸◌ {ℓ κ} : {A : Type ℓ} {B : Type κ} → A → (A → B) → B
s ▸ f = f s

-- `SystemTime::now()` since the epoch, as the two texts that the program makes of it; zero where
-- the clock is before the epoch.
pub record Now : Type 0 where
  pub secs : ℕ
  pub secs_f64 : Str

abbrev pub request_method : Str → ServerVars → ServerVars
request_method method = set (lit "REQUEST_METHOD") method

abbrev pub request_uri : Str → ServerVars → ServerVars
request_uri uri = set (lit "REQUEST_URI") uri

abbrev pub query_string : Str → ServerVars → ServerVars
query_string qs = set (lit "QUERY_STRING") qs

abbrev pub request_time : Now → ServerVars → ServerVars
request_time now s =
    s ▸ set (lit "REQUEST_TIME") (decimal now.secs) ▸ set (lit "REQUEST_TIME_FLOAT") now.secs_f64

abbrev pub script_filename : Str → ServerVars → ServerVars
script_filename path = set (lit "SCRIPT_FILENAME") path

abbrev pub script_name : Str → ServerVars → ServerVars
script_name name s = s ▸ set (lit "SCRIPT_NAME") name ▸ set (lit "PHP_SELF") name

abbrev pub document_root : Str → ServerVars → ServerVars
document_root path = set (lit "DOCUMENT_ROOT") path

abbrev pub set_empty_document_root : ServerVars → ServerVars
set_empty_document_root = set (lit "DOCUMENT_ROOT") []

abbrev pub path_info : Str → Str → ServerVars → ServerVars
path_info info root s = s ▸ set (lit "PATH_INFO") info ▸ set (lit "PATH_TRANSLATED") (root ++ info)

abbrev pub path_translated : Str → ServerVars → ServerVars
path_translated path = set (lit "PATH_TRANSLATED") path

abbrev pub server_name : Str → ServerVars → ServerVars
server_name name = set (lit "SERVER_NAME") name

abbrev pub server_port : ℕ → ServerVars → ServerVars
server_port port = set (lit "SERVER_PORT") (decimal port)

abbrev pub server_addr : Str → ServerVars → ServerVars
server_addr addr = set (lit "SERVER_ADDR") addr

abbrev pub server_protocol : Str → ServerVars → ServerVars
server_protocol proto = set (lit "SERVER_PROTOCOL") proto

abbrev pub server_software : Str → ServerVars → ServerVars
server_software software = set (lit "SERVER_SOFTWARE") software

abbrev pub gateway_interface : Str → ServerVars → ServerVars
gateway_interface gi = set (lit "GATEWAY_INTERFACE") gi

abbrev pub remote_addr : Str → ServerVars → ServerVars
remote_addr addr = set (lit "REMOTE_ADDR") addr

abbrev pub remote_port : ℕ → ServerVars → ServerVars
remote_port port = set (lit "REMOTE_PORT") (decimal port)

unfoldable pub https : Bool → ServerVars → ServerVars
https enabled s =
    if enabled
    then s ▸ set (lit "HTTPS") (lit "on") ▸ set (lit "REQUEST_SCHEME") (lit "https")
    else s ▸ set (lit "REQUEST_SCHEME") (lit "http")

abbrev pub content_type : Str → ServerVars → ServerVars
content_type ct = set (lit "CONTENT_TYPE") ct

abbrev pub content_length : ℕ → ServerVars → ServerVars
content_length len = set (lit "CONTENT_LENGTH") (decimal len)

abbrev pub cookies : Str → ServerVars → ServerVars
cookies cookie_str = set (lit "HTTP_COOKIE") cookie_str

abbrev pub argc : ℕ → ServerVars → ServerVars
argc count = set (lit "argc") (decimal count)

abbrev pub argv : Str → ServerVars → ServerVars
argv args = set (lit "argv") args

abbrev pub pwd : Str → ServerVars → ServerVars
pwd path = set (lit "PWD") path

-- The `match` of `http_header` on the upper-case name.
unfoldable pub key_of_upper : Str → Str
key_of_upper upper =
    if str_eq upper (lit "CONTENT_TYPE")
    then lit "CONTENT_TYPE"
    else if str_eq upper (lit "CONTENT_LENGTH")
    then lit "CONTENT_LENGTH"
    else lit "HTTP_" ++ upper

-- The name of the variable for a header: upper case, dashes as underscores, `HTTP_` in front of
-- all but two.
unfoldable pub header_key : Unicode → Str → Str
unfolding key_of_upper to_uppercase replace_char
header_key u name = key_of_upper (replace_char b'-' b'_' (to_uppercase u name))

unfoldable pub http_header : Unicode → Str → Str → ServerVars → ServerVars
unfolding header_key
http_header u name value = set (header_key u name) value

unfoldable pub web_defaults : Now → ServerVars
web_defaults now = new_vars ▸ gateway_interface (lit "CGI/1.1") ▸ request_time now

unfoldable pub cli_defaults : Now → ServerVars
cli_defaults now = new_vars ▸ request_time now ▸ set_empty_document_root
