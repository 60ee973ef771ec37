-- ===== src/Adapters/Web/Http.antt =====
-- The module `http_compat` of src/adapters/web.rs. The crate `http` is a parameter: the parts of a
-- request are its method and URI as texts and its headers, each with the text of its value, where
-- `to_str` answers one.
use ripht_php_sapi.Prelude.{
  ◌≡◌, sym, ap, ◌∙◌, Option, none, some, List, [], ◌∷◌, ◌++◌, append_assoc, append-nil, Result, ok,
  err,
}
use ripht_php_sapi.Text.{Str, Bytes}
use ripht_php_sapi.Text.Ascii.{Unicode}
use ripht_php_sapi.Text.FilePath.{FileSystem}
use ripht_php_sapi.Vars.Builders.{Now}
use ripht_php_sapi.Execution.Context.{ExecutionContext}
use ripht_php_sapi.Adapters.{WebRequestError, invalid_method}
use ripht_php_sapi.Adapters.Method.{Method, try_from}
use ripht_php_sapi.Adapters.Web.{
  WebRequest, default_request, new_request, with_uri, with_header, with_body,
}
use ripht_php_sapi.Adapters.Web.Build.{build}

pub record Parts : Type 0 where
  pub method : Str
  pub uri : Str
  pub headers : List (Str × Option Str)

-- The loop over the headers.
unfoldable pub add_parts : List (Str × Option Str) → WebRequest → WebRequest
unfolding with_header
add_parts [] builder = builder
add_parts ((name, none) ∷ headers) builder = add_parts headers builder
add_parts ((name, some value) ∷ headers) builder =
    add_parts headers (with_header name value builder)

unfoldable pub request_of_parts : Method → Parts → Bytes → WebRequest
unfolding with_uri with_body add_parts
request_of_parts method parts body =
    with_body body (add_parts parts.headers (with_uri parts.uri (new_request method)))

unfoldable pub from_http_parts :
    Unicode → FileSystem → Now → Parts → Bytes → Str → Result WebRequestError ExecutionContext
unfolding try_from request_of_parts build
from_http_parts u fs now parts body script_path = elim (try_from u parts.method) [
  | err e ↦ err (invalid_method parts.method)
  | ok method ↦ build u fs now (request_of_parts method parts body) script_path
]

-- `from_http_request`, whose `into_parts` parts a request from its body.
unfoldable pub from_http_request :
    Unicode → FileSystem → Now → Parts × Bytes → Str → Result WebRequestError ExecutionContext
unfolding from_http_parts
from_http_request u fs now (parts, body) script_path =
    from_http_parts u fs now parts body script_path

-- The headers whose value is a text.
unfoldable pub texts : List (Str × Option Str) → List (Str × Str)
texts [] = []
texts ((name, none) ∷ headers) = texts headers
texts ((name, some value) ∷ headers) = (name, value) ∷ texts headers

add_parts-texts :
    (headers : List (Str × Option Str)) (r : WebRequest)
    → add_parts headers r ≡ record r { headers = r.headers ++ texts headers }
unfolding add_parts texts with_header
add_parts-texts [] r = ap (λ hs. record r { headers = hs }) (sym (append-nil r.headers))
add_parts-texts ((name, none) ∷ headers) r = add_parts-texts headers r
add_parts-texts ((name, some value) ∷ headers) r =
    add_parts-texts headers (with_header name value r)
    ∙ ap (λ hs. record r { headers = hs })
        (append_assoc r.headers ((name, value) ∷ []) (texts headers))

-- The parts of a request make a web request with their method and URI, the headers whose value is a
-- text, in order, and the body; all else is the default.
request_of_parts_lem :
    (method : Method) (parts : Parts) (body : Bytes)
    → request_of_parts method parts body ≡ record default_request {
      method = some method;
      uri = some parts.uri;
      headers = texts parts.headers;
      body = body;
    }
unfolding request_of_parts with_uri with_body
request_of_parts_lem method parts body =
    ap (with_body body) (add_parts-texts parts.headers (with_uri parts.uri (new_request method)))
