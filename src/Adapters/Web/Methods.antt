-- ===== src/Adapters/Web/Methods.antt =====
-- `WebRequest::get()` and its siblings of src/adapters/web.rs.
use ripht_php_sapi.Adapters.Method.{Method}
use ripht_php_sapi.Adapters.Web.{WebRequest, new_request}

abbrev pub get : WebRequest
get = new_request Method.get

abbrev pub post : WebRequest
post = new_request Method.post

abbrev pub put : WebRequest
put = new_request Method.put

abbrev pub delete : WebRequest
delete = new_request Method.delete

abbrev pub patch : WebRequest
patch = new_request Method.patch

abbrev pub head : WebRequest
head = new_request Method.head

abbrev pub options : WebRequest
options = new_request Method.options
