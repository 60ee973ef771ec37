-- ===== src/Programs/Sessions/Cookies.antt =====
-- The cookie that examples/session_handling.rs hands on from the first response to the second request.
use ripht_php_sapi.Prelude.{if◌then◌else◌}
use ripht_php_sapi.Text.{Str, contains}
use ripht_php_sapi.Text.Utf8.{utf8}
use ripht_php_sapi.Vars.CStrings.{CPtr, owned}
use ripht_php_sapi.Sapi.State.{Sapi}
use ripht_php_sapi.Adapters.Web.Methods

-- The C string of a text; a text with a NUL has none.
abbrev pub pointer_to : Str → CPtr
pointer_to s = if contains s 0 then CPtr.null else owned (utf8 s)
