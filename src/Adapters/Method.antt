-- ===== src/Adapters/Method.antt =====
-- `Method` of src/adapters/web.rs.
pub mod Laws
use Prim.Native.String.{String}
use ripht_php_sapi.Prelude.{◌++◌, Result, ok, err, if◌then◌else◌, ◌∷◌}
use ripht_php_sapi.Text.{Str, lit, str_eq}
use ripht_php_sapi.Text.Ascii.{Unicode, to_uppercase}

pub data Method : Type 0 where
  get post put delete patch head options : Method

-- The error is the message of the `Err` that `try_from` returns.
unfoldable pub of_upper : Str → Str → Result Str Method
unfolding str_eq
of_upper value upper =
    if str_eq upper (lit "GET")
    then ok get
    else if str_eq upper (lit "POST")
    then ok post
    else if str_eq upper (lit "PUT")
    then ok put
    else if str_eq upper (lit "DELETE")
    then ok delete
    else if str_eq upper (lit "PATCH")
    then ok patch
    else if str_eq upper (lit "HEAD")
    then ok head
    else if str_eq upper (lit "OPTIONS")
    then ok options
    else err (lit "Invalid HTTP method: " ++ value)

unfoldable pub try_from : Unicode → Str → Result Str Method
unfolding of_upper to_uppercase
try_from u value = of_upper value (to_uppercase u value)

unfoldable pub as_str : Method → Str
as_str get = lit "GET"
as_str post = lit "POST"
as_str put = lit "PUT"
as_str delete = lit "DELETE"
as_str patch = lit "PATCH"
as_str head = lit "HEAD"
as_str options = lit "OPTIONS"

-- `TryFrom<String>`.
unfoldable pub try_from_string : Unicode → Str → Result Str Method
unfolding try_from
try_from_string u value = try_from u value

-- `impl Display for Method`.
unfoldable pub display_method : Method → Str
unfolding as_str
display_method m = as_str m
