-- ===== src/Programs/Sessions.antt =====
-- examples/session_handling.rs.
pub mod Cookies
use Prim.Native.String.{String}
use ripht_php_sapi.Prelude.{ℕ, Option, none, some, List, [], ◌∷◌, ◌++◌, find, ◌==◌, if◌then◌else◌}
use ripht_php_sapi.Text.{Str, lit, starts_with}
use ripht_php_sapi.Text.Ascii.{eq_ignore_ascii_case}
use ripht_php_sapi.Text.Decimal.{decimal}
use ripht_php_sapi.Execution.Header.{ResponseHeader}
use ripht_php_sapi.Execution.Result.{ExecutionResult, named, body_string}
use ripht_php_sapi.Adapters.Method.{get}
use ripht_php_sapi.Adapters.Web.{new_request, with_raw_cookie_header}
use ripht_php_sapi.Adapters.Web.Methods
use ripht_php_sapi.Sapi.Instance.{Module}
use ripht_php_sapi.Programs.{
  Place, Program, ◌>>=◌, ◌>>◌, println, eprintln, start, perform, php_script_path,
}

-- `value.split(';').next()`.
unfoldable pub before_semicolon : Str → Str
before_semicolon [] = []
before_semicolon (c ∷ s) = let rest = before_semicolon s in if c == b';' then [] else c ∷ rest

-- The cookie that the first `Set-Cookie` header sets, if it is PHP's session.
unfoldable pub session_of : Option ResponseHeader → Option Str
unfolding starts_with before_semicolon
session_of none = none
session_of (some h) =
    if starts_with h.value (lit "PHPSESSID=") then some (before_semicolon h.value) else none

unfoldable pub session_cookie : ExecutionResult → Option Str
unfolding find eq_ignore_ascii_case session_of
session_cookie result = session_of (find (named (lit "Set-Cookie")) result.headers)

module _ {C : Type 0} (place : Place C) where
  unfoldable pub print_response : Str → ExecutionResult → Program C (Unit {0})
  unfolding decimal body_string
  print_response name result = do
    println (name ++ (lit " request - Status: " ++ decimal result.status))
    println (lit "Response: " ++ body_string result)

  -- The second request, with the cookie of the first response.
  unfoldable pub second : Module → Str → Option Str → Program C (Unit {0})
  unfolding perform with_raw_cookie_header print_response
  second sapi script none = eprintln (lit "No session cookie found in response")
  second sapi script (some cookie_val) = do
    println (lit "Session cookie: " ++ cookie_val)
    result2 ← perform place sapi (with_raw_cookie_header cookie_val Methods.get) script
    print_response (lit "Second") result2

  unfoldable pub main : Program C (Unit {0})
  unfolding start perform print_response session_cookie second
  main = do
    sapi ← start place
    let script = php_script_path place (lit "session.php")
    result1 ← perform place sapi Methods.get script
    print_response (lit "First") result1
    second sapi script (session_cookie result1)
