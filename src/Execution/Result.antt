-- ===== src/Execution/Result.antt =====
-- src/execution/result.rs: the result of an execution and the questions that a caller asks it.
pub mod Laws
pub mod Http
use ripht_php_sapi.Prelude.{
  ℕ, ◌<◌, ◌≤◌, Bool, true, false, ◌&&◌, ◌||◌, Option, none, some, List, [], ◌∷◌, map, any, keep,
  find, is_empty, ltb, leb, ◌==◌, if◌then◌else◌,
}
use ripht_php_sapi.Prelude.Int.{pos_part}
use ripht_php_sapi.Text.{Str, Bytes}
use ripht_php_sapi.Text.Ascii.{eq_ignore_ascii_case}
use ripht_php_sapi.Text.Utf8.{from_utf8, from_utf8_lossy}
use ripht_php_sapi.Execution.Message.{SyslogLevel, ExecutionMessage, to_i32, message_is_error}
use ripht_php_sapi.Execution.Header.{ResponseHeader}

pub record ExecutionResult : Type 0 where
  pub status : ℕ
  pub body : Bytes
  pub headers : List ResponseHeader
  pub messages : List ExecutionMessage

-- `ExecutionResult::default()`.
abbrev pub default_result : ExecutionResult
default_result = record { status = 200; body = []; headers = []; messages = [] }

-- `take_body` moves the body out of the result.
unfoldable pub take_body : ExecutionResult → ExecutionResult × Bytes
take_body r = (record r { body = [] }, r.body)

unfoldable pub body_string : ExecutionResult → Str
unfolding from_utf8_lossy
body_string r = if is_empty r.body then [] else from_utf8_lossy r.body

-- `body_str().ok()`.
unfoldable pub body_str : ExecutionResult → Option Str
unfolding from_utf8
body_str r = from_utf8 r.body

unfoldable pub has_errors : ExecutionResult → Bool
unfolding any message_is_error
has_errors r = any message_is_error r.messages

-- `==` on levels.
unfoldable pub level_eq : SyslogLevel → SyslogLevel → Bool
unfolding to_i32
level_eq l k = pos_part (to_i32 l) == pos_part (to_i32 k)

unfoldable pub has_message_level : ExecutionResult → SyslogLevel → Bool
unfolding any level_eq
has_message_level r level = any (λ m. level_eq m.level level) r.messages

unfoldable pub errors : ExecutionResult → List ExecutionMessage
unfolding keep message_is_error
errors r = keep message_is_error r.messages

abbrev pub named : Str → ResponseHeader → Bool
named name h = eq_ignore_ascii_case h.name name

abbrev pub value_of : Option ResponseHeader → Option Str
value_of none = none
value_of (some h) = some h.value

unfoldable pub header_val : ExecutionResult → Str → Option Str
unfolding find eq_ignore_ascii_case
header_val r name = value_of (find (named name) r.headers)

unfoldable pub header_vals : ExecutionResult → Str → List Str
unfolding keep eq_ignore_ascii_case
header_vals r name = map (λ (h : ResponseHeader). h.value) (keep (named name) r.headers)

-- `(lo..hi).contains(&self.status)`.
abbrev pub in_range : ℕ → ℕ → ℕ → Bool
in_range lo hi n = leb lo n && ltb n hi

unfoldable pub is_success : ExecutionResult → Bool
is_success r = in_range 200 300 r.status

unfoldable pub is_redirect : ExecutionResult → Bool
is_redirect r = in_range 300 400 r.status

unfoldable pub is_client_error : ExecutionResult → Bool
is_client_error r = in_range 400 500 r.status

unfoldable pub is_server_error : ExecutionResult → Bool
is_server_error r = in_range 500 600 r.status
