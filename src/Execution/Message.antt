-- ===== src/Execution/Message.antt =====
-- src/execution/message.rs: the severity levels of PHP messages.
pub mod Laws
use Prim.Native.String.{String}
use ripht_php_sapi.Prelude.{ℕ, ◌+◌, Bool, true, false, ◌||◌, ◌∷◌, ◌++◌, ◌==◌, if◌then◌else◌}
use ripht_php_sapi.Prelude.Int.{ℤ, pos, negsuc}
use ripht_php_sapi.Text.{Str, lit}

pub data SyslogLevel : Type 0 where
  emergency alert critical error warning notice info debug : SyslogLevel

-- The numbers that the variants are declared with: `level as i32`.
unfoldable pub to_i32 : SyslogLevel → ℤ
to_i32 emergency = pos 0
to_i32 alert = pos 1
to_i32 critical = pos 2
to_i32 error = pos 3
to_i32 warning = pos 4
to_i32 notice = pos 5
to_i32 info = pos 6
to_i32 debug = pos 7

unfoldable pub from_raw : ℤ → SyslogLevel
from_raw (pos n) =
    if n == 0
    then emergency
    else if n == 1
    then alert
    else if n == 2
    then critical
    else if n == 3
    then error
    else if n == 4
    then warning
    else if n == 5
    then notice
    else if n == 6
    then info
    else debug
from_raw (negsuc n) = emergency

unfoldable pub is_error_or_worse : SyslogLevel → Bool
is_error_or_worse emergency = true
is_error_or_worse alert = true
is_error_or_worse critical = true
is_error_or_worse error = true
is_error_or_worse _ = false

-- `matches!(level, SyslogLevel::Warning)`.
unfoldable pub is_warning_level : SyslogLevel → Bool
is_warning_level warning = true
is_warning_level _ = false

unfoldable pub is_warning_or_worse : SyslogLevel → Bool
unfolding is_error_or_worse is_warning_level
is_warning_or_worse level = is_error_or_worse level || is_warning_level level

unfoldable pub level_str : SyslogLevel → Str
level_str emergency = lit "emerg"
level_str alert = lit "alert"
level_str critical = lit "crit"
level_str error = lit "err"
level_str warning = lit "warning"
level_str notice = lit "notice"
level_str info = lit "info"
level_str debug = lit "debug"

-- `impl Display for SyslogLevel`.
unfoldable pub display_level : SyslogLevel → Str
unfolding level_str
display_level level = level_str level

-- `From<i32>`.
unfoldable pub from_i32 : ℤ → SyslogLevel
unfolding from_raw
from_i32 level = from_raw level

pub record ExecutionMessage : Type 0 where
  pub message : Str
  pub level : SyslogLevel

-- `ExecutionMessage::new`.
abbrev pub new_message : SyslogLevel → Str → ExecutionMessage
new_message level message = record { message = message; level = level }

unfoldable pub from_syslog : ℤ → Str → ExecutionMessage
unfolding from_raw
from_syslog syslog_level message = new_message (from_raw syslog_level) message

unfoldable pub message_is_error : ExecutionMessage → Bool
unfolding is_error_or_worse
message_is_error m = is_error_or_worse m.level

unfoldable pub message_is_warning : ExecutionMessage → Bool
unfolding is_warning_level
message_is_warning m = is_warning_level m.level

unfoldable pub message_is_warning_or_worse : ExecutionMessage → Bool
unfolding is_warning_or_worse
message_is_warning_or_worse m = is_warning_or_worse m.level

-- `impl Display for ExecutionMessage`.
unfoldable pub display_message : ExecutionMessage → Str
unfolding display_level
display_message m = lit "[" ++ (display_level m.level ++ (lit "] " ++ m.message))
