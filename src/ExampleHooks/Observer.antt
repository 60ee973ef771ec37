-- ===== src/ExampleHooks/Observer.antt =====
-- `LifecycleObserver` of examples/hooks_basic.rs: hooks that log the events of a request.
pub mod Order
use Prim.Native.String.{String}
use ripht_php_sapi.Prelude.{ℕ, Bool, true, List, [], ◌∷◌, ◌++◌, length, if◌then◌else◌}
use ripht_php_sapi.Text.{Str, Bytes, lit}
use ripht_php_sapi.Text.Decimal.{decimal}
use ripht_php_sapi.Execution.Message.{
  SyslogLevel, emergency, alert, critical, error, warning, notice, info, debug, ExecutionMessage,
}
use ripht_php_sapi.Execution.Result.{ExecutionResult}
use ripht_php_sapi.Execution.Hooks.{ExecutionHooks, continue}

-- The events that were logged.
abbrev pub LifecycleObserver : Type 0
LifecycleObserver = List Str

-- `log`.
abbrev pub log : Str → LifecycleObserver → LifecycleObserver
log event events = events ++ event ∷ []

-- The derived `Debug` of a level.
unfoldable pub debug_level : SyslogLevel → Str
debug_level emergency = lit "Emergency"
debug_level alert = lit "Alert"
debug_level critical = lit "Critical"
debug_level error = lit "Error"
debug_level warning = lit "Warning"
debug_level notice = lit "Notice"
debug_level info = lit "Info"
debug_level debug = lit "Debug"

abbrev pub bool_text : Bool → Str
bool_text b = if b then lit "true" else lit "false"

unfoldable pub script_event : Str → Str
script_event path = lit "script_executing: " ++ path

unfoldable pub executed_event : Bool → Str
executed_event success = lit "script_executed: success=" ++ bool_text success

unfoldable pub output_event : Bytes → Str
unfolding decimal
output_event bytes = lit "on_output: " ++ (decimal (length bytes) ++ lit " bytes")

unfoldable pub header_event : Str → Str → Str
header_event name value = lit "on_header: " ++ (name ++ (lit ": " ++ value))

unfoldable pub status_event : ℕ → Str
unfolding decimal
status_event code = lit "on_status: " ++ decimal code

unfoldable pub message_event : ExecutionMessage → Str
unfolding debug_level
message_event m = lit "on_php_message: " ++ (debug_level m.level ++ (lit " - " ++ m.message))

unfoldable pub finished_event : ExecutionResult → Str
unfolding decimal
finished_event result =
    lit "request_finished: status="
    ++ (decimal result.status ++ (lit ", body_len=" ++ decimal (length result.body)))

-- `impl ExecutionHooks for LifecycleObserver`, with the trait's `on_flush` and `is_connection_alive`.
unfoldable pub observer : ExecutionHooks LifecycleObserver
unfolding script_event executed_event output_event header_event status_event message_event
    finished_event
observer = record {
  on_context_created = log (lit "context_created");
  on_request_starting = log (lit "request_starting");
  on_request_started = log (lit "request_started");
  on_script_executing = λ path. log (script_event path);
  on_script_executed = λ success. log (executed_event success);
  on_output = λ bytes events. (continue, log (output_event bytes) events);
  on_flush = λ events. events;
  on_header = λ name value events. (true, log (header_event name value) events);
  on_status = λ code. log (status_event code);
  on_php_message = λ m. log (message_event m);
  is_connection_alive = λ events. true;
  on_request_finishing = log (lit "request_finishing");
  on_request_finished = λ result. log (finished_event result);
}
