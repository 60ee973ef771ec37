-- ===== src/Sapi/Spec.antt =====
-- What src/sapi promises to a program: a request as PHP and the program see it, with no address of a
-- box, no positions and no capacities. `Spec/Calls`, `Spec/Phases` and `Spec/Requests` prove that the
-- callbacks and the executor implement it.
pub mod Outlet
pub mod View
pub mod Headers
pub mod Output
pub mod Input
pub mod Calls
pub mod Phases
pub mod Stages
pub mod Requests
pub mod Streaming
pub mod Sequences
pub mod Agreement
use ripht_php_sapi.Prelude.{
  ℕ, Bool, true, false, Option, none, some, List, [], ◌∷◌, ◌++◌, take, drop, length, find, keep,
  ◌==◌, if◌then◌else◌,
}
use ripht_php_sapi.Prelude.Int.{ℤ, pos, negsuc}
use ripht_php_sapi.Text.{Str, Bytes, lit, str_eq}
use ripht_php_sapi.Text.Utf8.{from_utf8_lossy}
use ripht_php_sapi.Vars.CStrings.{CPtr, cstring_of}
use ripht_php_sapi.Execution.Message.{ExecutionMessage, from_syslog}
use ripht_php_sapi.Execution.Header.{Memchr, ResponseHeader}
use ripht_php_sapi.Execution.Result.{ExecutionResult}
use ripht_php_sapi.Sapi.State.{RequestInfo}
use ripht_php_sapi.Sapi.Callbacks.{
  SapiHeaders, status_of_code, header_sent_successfully, header_send_failed, success, failure,
  software,
}
use ripht_php_sapi.Sapi.Callbacks.Sending.{parsed_line, parsed_lines}
use ripht_php_sapi.Sapi.Engine.{
  Call, Reply, Phase, Sends, returned, mark_sent, call, nothing, count, copied, pointer, found,
  timed, ret, invoke, set_headers_sent, set_response_code, set_request_info, set_post_read,
}

-- A request that runs: what it was given, what it has sent so far, what PHP was told, and what PHP
-- reads of it in its globals (`request_info`, `http_response_code` and `post_read`).
pub record Request : Type 0 where
  pub unread : Bytes
  pub cookie : CPtr
  pub vars : List (Bytes × Bytes)
  pub env : List (Bytes × Bytes)
  pub logs : Bool
  pub overrides : List (Bytes × Bytes)
  pub status : ℕ
  pub headers : List ResponseHeader
  pub body : Bytes
  pub messages : List ExecutionMessage
  pub sent : ℕ
  pub registered : List (Bytes × Bytes)
  pub ini : List (Bytes × Bytes)
  pub stderr : List Str
  pub info : RequestInfo
  pub code : ℤ
  pub post_read : ℕ

-- What a request leaves behind in PHP's globals and on the standard error.
pub record Globals : Type 0 where
  pub sent : ℕ
  pub registered : List (Bytes × Bytes)
  pub ini : List (Bytes × Bytes)
  pub stderr : List Str
  pub info : RequestInfo
  pub code : ℤ
  pub post_read : ℕ

-- The query string, the cookies and the content type do not outlive their request.
abbrev pub forgotten : RequestInfo → RequestInfo
forgotten info = record info {
  query_string = CPtr.null;
  cookie_data = CPtr.null;
  content_type = CPtr.null;
}

abbrev pub left_by : Request → Globals
left_by r = record {
  sent = r.sent;
  registered = r.registered;
  ini = r.ini;
  stderr = r.stderr;
  info = forgotten r.info;
  code = r.code;
  post_read = r.post_read;
}

-- PHP is told that the body was read, before it is shut down.
abbrev pub with_post_read : Request → Request
with_post_read r = record r { post_read = 1 }

-- What PHP does when it sends the headers.
abbrev pub Sending : Type 0
Sending = Request → Sends

abbrev pub read : Option ℕ → Request → Bytes × Request
read none r = ([], r)
read (some n) r = (take n r.unread, record r { unread = drop n r.unread })

abbrev pub tell : Bool → Request → Request
tell false r = r
tell true r = record r {
  registered = (r.registered ++ (lit "SERVER_SOFTWARE", lit "Ripht/0.1.0-rc.7") ∷ []) ++ r.vars;
}

abbrev pub note : Option Bytes → ℤ → Request → Request
note none level r = r
note (some message) level r = record r {
  messages = r.messages ++ from_syslog level (from_utf8_lossy message) ∷ [];
  stderr = if r.logs then r.stderr ++ from_utf8_lossy message ∷ [] else r.stderr;
}

abbrev pub env_value : Option Bytes → Request → Option Bytes
env_value none r = none
env_value (some []) r = none
env_value (some (b ∷ bs)) r = elim (find (λ p. str_eq p.0 (b ∷ bs)) r.env) [
  | none ↦ none
  | some p ↦ some p.1
]

abbrev pub answered : Option SapiHeaders → ℕ
answered none = header_send_failed
answered (some hs) = header_sent_successfully

module _ (memchr : Memchr) where
  -- The response starts over: its status and its headers are those that are sent.
  unfoldable pub respond : Option SapiHeaders → Request → Request
  respond none r = r
  respond (some hs) r = record r {
    status = status_of_code hs.http_response_code;
    headers = parsed_lines memchr hs.headers;
  }

-- With what the request comes to when PHP sends the headers.
module _ (memchr : Memchr) (send : Request → Request) where
  -- The headers are sent before the first output.
  unfoldable pub start_output : Request → Request
  start_output r = if r.sent == 0 then send r else r

  unfoldable pub write : Option Bytes → Request → ℕ × Request
  unfolding start_output
  write none r = (0, r)
  write (some []) r = (0, r)
  write (some (b ∷ bs)) r =
      let r' = start_output r in (length (b ∷ bs), record r' { body = r'.body ++ b ∷ bs })

  -- One call: what PHP is answered, and the request afterwards.
  unfoldable pub perform_with : Call → Request → Reply × Request
  unfolding write start_output respond
  perform_with (Call.ub_write str) r = let (n, r') = write str r in (count n, r')
  perform_with Call.flush r = (nothing, start_output r)
  perform_with (Call.send_headers hs) r = (count (answered hs), respond memchr hs r)
  perform_with (Call.send_header none) r = (nothing, r)
  perform_with (Call.send_header (some line)) r =
      (nothing, record r { headers = r.headers ++ parsed_line memchr line })
  perform_with (Call.read_post size) r = let (bytes, r') = read size r in (copied bytes, r')
  perform_with Call.read_cookies r = (pointer r.cookie, r)
  perform_with (Call.register_server_variables array) r = (nothing, tell array r)
  perform_with (Call.log_message message level) r = (nothing, note message level r)
  perform_with (Call.getenv name) r = (found (env_value name r), r)
  perform_with (Call.get_request_time false) r = (timed failure false, r)
  perform_with (Call.get_request_time true) r = (timed success true, r)

module _ (memchr : Memchr) where
  -- The request behind what PHP does when it sends the headers.
  unfoldable pub interpret_sends : Sends → Request → Request
  unfolding perform_with
  interpret_sends returned r = r
  interpret_sends (mark_sent n rest) r = interpret_sends rest (record r { sent = n })
  interpret_sends (call again c k) r =
      let (reply, r') = perform_with memchr (interpret_sends again) c r in
      interpret_sends (k reply) r'

module _ (memchr : Memchr) (send : Sending) where
  abbrev pub headers_sent : Request → Request
  headers_sent r = interpret_sends memchr (send r) r

  unfoldable pub perform : Call → Request → Reply × Request
  unfolding perform_with interpret_sends
  perform c r = perform_with memchr headers_sent c r

  -- A whole phase: its code, and the request afterwards.
  unfoldable pub interpret : Phase → Request → ℤ × Request
  unfolding perform
  interpret (ret code) r = (code, r)
  interpret (invoke c k) r = let (reply, r') = perform c r in interpret (k reply) r'
  interpret (set_headers_sent n p) r = interpret p (record r { sent = n })
  interpret (set_response_code n p) r = interpret p (record r { code = n })
  interpret (set_request_info info p) r = interpret p (record r { info = info })
  interpret (set_post_read n p) r = interpret p (record r { post_read = n })

-- The result of a request.
abbrev pub result_of : Request → ExecutionResult
result_of r = record {
  status = r.status;
  body = r.body;
  headers = r.headers;
  messages = r.messages;
}

-- What PHP does in the phases of a request, by the request as it stands, and the INI names that it has.
pub record Behaviour : Type 0 where
  pub send : Sending
  pub startup : Request → Phase
  pub script : Bytes → Request → Phase
  pub shutdown : Request → Phase
  pub knows : Bytes → Bool

module _ (memchr : Memchr) (php : Behaviour) where
  unfoldable pub after_startup : Request → ℤ × Request
  unfolding interpret
  after_startup r = interpret memchr php.send (php.startup r) r

  abbrev pub with_overrides : Request → Request
  with_overrides r = record r { ini = r.ini ++ keep (λ e. php.knows e.0) r.overrides }

  unfoldable pub after_script : Bytes → Request → Request
  unfolding interpret
  after_script path r = (interpret memchr php.send (php.script path r) r).1

  unfoldable pub after_shutdown : Request → Request
  unfolding interpret
  after_shutdown r = (interpret memchr php.send (php.shutdown r) r).1

  -- What is behind a startup that does not fail: the overrides, the script, and the shutdown.
  unfoldable pub completed : Bytes → Request → Request
  unfolding after_script after_shutdown
  completed path r = after_shutdown (with_post_read (after_script path (with_overrides r)))
