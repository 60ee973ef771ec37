-- ===== src/Sapi/Engine.antt =====
-- PHP as the program sees it: C code that is linked in, a parameter of the model. What PHP does in a
-- phase of a request is a tree of callbacks that it calls, each next step depending on the replies.
pub mod Live
pub mod Safety
use ripht_php_sapi.Prelude.{ℕ, Bool, Option, none, some, List, [], ◌∷◌, ◌++◌}
use ripht_php_sapi.Prelude.Int.{ℤ}
use ripht_php_sapi.Text.{Bytes}
use ripht_php_sapi.Vars.CStrings.{CPtr}
use ripht_php_sapi.Execution.Header.{Memchr}
use ripht_php_sapi.Sapi.Buffer.{BufferPolicy}
use ripht_php_sapi.Sapi.State.{RequestInfo, Sapi, and_then, M, pure, ◌>>=◌, ◌>>◌}
use ripht_php_sapi.Sapi.Callbacks
use ripht_php_sapi.Sapi.Callbacks.{SapiHeaders, SendHeaders}

-- A call of a callback that is registered in `sapi_module`.
pub data Call : Type 0 where
  ub_write : Option Bytes → Call
  flush : Call
  send_headers : Option SapiHeaders → Call
  send_header : Option (Option Bytes) → Call
  read_post : Option ℕ → Call
  read_cookies : Call
  register_server_variables : Bool → Call
  log_message : Option Bytes → ℤ → Call
  getenv : Option Bytes → Call
  get_request_time : Bool → Call

pub data Reply : Type 0 where
  nothing : Reply
  count : ℕ → Reply
  copied : Bytes → Reply
  pointer : CPtr → Reply
  found : Option Bytes → Reply
  timed : ℤ → Bool → Reply

-- A phase: it returns a code, calls a callback and goes on by the reply, or sets a field of its own
-- globals: `headers_sent`, `http_response_code`, `request_info` or `post_read`.
pub data Phase : Type 0 where
  ret : ℤ → Phase
  invoke : Call → (Reply → Phase) → Phase
  set_headers_sent : ℕ → Phase → Phase
  set_response_code : ℤ → Phase → Phase
  set_request_info : RequestInfo → Phase → Phase
  set_post_read : ℕ → Phase → Phase

-- What `sapi_send_headers()` does: it returns, sets `headers_sent`, or calls a callback and goes on by
-- the reply. A callback of PHP's own that runs there may log, read and write; a write finds
-- `headers_sent` as it is, and where that is 0 calls `sapi_send_headers()` once more, which then does
-- what stands in front of the call.
pub data Sends : Type 0 where
  returned : Sends
  mark_sent : ℕ → Sends → Sends
  call : Sends → Call → (Reply → Sends) → Sends

-- What is not under src/ of the repository: the crate memchr, PHP's functions by what they do from a
-- state of the globals, and whether an INI name can be interned (`none` if the function pointer
-- `zend_string_init_interned` is null).
pub record Engine (C : Type 0) : Type 0 where
  pub memchr : Memchr
  pub sapi_send_headers : Sapi C → Sends
  pub php_request_startup : Sapi C → Phase
  pub php_execute_script : Bytes → Sapi C → Phase
  pub php_request_shutdown : Sapi C → Phase
  pub init_interned : Option (Bytes → Bool)

module _ {C : Type 0} (memchr : Memchr) (policy : BufferPolicy) where
  -- One call, by the callback that is registered for it; `send` is `sapi_send_headers()` at the time.
  unfoldable pub dispatch_with : SendHeaders C → Call → M C Reply
  unfolding Callbacks.ub_write Callbacks.flush_output Callbacks.send_headers Callbacks.send_header
      Callbacks.read_post_body Callbacks.read_cookies Callbacks.register_server_variables
      Callbacks.log_message Callbacks.getenv Callbacks.get_request_time
  dispatch_with send (ub_write str) = do n ← Callbacks.ub_write send policy str; pure (count n)
  dispatch_with send flush = Callbacks.flush_output send >> pure nothing
  dispatch_with send (send_headers hs) = do n ← Callbacks.send_headers memchr hs; pure (count n)
  dispatch_with send (send_header h) = Callbacks.send_header memchr h >> pure nothing
  dispatch_with send (read_post size) = do bs ← Callbacks.read_post_body size; pure (copied bs)
  dispatch_with send read_cookies = do p ← Callbacks.read_cookies; pure (pointer p)
  dispatch_with send (register_server_variables array) =
      Callbacks.register_server_variables array >> pure nothing
  dispatch_with send (log_message message level) =
      Callbacks.log_message message level >> pure nothing
  dispatch_with send (getenv name) = do v ← Callbacks.getenv name; pure (found v)
  dispatch_with send (get_request_time p) = do
    r ← Callbacks.get_request_time p
    pure (timed r.0 r.1)

  unfoldable pub run_sends : Sends → M C (Unit {0})
  unfolding dispatch_with
  run_sends returned = pure tt
  run_sends (mark_sent n rest) = λ s. run_sends rest (record s { headers_sent = n })
  run_sends (call again c k) =
      λ s. and_then (dispatch_with (run_sends again) c s) (λ reply. run_sends (k reply))

module _ {C : Type 0} (engine : Engine C) (policy : BufferPolicy) where
  -- `sapi_send_headers()`.
  unfoldable pub run_send_headers : SendHeaders C
  unfolding run_sends
  run_send_headers s = run_sends engine.memchr policy (engine.sapi_send_headers s) s

  -- A call of a phase.
  unfoldable pub dispatch : Call → M C Reply
  unfolding dispatch_with run_send_headers
  dispatch c = dispatch_with engine.memchr policy run_send_headers c

  unfoldable pub run_phase : Phase → M C ℤ
  unfolding dispatch
  run_phase (ret code) = pure code
  run_phase (invoke c k) = λ s. and_then (dispatch c s) (λ reply. run_phase (k reply))
  run_phase (set_headers_sent n p) = λ s. run_phase p (record s { headers_sent = n })
  run_phase (set_response_code n p) = λ s. run_phase p (record s { http_response_code = n })
  run_phase (set_request_info info p) = λ s. run_phase p (record s { request_info = info })
  run_phase (set_post_read n p) = λ s. run_phase p (record s { post_read = n })
