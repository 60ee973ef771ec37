-- ===== src/Sapi/Callbacks.antt =====
-- The callbacks of src/sapi/callbacks.rs. A pointer argument is an `Option`, with what it points to;
-- `catch_unwind` turns a panic of a closure into the value that `unwrap_or` names.
pub mod Sending
pub mod Registering
pub mod Writing
pub mod Delegating
use ripht_php_sapi.Prelude.{
  ℕ, Bool, true, false, not, ◌&&◌, Option, none, some, List, [], ◌∷◌, ◌++◌, ◌==◌, if◌then◌else◌,
  get_or,
}
use ripht_php_sapi.Prelude.Int.{ℤ, pos, negsuc, leb_ℤ, pos_part}
use ripht_php_sapi.Text.{Str, Bytes, lit}
use ripht_php_sapi.Text.Utf8.{from_utf8_lossy}
use ripht_php_sapi.Vars.CStrings.{CPtr, cstring_of}
use ripht_php_sapi.Execution.Message.{from_syslog}
use ripht_php_sapi.Execution.Header.{Memchr, parse}
use ripht_php_sapi.Sapi.Buffer.{BufferPolicy}
use ripht_php_sapi.Sapi.Context.{
  ServerContext, context_cookie_data, server_vars, read_post, write_output, add_header, set_status,
  add_message, flush, get_env,
}
use ripht_php_sapi.Sapi.State.{ContextPtr, boxed, Sapi, done, M, pure, ◌>>=◌, ◌>>◌, modify, deref}

abbrev pub success : ℤ
success = pos 0

abbrev pub failure : ℤ
failure = negsuc 0

abbrev pub header_sent_successfully : ℕ
header_sent_successfully = 1

abbrev pub header_send_failed : ℕ
header_send_failed = 0

-- `Ripht/` and the version of the crate.
abbrev pub software : Str
software = lit "Ripht/0.1.0-rc.7"

-- `sapi_headers_struct`, and a `sapi_header_struct` by what its pointer points to.
pub record SapiHeaders : Type 0 where
  pub http_response_code : ℤ
  pub headers : List (Option Bytes)

-- PHP's `sapi_send_headers()`, which the program calls but does not implement.
abbrev pub SendHeaders : Type 0 → Type 0
SendHeaders C = M C (Unit {0})

-- `get_context`: whether there is a context to use.
unfoldable pub get_context : ContextPtr → Bool
get_context boxed = true
get_context _ = false

-- The status that a response code of PHP becomes.
unfoldable pub status_of_code : ℤ → ℕ
status_of_code code =
    if not (leb_ℤ (pos 100) code && leb_ℤ code (pos 599)) then 500 else pos_part code

module _ {C : Type 0} where
  -- The code behind `let Some(ctx_ptr) = get_context() else { return d }`.
  unfoldable pub with_context : {A : Type 0} → A → M C A → M C A
  unfolding get_context
  with_context d m s = if get_context s.server_context then m s else done d s

  unfoldable pub read_header : Memchr → Bytes → ServerContext C → Unit {0} × ServerContext C
  unfolding parse add_header
  read_header memchr bytes ctx = elim (parse memchr bytes) [
    | none ↦ (tt, ctx)
    | some h ↦ (tt, add_header h ctx)
  ]

  -- `ripht_sapi_send_header`.
  unfoldable pub send_header : Memchr → Option (Option Bytes) → M C (Unit {0})
  unfolding with_context read_header
  send_header memchr none = pure tt
  send_header memchr (some none) = pure tt
  send_header memchr (some (some [])) = pure tt
  send_header memchr (some (some (b ∷ bs))) = with_context tt (deref (read_header memchr (b ∷ bs)))

  unfoldable pub send_each : Memchr → List (Option Bytes) → M C (Unit {0})
  unfolding send_header
  send_each memchr [] = pure tt
  send_each memchr (h ∷ hs) = send_header memchr (some h) >> send_each memchr hs

  -- `ripht_sapi_send_headers`.
  unfoldable pub send_headers : Memchr → Option SapiHeaders → M C ℕ
  unfolding with_context status_of_code set_status send_each
  send_headers memchr none = pure header_send_failed
  send_headers memchr (some sapi_headers) = with_context header_send_failed do
    deref (λ ctx. (
      tt,
      record (set_status (status_of_code sapi_headers.http_response_code) ctx) {
        response_headers = [];
      },
    ))
    send_each memchr sapi_headers.headers
    pure header_sent_successfully

  -- `if headers_sent == 0 { sapi_send_headers() }`.
  unfoldable pub ensure_headers : SendHeaders C → M C (Unit {0})
  ensure_headers php s = if s.headers_sent == 0 then php s else done tt s

  -- `ripht_sapi_ub_write`.
  unfoldable pub ub_write : SendHeaders C → BufferPolicy → Option Bytes → M C ℕ
  unfolding ensure_headers with_context write_output
  ub_write php policy none = pure 0
  ub_write php policy (some []) = pure 0
  ub_write php policy (some (b ∷ bs)) = do
    ensure_headers php
    with_context 0
        (deref (λ ctx. let (n, ctx') = write_output policy (b ∷ bs) ctx in (get_or n 0, ctx')))

  -- `ripht_sapi_flush`.
  unfoldable pub flush_output : SendHeaders C → M C (Unit {0})
  unfolding ensure_headers with_context flush
  flush_output php = do ensure_headers php; with_context tt (deref (λ ctx. (tt, flush ctx)))

  -- `ripht_sapi_read_post`: the bytes that are written to a buffer of the given size.
  unfoldable pub read_post_body : Option ℕ → M C Bytes
  unfolding with_context read_post
  read_post_body none = pure []
  read_post_body (some size) =
      if size == 0 then pure [] else with_context [] (deref (read_post size))

  -- `ripht_sapi_read_cookies`.
  unfoldable pub read_cookies : M C CPtr
  unfolding with_context context_cookie_data
  read_cookies = with_context CPtr.null (deref (λ ctx. (context_cookie_data ctx, ctx)))

  -- The calls of `php_register_variable_safe`.
  unfoldable pub register_all : List (Bytes × Bytes) → M C (Unit {0})
  register_all vars = modify (λ s. record s { registered = s.registered ++ vars })

  unfoldable pub register_value : Bytes → Option Bytes → M C (Unit {0})
  unfolding register_all
  register_value name none = pure tt
  register_value name (some v) = register_all ((name, v) ∷ [])

  -- `register_var_static`.
  unfoldable pub register_static : Str → Str → M C (Unit {0})
  unfolding cstring_of register_value
  register_static name value = register_value name (cstring_of value)

  -- `ripht_sapi_register_server_variables`, for an array that may be null.
  unfoldable pub register_server_variables : Bool → M C (Unit {0})
  unfolding with_context server_vars register_static
  register_server_variables false = pure tt
  register_server_variables true = do
    register_static (lit "SERVER_SOFTWARE") software
    with_context tt (deref (λ ctx. (server_vars ctx, ctx)) >>= register_all)

  -- `ripht_sapi_log_message`.
  unfoldable pub log_message : Option Bytes → ℤ → M C (Unit {0})
  unfolding with_context from_utf8_lossy from_syslog add_message
  log_message none syslog_type = pure tt
  log_message (some message) syslog_type = do
    let msg = from_utf8_lossy message
    to_stderr ← with_context false (deref (λ ctx. (ctx.log_to_stderr, ctx)))
    if to_stderr then modify (λ s. record s { stderr = s.stderr ++ msg ∷ [] }) else pure tt
    with_context tt (deref (λ ctx. (tt, add_message (from_syslog syslog_type msg) ctx)))

  -- `ripht_sapi_getenv`: the value, or null.
  unfoldable pub getenv : Option Bytes → M C (Option Bytes)
  unfolding with_context get_env
  getenv none = pure none
  getenv (some []) = pure none
  getenv (some (b ∷ bs)) = with_context none (deref (λ ctx. (get_env (b ∷ bs) ctx, ctx)))

  -- `ripht_sapi_get_request_time`, for a pointer that may be null: the code, and whether the time is
  -- written.
  unfoldable pub get_request_time : Bool → M C (ℤ × Bool)
  get_request_time false = pure (failure, false)
  get_request_time true = pure (success, true)
