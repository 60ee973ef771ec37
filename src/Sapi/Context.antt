-- ===== src/Sapi/Context.antt =====
-- `ServerContext` of src/sapi/server_context.rs: the state of a request, which the callbacks read
-- and change. `C` is the state that the closures of a caller capture.
pub mod Reading
use Prim.Native.String.{String}
use ripht_php_sapi.Prelude.{
  ℕ, ◌+◌, ◌-◌, ◌<◌, min, Bool, true, false, Option, none, some, List, [], ◌∷◌, ◌++◌, length, take,
  drop, find, ltb, ◌==◌, if◌then◌else◌,
}
use ripht_php_sapi.Text.{Str, Bytes, lit, str_eq}
use ripht_php_sapi.Vars.CStrings.{
  ServerVarsCString, into_cstring_pairs, cstring_pairs, CPtr, null, static, owned, content_type_ptr,
  query_string_ptr, cookie_ptr, request_method_ptr,
}
use ripht_php_sapi.Execution.Message.{ExecutionMessage}
use ripht_php_sapi.Execution.Header.{ResponseHeader}
use ripht_php_sapi.Execution.Result.{ExecutionResult}
use ripht_php_sapi.Execution.Context.{ExecutionContext}
use ripht_php_sapi.Sapi.Buffer.{BufferPolicy, Buffer, append_output}

-- A boxed `FnMut` closure: what it does with its argument and what it captures. A call that panics
-- gives `false`.
pub record Closure (A C : Type 0) : Type 0 where
  pub fn : A → C → Bool × C
  pub env : C

abbrev pub call : {A C : Type 0} → Closure A C → A → Bool × Closure A C
call f a = let (returned, env) = f.fn a f.env in (returned, record { fn = f.fn; env = env })

pub record ServerContext (C : Type 0) : Type 0 where
  pub status_code : ℕ
  pub post_data : Bytes
  pub post_position : ℕ
  pub output_buffer : Buffer
  pub messages : List ExecutionMessage
  pub vars : Option ServerVarsCString
  pub env_vars : List (Bytes × Bytes)
  pub ini_overrides : List (Bytes × Bytes)
  pub response_headers : List ResponseHeader
  pub output_callback : Option (Closure Bytes C)
  pub flush_callback : Option (Closure (Unit {0}) C)
  pub log_to_stderr : Bool

abbrev pub new_context : {C : Type 0} → BufferPolicy → ServerContext C
new_context policy = record {
  status_code = 200;
  post_data = [];
  post_position = 0;
  output_buffer = record { content = []; capacity = policy.initial_cap };
  messages = [];
  vars = none;
  env_vars = [];
  ini_overrides = [];
  response_headers = [];
  output_callback = none;
  flush_callback = none;
  log_to_stderr = false;
}

-- The copy of `read_post` from a position on: the bytes that go to the front of a buffer of the
-- given size.
unfoldable pub post_chunk : Bytes → ℕ → ℕ → Bytes
post_chunk post_data pos size =
    let to_copy = min (length post_data - pos) size in take to_copy (drop pos post_data)

module _ {C : Type 0} where
  -- `self.vars.as_ref().map(f).unwrap_or(d)`.
  abbrev from_vars : {A : Type 0} → (ServerVarsCString → A) → A → ServerContext C → A
  from_vars f d ctx = elim ctx.vars [ none ↦ d | some v ↦ f v ]

  unfoldable pub context_content_type : ServerContext C → CPtr
  unfolding content_type_ptr
  context_content_type ctx = from_vars content_type_ptr null ctx

  unfoldable pub context_query_string : ServerContext C → CPtr
  unfolding query_string_ptr
  context_query_string ctx = from_vars query_string_ptr null ctx

  unfoldable pub context_cookie_data : ServerContext C → CPtr
  unfolding cookie_ptr
  context_cookie_data ctx = from_vars cookie_ptr null ctx

  unfoldable pub context_request_method : ServerContext C → CPtr
  unfolding request_method_ptr
  context_request_method ctx = from_vars request_method_ptr (static (lit "GET")) ctx

  unfoldable pub server_vars : ServerContext C → List (Bytes × Bytes)
  server_vars ctx = from_vars (λ v. v.vars) [] ctx

  -- `read_post` into a buffer of the given size: the bytes that are copied, whose number is the
  -- result, and the context.
  unfoldable pub read_post : ℕ → ServerContext C → Bytes × ServerContext C
  unfolding post_chunk
  read_post size ctx =
      if size == 0
      then ([], ctx)
      else let to_copy = min (length ctx.post_data - ctx.post_position) size in
        if ltb 0 to_copy
        then (
          post_chunk ctx.post_data ctx.post_position size,
          record ctx { post_position = ctx.post_position + to_copy },
        )
        else ([], ctx)

  -- `write_output`; `none` stands for a panic of the callback.
  unfoldable pub write_output : BufferPolicy → Bytes → ServerContext C → Option ℕ × ServerContext C
  unfolding append_output
  write_output policy bytes ctx = elim ctx.output_callback [
    | some callback ↦
        let (returned, callback') = call callback bytes in
        (
          if returned then some (length bytes) else none,
          record ctx { output_callback = some callback' },
        )
    | none ↦ (
      some (length bytes),
      record ctx { output_buffer = append_output policy bytes ctx.output_buffer },
    )
  ]

  unfoldable pub add_header : ResponseHeader → ServerContext C → ServerContext C
  add_header h ctx = record ctx { response_headers = ctx.response_headers ++ h ∷ [] }

  unfoldable pub set_status : ℕ → ServerContext C → ServerContext C
  set_status code ctx = record ctx { status_code = code }

  unfoldable pub add_message : ExecutionMessage → ServerContext C → ServerContext C
  add_message m ctx = record ctx { messages = ctx.messages ++ m ∷ [] }

  unfoldable pub set_output_callback : Closure Bytes C → ServerContext C → ServerContext C
  set_output_callback callback ctx = record ctx { output_callback = some callback }

  unfoldable pub set_flush_callback : Closure (Unit {0}) C → ServerContext C → ServerContext C
  set_flush_callback callback ctx = record ctx { flush_callback = some callback }

  unfoldable pub flush : ServerContext C → ServerContext C
  flush ctx = elim ctx.flush_callback [
    | some callback ↦ record ctx { flush_callback = some (call callback tt).1 }
    | none ↦ ctx
  ]

  -- `get_env`: the value of the first variable of that name.
  unfoldable pub get_env : Bytes → ServerContext C → Option Bytes
  unfolding find str_eq
  get_env key ctx = elim (find (λ p. str_eq p.0 key) ctx.env_vars) [
    | none ↦ none
    | some p ↦ some p.1
  ]

  unfoldable pub into_result : Bytes → ServerContext C → ExecutionResult
  into_result body ctx = record {
    status = ctx.status_code;
    body = body;
    headers = ctx.response_headers;
    messages = ctx.messages;
  }

-- `From<ExecutionContext>`.
unfoldable pub from_context : {C : Type 0} → BufferPolicy → ExecutionContext → ServerContext C
unfolding into_cstring_pairs cstring_pairs
from_context {C} policy ctx =
    let fresh : ServerContext C = new_context policy in
    record fresh {
      post_data = ctx.input;
      log_to_stderr = ctx.log_to_stderr;
      vars = some (into_cstring_pairs ctx.server_vars);
      env_vars = cstring_pairs ctx.env_vars;
      ini_overrides = cstring_pairs ctx.ini_overrides;
    }
