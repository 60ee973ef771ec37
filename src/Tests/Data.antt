-- ===== src/Tests/Data.antt =====
-- Inputs of the examples: a clock, a file system, a state of PHP's globals, and engines.
use ripht_php_sapi.Prelude.{ℕ, true, none, some, [], ◌∷◌}
use ripht_php_sapi.Prelude.Int.{ℤ, pos, negsuc}
use ripht_php_sapi.Text.{Bytes, lit}
use ripht_php_sapi.Text.FilePath.{FileSystem}
use ripht_php_sapi.Vars.Builders.{Now}
use ripht_php_sapi.Vars.CStrings.{CPtr}
use ripht_php_sapi.Execution.Context.{ExecutionContext, script}
use ripht_php_sapi.Execution.Header.{Memchr}
use ripht_php_sapi.Execution.Header.Laws.{position}
use ripht_php_sapi.Sapi.Buffer.{BufferPolicy, x2}
use ripht_php_sapi.Sapi.Context.{ServerContext, Closure, new_context}
use ripht_php_sapi.Sapi.State.{Sapi, ContextPtr, boxed, RequestInfo}
use ripht_php_sapi.Sapi.Callbacks.Writing.{echo}
use ripht_php_sapi.Sapi.Engine.{Engine, Call, Sends, returned, mark_sent, call, ret, invoke}

abbrev pub clock : Now
clock = record { secs = 7; secs_f64 = lit "7.5" }

-- A file system with every file, and no canonical path.
abbrev pub files : FileSystem
files = record { exists = λ p. true; canonicalize = λ p. none }

abbrev pub small_policy : BufferPolicy
small_policy = record { initial_cap = 4096; strategy = x2 }

abbrev pub no_pointers : RequestInfo
no_pointers = record {
  request_method = CPtr.null;
  query_string = CPtr.null;
  cookie_data = CPtr.null;
  content_type = CPtr.null;
  content_length = 0;
}

-- The closures of the examples count what they are given.
abbrev pub idle_with : (C : Type 0) → Sapi C
idle_with C = record {
  server_context = ContextPtr.null;
  request_info = no_pointers;
  http_response_code = pos 200;
  headers_sent = 0;
  post_read = 0;
  box = none;
  registered = [];
  ini_entries = [];
  stderr = [];
}

abbrev pub idle : Sapi ℕ
idle = idle_with ℕ

abbrev pub fresh : ServerContext ℕ
fresh = new_context small_policy

-- A request that has begun and whose headers were sent.
abbrev pub live : Sapi ℕ
live = record idle { server_context = boxed; headers_sent = 1; box = some fresh }

abbrev pub first_byte_of : Memchr
first_byte_of needle haystack = position needle haystack

-- The headers are sent once, behind a message that a callback for them logs.
abbrev pub send_once : ℤ → Sends
send_once code = mark_sent 1 (
    call returned (Call.log_message (some (lit "headers")) (pos 6)) (λ reply.
      call returned
        (Call.send_headers
          (some (record { http_response_code = code; headers = some (lit "A: b") ∷ [] })))
        (λ reply. returned)))

-- PHP starts with the length of the body as its code, sends its headers once, writes two chunks, and ends.
abbrev pub php_with : (C : Type 0) → Engine C
php_with C = record {
  memchr = first_byte_of;
  sapi_send_headers = λ s. send_once s.http_response_code;
  php_request_startup = λ s. ret (pos s.request_info.content_length);
  php_execute_script = λ path s. echo (lit "he" ∷ lit "llo" ∷ []);
  php_request_shutdown = λ s. invoke Call.flush (λ r. ret (pos 0));
  init_interned = some (λ key. true);
}

abbrev pub php : Engine ℕ
php = php_with ℕ

-- PHP's startup fails, and its shutdown is quiet.
abbrev pub broken_php : Engine ℕ
broken_php = record php {
  php_request_startup = λ s. ret (negsuc 0);
  php_request_shutdown = λ s. ret (pos 0);
}

-- PHP's startup fails, and its shutdown logs a message.
abbrev pub logging_php : Engine ℕ
logging_php = record broken_php {
  php_request_shutdown =
      λ s. invoke (Call.log_message (some (lit "failed")) (pos 3)) (λ r. ret (pos 0));
}

abbrev pub hello : ExecutionContext
hello = script (lit "hello.php")

abbrev pub counter : Closure Bytes ℕ
counter = record { fn = λ bytes n. (true, n); env = 0 }
