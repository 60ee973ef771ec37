-- ===== src/Tests/Benching.antt =====
-- The clients, the messages, the worker and the pool of the benchmarks at concrete inputs.
use ripht_php_sapi.Prelude.{
  ℕ, suc, ◌≡◌, refl, Option, none, some, List, [], ◌∷◌, ◌++◌, inl, map, take, arith, ok, err,
}
use ripht_php_sapi.Text.{Bytes, lit}
use ripht_php_sapi.Text.Utf8.{utf8, cstring}
use ripht_php_sapi.Vars.CStrings.{owned}
use ripht_php_sapi.Adapters.Web.{default_request}
use ripht_php_sapi.Sapi.Callbacks.Writing.{echo}
use ripht_php_sapi.Execution.Context.{path_as_cstring}
use ripht_php_sapi.Execution.Header.{parse}
use ripht_php_sapi.Execution.Header.Laws.{position}
use ripht_php_sapi.Vars.{set}
use ripht_php_sapi.Bench.{unexpected_eof, vec, behind_headers, header_end}
use ripht_php_sapi.Bench.Protocol.{Codec, Request, Response, get, read_message, write_message}
use ripht_php_sapi.Bench.Protocol.Framing.{
  frame, IsEncodable, read_message-write_message, read_message_cut,
}
use ripht_php_sapi.Bench.Fcgi.{
  build_fcgi_params, fcgi_execute, extract_fcgi_stdout, record_header, padding_len,
}
use ripht_php_sapi.Bench.Fcgi.Params.{read_fcgi_params, encoded, read_fcgi_params-build_fcgi_params}
use ripht_php_sapi.Bench.Fcgi.Records.{records, output_of, extract_fcgi_stdout-records}
use ripht_php_sapi.Bench.Fcgi.Exchange.{concat, fcgi_execute-records}
use ripht_php_sapi.Bench.Worker.{Site, broke, handle_request, run_worker_loop}
use ripht_php_sapi.Sapi.State.{Sapi, done}
use ripht_php_sapi.Bench.Worker.Serving.{
  handled, idle as served, written, read_each, run_worker_loop-Handled,
}
use ripht_php_sapi.Bench.Worker.Session.{frames, session, run_worker_loop-session}
use ripht_php_sapi.Bench.Pool.{drop_all}
use ripht_php_sapi.Bench.Pool.Dropping.{Job, AllExit, worker_of, drop_all-AllExit}
use ripht_php_sapi.Bench.Pool.Turns.{send_all, each_once, restarted, send_all-each_once}
use ripht_php_sapi.Tests.Data.{files, clock, idle, no_pointers, php, small_policy}

read_fcgi_params-build_fcgi_params_example :
    read_fcgi_params (build_fcgi_params ((lit "A", lit "b") ∷ []))
    ≡ some (map encoded ((lit "A", lit "b") ∷ []))
unfolding utf8
read_fcgi_params-build_fcgi_params_example =
    read_fcgi_params-build_fcgi_params ((lit "A", lit "b") ∷ []) ((omega arith, omega arith), tt)

-- An answer of two records, of which the first one is the output.
abbrev answer : List (ℕ × Bytes)
answer = (6, lit "Status: 200\r\n\r\nok") ∷ (3, lit "12345678") ∷ []

extract_fcgi_stdout-records_example :
    extract_fcgi_stdout (records 1 answer ++ lit "cut") ≡ some (behind_headers (output_of answer))
extract_fcgi_stdout-records_example =
    extract_fcgi_stdout-records 1 answer (lit "cut") (omega arith, (omega arith, tt))
      (inl (omega arith))

fcgi_execute-records_example :
    fcgi_execute vec
      (lit "/w")
      (some [])
      (λ sent. map ok (records 1 answer ∷ []))
      (lit "a.php")
      get
      none
    ≡ some (lit "ok")
unfolding records output_of record_header padding_len concat header_end
fcgi_execute-records_example =
    fcgi_execute-records (lit "/w") (lit "a.php") get none (λ sent. map ok (records 1 answer ∷ []))
      (records 1 answer ∷ []) 1 answer (lit "Status: 200") (lit "ok") refl (refl, tt) refl
      (omega arith, (omega arith, tt)) refl refl

-- One byte for a number.
abbrev byte_codec : Codec ℕ
byte_codec = record {
  to_vec = λ n. ok (n ∷ []);
  from_slice = λ bytes. elim bytes [ [] ↦ err (lit "empty") | n ∷ rest ↦ ok n ];
}

read_message-write_message_example :
    read_message byte_codec ((write_message byte_codec vec 7 []).1 ++ lit "x") ≡ (ok 7, lit "x")
read_message-write_message_example =
    read_message-write_message byte_codec 7 (lit "x") (7 ∷ [], refl, refl, omega arith)

read_message_cut_example :
    (read_message byte_codec (take 5 (frame (lit "abc")))).0 ≡ err unexpected_eof
read_message_cut_example = read_message_cut byte_codec 5 (lit "abc") (omega arith) (omega arith)

abbrev site : Site ℕ
site = record {
  unicode = λ c. c ∷ [];
  files = files;
  now = clock;
  scripts_dir = lit "/w";
  engine = php;
  policy = small_policy;
  sapi = record { init_result = some (ok tt); calls = [] };
}

abbrev requests : Codec Request
requests = record {
  to_vec = λ r. ok [];
  from_slice = λ bytes. elim bytes [ [] ↦ err (lit "empty") | n ∷ rest ↦ ok (Request.echo n) ];
}

abbrev responses : Codec Response
responses = record {
  to_vec = λ r. elim r [ Response.echo n ↦ ok (n ∷ []) | _ ↦ ok [] ];
  from_slice = λ bytes. err (lit "unread");
}

-- A request, a message that does not decode, and one that was cut off.
run_worker_loop-session_example :
    run_worker_loop site requests responses vec
      (frames ((7 ∷ []) ∷ [] ∷ []) ++ take 2 (frame (lit "abc")))
      []
    ≡ session site requests responses vec ((7 ∷ []) ∷ [] ∷ []) []
run_worker_loop-session_example =
    run_worker_loop-session site requests responses vec 2 ((7 ∷ []) ∷ [] ∷ []) (lit "abc") []
      (omega arith, (omega arith, tt)) (omega arith) (omega arith)

-- An echo is one byte, the execution of `hello.php` two; an answer is its number or its status, and
-- its body.
abbrev hello_request : Request
hello_request = Request.exec (record {
  method = get;
  script = lit "hello.php";
  uri = none;
  content_type = none;
  body = none;
})

abbrev small_requests : Codec Request
small_requests = record {
  to_vec = λ r. elim r [
    | Request.echo n ↦ ok (n ∷ [])
    | Request.exec e ↦ ok (0 ∷ 0 ∷ [])
    | Request.shutdown ↦ ok (0 ∷ 0 ∷ 0 ∷ [])
  ];
  from_slice = λ bytes. elim bytes [
    | [] ↦ err (lit "empty")
    | n ∷ [] ↦ ok (Request.echo n)
    | n ∷ m ∷ [] ↦ ok hello_request
    | n ∷ m ∷ k ∷ rest ↦ ok Request.shutdown
  ];
}

abbrev small_responses : Codec Response
small_responses = record {
  to_vec = λ r. elim r [
    | Response.echo n ↦ ok (n ∷ [])
    | Response.exec status body ↦ ok (status ∷ body)
    | Response.error e ↦ ok []
  ];
  from_slice = λ bytes. elim bytes [
    | [] ↦ err (lit "empty")
    | n ∷ [] ↦ ok (Response.echo n)
    | n ∷ b ∷ rest ↦ ok (Response.exec n (b ∷ rest))
  ];
}

-- The globals behind the request.
abbrev behind_hello : Sapi ℕ
behind_hello = record idle {
  request_info = record no_pointers { request_method = owned (lit "GET") };
  headers_sent = 1;
  post_read = 1;
  ini_entries = default_request.ini_overrides;
}

hello_handled :
    handle_request site hello_request idle
    ≡ done (some (Response.exec 200 (lit "hello"))) behind_hello
unfolding handle_request utf8 cstring echo path_as_cstring parse set position
hello_handled = refl

echo_handled :
    handle_request site (Request.echo 7) behind_hello ≡ done (some (Response.echo 7)) behind_hello
unfolding handle_request
echo_handled = refl

run_worker_loop-Handled_example :
    (run_worker_loop site small_requests small_responses vec
        (written small_requests (hello_request ∷ Request.echo 7 ∷ []) [])
        []
        idle
      ≡ done
          (broke
            (written small_responses (Response.exec 200 (lit "hello") ∷ Response.echo 7 ∷ []) []))
          behind_hello)
    × (read_each small_responses 2
          (written small_responses (Response.exec 200 (lit "hello") ∷ Response.echo 7 ∷ []) [])
        ≡ map ok (Response.exec 200 (lit "hello") ∷ Response.echo 7 ∷ []))
run_worker_loop-Handled_example =
    run_worker_loop-Handled site small_requests small_responses
      (hello_request ∷ Request.echo 7 ∷ []) (Response.exec 200 (lit "hello") ∷ Response.echo 7 ∷ [])
      idle behind_hello
      ((0 ∷ 0 ∷ [], refl, refl, omega arith), ((7 ∷ [], refl, refl, omega arith), tt))
      ((200 ∷ lit "hello", refl, refl, omega arith), ((7 ∷ [], refl, refl, omega arith), tt))
      (handled hello_handled (handled echo_handled served))

abbrev jobs : List (Job ℕ)
jobs =
    record {
      asked = hello_request ∷ [];
      answers = Response.exec 200 (lit "hello") ∷ [];
      before = idle;
      behind = behind_hello;
    }
    ∷ record {
      asked = Request.echo 7 ∷ [];
      answers = Response.echo 7 ∷ [];
      before = behind_hello;
      behind = behind_hello;
    }
    ∷ []

abbrev shutdown_encoded : IsEncodable small_requests Request.shutdown
shutdown_encoded = (0 ∷ 0 ∷ 0 ∷ [], refl, refl, omega arith)

drop_all-AllExit_example : AllExit site small_requests small_responses shutdown_encoded jobs (
    drop_all small_requests vec
      (map (worker_of site small_requests small_responses shutdown_encoded) jobs))
drop_all-AllExit_example =
    drop_all-AllExit site small_requests small_responses shutdown_encoded jobs (
      (
        ((0 ∷ 0 ∷ [], refl, refl, omega arith), tt),
        ((200 ∷ lit "hello", refl, refl, omega arith), tt),
        handled hello_handled served,
      ),
      (
        (
          ((7 ∷ [], refl, refl, omega arith), tt),
          ((7 ∷ [], refl, refl, omega arith), tt),
          handled echo_handled served,
        ),
        tt,
      ),
    )

-- Workers that count their requests.
abbrev count_up : Request → ℕ → Option (Response × ℕ)
count_up req k = some (Response.echo k, suc k)

send_all-each_once_example :
    send_all count_up
      (Request.echo 1 ∷ Request.echo 2 ∷ [])
      (record { workers = 10 ∷ 20 ∷ []; next = 0 })
    ≡ restarted count_up (each_once count_up (Request.echo 1 ∷ Request.echo 2 ∷ []) (10 ∷ 20 ∷ []))
send_all-each_once_example =
    send_all-each_once count_up (Request.echo 1 ∷ Request.echo 2 ∷ []) (10 ∷ 20 ∷ []) refl
