-- ===== src/Tests/Running.antt =====
-- The programs of examples/ at concrete inputs.
use ripht_php_sapi.Prelude.{
  ℕ, ◌≡◌, refl, true, none, some, List, [], ◌∷◌, ◌++◌, inl, length, map, All, arith, ok,
}
use ripht_php_sapi.Prelude.Int.{pos}
use ripht_php_sapi.Text.{Str, Bytes, lit}
use ripht_php_sapi.Text.Ascii.{trim, is_whitespace}
use ripht_php_sapi.Text.Utf8.{utf8, cstring, from_utf8}
use ripht_php_sapi.Vars.{ServerVars}
use ripht_php_sapi.Vars.Lookup.{var}
use ripht_php_sapi.Execution.Context.{ExecutionContext, script}
use ripht_php_sapi.Adapters.Web.Methods
use ripht_php_sapi.Sapi.Context.{from_context}
use ripht_php_sapi.Sapi.State.{Sapi}
use ripht_php_sapi.Execution.Result.{ExecutionResult}
use ripht_php_sapi.Adapters.Method.{get}
use ripht_php_sapi.Adapters.Web.{with_raw_cookie_header}
use ripht_php_sapi.Adapters.Web.Build.{build_vars}
use ripht_php_sapi.Sapi.Engine.Live.{IsStatus, Returns}
use ripht_php_sapi.Sapi.Instance.{
  Module, sapi_instance, is_initialized, sapi_startup, php_module_startup,
}
use ripht_php_sapi.Sapi.Execute.Completion.{IsIdle}
use ripht_php_sapi.Bench.{vec}
use ripht_php_sapi.Programs.{Place, php_script_path}
use ripht_php_sapi.Programs.Running.{IsRunnable}
use ripht_php_sapi.Programs.Cases.{main}
use ripht_php_sapi.Programs.Cases.Recovery.{recovery_report, main-Recovers}
use ripht_php_sapi.Programs.Encoding.{percent_encode, data_request}
use ripht_php_sapi.Programs.Encoding.RoundTrip.{percent_decode, IsSafe, data_request-query}
use ripht_php_sapi.Programs.Server.{Connection, lines_of, read_head, serve}
use ripht_php_sapi.Programs.Server.Serving.{answered, serve-answered}
use ripht_php_sapi.Tests.Data.{files, clock, idle, live, php, small_policy}
use ripht_php_sapi.Tests.Requests.{php-Starts}

abbrev ascii : ℕ → Str
ascii c = c ∷ []

data_request-query_example :
    (var
        (lit "QUERY_STRING")
        (build_vars ascii clock get (lit "/w/a.php") (data_request (lit "é ?")))
      ≡ some (lit "data=" ++ percent_encode (lit "é ?")))
    × (percent_decode (lit "data=" ++ percent_encode (lit "é ?")) ≡ lit "data=" ++ utf8 (lit "é ?"))
    × All IsSafe (percent_encode (lit "é ?"))
data_request-query_example =
    data_request-query ascii clock (lit "/w/a.php") (lit "é ?")
      (inl (omega arith), (inl (omega arith), (inl (omega arith), tt)))

-- A response that starts a session.
abbrev session_started : ExecutionResult
session_started = record {
  status = 200;
  body = [];
  headers = record { name = lit "set-cookie"; value = lit "PHPSESSID=a1; path=/" } ∷ [];
  messages = [];
}

abbrev session_vars : ServerVars
session_vars =
    build_vars ascii clock get (lit "/w/a.php")
      (with_raw_cookie_header (lit "PHPSESSID=a1") Methods.get)

abbrev session_context : ExecutionContext
session_context = record (script (lit "/w/a.php")) { server_vars = session_vars }

abbrev session_state : Sapi ℕ
session_state = record live { box = some (from_context small_policy session_context) }

abbrev place : Place ℕ
place = record {
  unicode = ascii;
  files = files;
  now = clock;
  manifest_dir = lit "/w";
  engine = php;
  policy = small_policy;
  startup_code = pos 0;
  module_cell = record { init_result = none; calls = [] };
}

abbrev begun : Module
begun = record { init_result = some (ok tt); calls = sapi_startup ∷ php_module_startup ∷ [] }

instance_found : sapi_instance place.startup_code place.module_cell ≡ some begun
unfolding sapi_instance
instance_found = refl

begun_initialized : is_initialized begun ≡ true
unfolding is_initialized
begun_initialized = refl

shutdown-IsRunnable : IsRunnable files (php_script_path place (lit "shutdown_behavior.php"))
unfolding php_script_path utf8 cstring
shutdown-IsRunnable = (refl, (lit "/w/tests/php_scripts/shutdown_behavior.php", refl))

exception-IsRunnable : IsRunnable files (php_script_path place (lit "exception_handling.php"))
unfolding php_script_path utf8 cstring
exception-IsRunnable = (refl, (lit "/w/tests/php_scripts/exception_handling.php", refl))

hello-IsRunnable : IsRunnable files (php_script_path place (lit "hello.php"))
unfolding php_script_path utf8 cstring
hello-IsRunnable = (refl, (lit "/w/tests/php_scripts/hello.php", refl))

idle-IsIdle : IsIdle idle
idle-IsIdle = record { unpointed = refl; freed = refl }

main-Recovers_example :
    Returns
      (λ res s'.
        (results : List ExecutionResult) × (last : ExecutionResult) × (length results ≡ 7)
        × All (λ (r : ExecutionResult). IsStatus r.status) (last ∷ results)
        × (res ≡ (ok tt, recovery_report place results last []))
        × IsIdle s')
      (main place [] idle)
main-Recovers_example =
    main-Recovers place php-Starts begun [] idle instance_found
      (
        shutdown-IsRunnable,
        (
          shutdown-IsRunnable,
          (
            shutdown-IsRunnable,
            (
              shutdown-IsRunnable,
              (exception-IsRunnable, (exception-IsRunnable, (shutdown-IsRunnable, tt))),
            ),
          ),
        ),
      )
      hello-IsRunnable idle-IsIdle

-- A request of a client, and one whose first line is not UTF-8.
abbrev browser : Connection Bytes
browser = record { received = lines_of (lit "GET / HTTP/1.1\r\nHost: a\r\n\r\n"); stream = [] }

abbrev garbled : Connection Bytes
garbled = record { received = lines_of (255 ∷ 10 ∷ []); stream = [] }

browser_reads : read_head browser.received ≡ ok tt
unfolding read_head lines_of from_utf8 trim is_whitespace
browser_reads = refl

serve-answered_example :
    Returns
      (λ res s'.
        (results : List ExecutionResult) × (length results ≡ 2)
        × All (λ (q : ExecutionResult). IsStatus q.status) results
        × (res ≡ (ok (answered (browser ∷ browser ∷ []) results), []))
        × IsIdle s')
      (serve vec place begun
        (php_script_path place (lit "hello.php"))
        (map ok (browser ∷ browser ∷ []))
        []
        idle)
serve-answered_example =
    serve-answered place php-Starts begun begun_initialized
      (php_script_path place (lit "hello.php")) hello-IsRunnable (browser ∷ browser ∷ []) [] idle
      (browser_reads, (browser_reads, tt)) idle-IsIdle
