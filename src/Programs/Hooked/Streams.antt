-- ===== src/Programs/Hooked/Streams.antt =====
-- examples/streaming_output.rs, whose closure prints the chunks, and
-- examples/hooks_streaming_callback.rs, whose closure counts and prints them.
use ripht_php_sapi.Prelude.{ℕ, ◌+◌, true, List, [], ◌∷◌, ◌++◌, length}
use ripht_php_sapi.Text.{Bytes, lit}
use ripht_php_sapi.Text.Decimal.{decimal}
use ripht_php_sapi.Text.Utf8.{from_utf8_lossy}
use ripht_php_sapi.Execution.Context.{ExecutionContext}
use ripht_php_sapi.Execution.Hooks.{streaming_callback}
use ripht_php_sapi.Execution.Result.{ExecutionResult}
use ripht_php_sapi.Adapters.Web.Methods
use ripht_php_sapi.Sapi.Context.{Closure}
use ripht_php_sapi.Sapi.State.{and_then, done}
use ripht_php_sapi.Sapi.Instance.{Module}
use ripht_php_sapi.Sapi.Api
use ripht_php_sapi.Programs.{
  Print, stdout, Place, Program, ◌>>=◌, ◌>>◌, println, start, build_request, execute_with_hooks,
  or_execution_error, php_script_path,
}

-- The closure of streaming_output.rs, by what it has printed.
unfoldable print_chunk : Closure Bytes (List Print)
unfolding from_utf8_lossy
print_chunk = record {
  fn = λ chunk printed. (true, printed ++ stdout (from_utf8_lossy chunk) ∷ []);
  env = [];
}

-- `sapi.execute_streaming(exec, closure)?`
execute_streaming :
    Place (List Print) → Module → ExecutionContext → Program (List Print) ExecutionResult
unfolding Api.execute_streaming or_execution_error print_chunk
execute_streaming place m ctx out s =
    and_then (Api.execute_streaming place.engine place.policy place.files m ctx print_chunk s)
      (λ outcome. done (or_execution_error outcome.0, out ++ outcome.1))

main_streaming : Place (List Print) → Program (List Print) (Unit {0})
unfolding start build_request execute_streaming
main_streaming place = do
  sapi ← start place
  exec ← build_request place Methods.get (php_script_path place (lit "streaming.php"))
  println (lit "Executing PHP script with streaming output...\n")
  result ← execute_streaming place sapi exec
  println (lit "\n\nStreaming complete")

-- The closure of hooks_streaming_callback.rs: the number of chunks, and what it has printed.
count_chunk : Bytes → ℕ × List Print → ℕ × List Print
unfolding decimal from_utf8_lossy
count_chunk chunk (chunk_count, printed) = (
  chunk_count + 1,
  printed
      ++ stdout (
          lit "[Chunk "
          ++ (decimal (chunk_count + 1)
              ++ (lit "] "
                  ++ (decimal (length chunk)
                      ++ (lit " bytes: " ++ (from_utf8_lossy chunk ++ lit "\n"))))))
        ∷ [],
)

main_callback : {C : Type 0} → Place C → Program C (Unit {0})
unfolding start build_request execute_with_hooks count_chunk decimal
main_callback place = do
  sapi ← start place
  exec ← build_request place Methods.get (php_script_path place (lit "hello.php"))
  println (lit "=== StreamingCallback Helper Demo ===\n")
  println (lit "Using StreamingCallback to wrap a closure for output handling.\n")
  result ←
      execute_with_hooks place sapi (streaming_callback count_chunk) (λ (h : ℕ × List Print). h.1)
        exec (0, [])
  println (lit "\n--- Result ---")
  println (lit "Status: " ++ decimal result.status)
  println (lit "Body length: " ++ decimal (length result.body))
  println (lit "Headers: " ++ decimal (length result.headers))
