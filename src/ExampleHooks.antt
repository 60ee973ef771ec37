-- ===== src/ExampleHooks.antt =====
-- `ComprehensiveHooks` of examples/hooks_comprehensive.rs: hooks that print every event, filter a
-- header and count errors and warnings. The texts of the elapsed times are a parameter, by the number
-- of lines that were printed.
pub mod Effects
pub mod Observer
use Prim.Native.String.{String}
use ripht_php_sapi.Prelude.{
  ℕ, ◌+◌, Bool, true, false, not, ◌||◌, List, [], ◌∷◌, ◌++◌, length, any, take, min, ltb,
  if◌then◌else◌, get_or,
}
use ripht_php_sapi.Text.{Str, Bytes, lit}
use ripht_php_sapi.Text.Ascii.{eq_ignore_ascii_case, trim}
use ripht_php_sapi.Text.Decimal.{decimal}
use ripht_php_sapi.Text.FilePath.{file_name}
use ripht_php_sapi.Text.Utf8.{from_utf8_lossy}
use ripht_php_sapi.Execution.Message.{
  ExecutionMessage, level_str, is_error_or_worse, is_warning_or_worse,
}
use ripht_php_sapi.Execution.Result.{ExecutionResult}
use ripht_php_sapi.Execution.Hooks.{ExecutionHooks, OutputAction, continue}

pub record ComprehensiveHooks : Type 0 where
  pub connection_alive : Bool
  pub filtered_headers : List Str
  pub error_count : ℕ
  pub warning_count : ℕ
  pub printed : List Str

-- `ComprehensiveHooks::new()`.
abbrev pub new_hooks : ComprehensiveHooks
new_hooks = record {
  connection_alive = true;
  filtered_headers = lit "X-Powered-By" ∷ [];
  error_count = 0;
  warning_count = 0;
  printed = [];
}

module _ (elapsed : ℕ → Str) where
  -- `println!` of a line behind the elapsed time.
  abbrev pub print : Str → ComprehensiveHooks → ComprehensiveHooks
  print text h = record h {
    printed = h.printed ++ (lit "[" ++ (elapsed (length h.printed) ++ (lit "μs] " ++ text))) ∷ [];
  }

  unfoldable pub on_script_executing : Str → ComprehensiveHooks → ComprehensiveHooks
  unfolding file_name
  on_script_executing path h = print (lit "Script executing: " ++ get_or (file_name path) []) h

  unfoldable pub on_output : Bytes → ComprehensiveHooks → OutputAction × ComprehensiveHooks
  unfolding from_utf8_lossy trim decimal
  on_output bytes h =
      let preview = trim (from_utf8_lossy (take (min (length bytes) 50) bytes)) in
      let ellipsis = if ltb 50 (length bytes) then lit "..." else lit "" in
      (
        continue,
        print
            (lit "Output received: "
              ++ (decimal (length bytes)
                  ++ (lit " bytes (preview: \"" ++ (preview ++ (ellipsis ++ lit "\")")))))
            h,
      )

  unfoldable pub should_include : ComprehensiveHooks → Str → Bool
  unfolding any eq_ignore_ascii_case
  should_include h name = not (any (λ f. eq_ignore_ascii_case f name) h.filtered_headers)

  unfoldable pub on_header : Str → Str → ComprehensiveHooks → Bool × ComprehensiveHooks
  unfolding should_include
  on_header name value h =
      let kept = should_include h name in
      let kind = if kept then lit "Header (included): " else lit "Header (filtered): " in
      (kept, print (kind ++ (name ++ (lit ": " ++ value))) h)

  unfoldable pub count_message : ExecutionMessage → ComprehensiveHooks → ComprehensiveHooks
  unfolding is_error_or_worse is_warning_or_worse
  count_message m h =
      if is_error_or_worse m.level
      then record h { error_count = h.error_count + 1 }
      else if is_warning_or_worse m.level
      then record h { warning_count = h.warning_count + 1 }
      else h

  unfoldable pub on_php_message : ExecutionMessage → ComprehensiveHooks → ComprehensiveHooks
  unfolding count_message level_str
  on_php_message m h =
      print (lit "PHP [" ++ (level_str m.level ++ (lit "]: " ++ m.message))) (count_message m h)

  abbrev pub print_summary : ComprehensiveHooks → ComprehensiveHooks
  print_summary h =
      if ltb 0 h.error_count || ltb 0 h.warning_count
      then record h {
        printed =
            h.printed
            ++ (lit "\n  Summary: "
                ++ (decimal h.error_count
                    ++ (lit " errors, " ++ (decimal h.warning_count ++ lit " warnings"))))
              ∷ [];
      }
      else h

  unfoldable pub on_request_finished : ExecutionResult → ComprehensiveHooks → ComprehensiveHooks
  unfolding decimal
  on_request_finished result h = print_summary (
      print
        (lit "Request finished: status="
          ++ (decimal result.status
              ++ (lit ", body="
                  ++ (decimal (length result.body)
                      ++ (lit " bytes, headers="
                          ++ (decimal (length result.headers)
                              ++ (lit ", messages=" ++ decimal (length result.messages))))))))
        h)

  -- `impl ExecutionHooks for ComprehensiveHooks`.
  unfoldable pub comprehensive_hooks : ExecutionHooks ComprehensiveHooks
  unfolding on_script_executing on_output on_header on_php_message on_request_finished decimal
  comprehensive_hooks = record {
    on_context_created = print (lit "Context created");
    on_request_starting = print (lit "Request starting");
    on_request_started = print (lit "Request started");
    on_script_executing = on_script_executing;
    on_script_executed = λ success.
        print (lit "Script executed: " ++ (if success then lit "SUCCESS" else lit "FAILED"));
    on_output = on_output;
    on_flush = print (lit "Flush called");
    on_header = on_header;
    on_status = λ code. print (lit "HTTP Status: " ++ decimal code);
    on_php_message = on_php_message;
    is_connection_alive = λ h. h.connection_alive;
    on_request_finishing =
        print (lit "Request finishing (php_request_shutdown about to be called)");
    on_request_finished = on_request_finished;
  }
