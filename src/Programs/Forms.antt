-- ===== src/Programs/Forms.antt =====
-- examples/post_form.rs, examples/post_json.rs and examples/file_upload.rs. The crate serde_json and
-- the clock are parameters.
use ripht_php_sapi.Prelude.{
  ℕ, zero, suc, ◌+◌, ◌/◌, ◌%◌, Option, none, some, [], ◌∷◌, ◌++◌, ◌==◌, ltb, if◌then◌else◌, Result,
}
use ripht_php_sapi.Text.{Str, Bytes, lit}
use ripht_php_sapi.Text.Decimal.{decimal}
use ripht_php_sapi.Text.Utf8.{utf8, from_utf8_lossy}
use ripht_php_sapi.Execution.Result.{ExecutionResult, body_string}
use ripht_php_sapi.Adapters.Web.{WebRequest, with_content_type, with_body}
use ripht_php_sapi.Adapters.Web.Methods
use ripht_php_sapi.Sapi.State.{done}
use ripht_php_sapi.Programs.{
  Place, Program, ◌>>=◌, ◌>>◌, println, eprintln, start, perform, php_script_path,
}

-- A POST request with a body of some type.
unfoldable pub post_request : Str → Bytes → WebRequest
unfolding with_content_type with_body
post_request content_type body = with_body body (with_content_type content_type Methods.post)

abbrev pub form_body : Str
form_body = lit "name=John%20Doe&email=john%40example.com&message=Hello%20from%20Rust!"

-- `{:x}`; more fuel than digits is enough.
unfoldable hex_digit : ℕ → ℕ
hex_digit d = if ltb d 10 then 48 + d else 87 + d

hex_digits : ℕ → ℕ → Str → Str
unfolding hex_digit
hex_digits zero n rest = rest
hex_digits (suc fuel) n rest =
    let more = hex_digits fuel (n / 16) (hex_digit (n % 16) ∷ rest) in
    if ltb n 16 then hex_digit n ∷ rest else more

-- `generate_boundary`, by the nanoseconds since the epoch.
unfoldable pub generate_boundary : ℕ → Str
unfolding hex_digits
generate_boundary nanos = lit "----multipart-form-boundary-" ++ hex_digits (suc nanos) nanos []

-- The body of a form with one file.
unfoldable pub multipart_body : Str → Str → Bytes → Bytes
unfolding utf8 from_utf8_lossy
multipart_body boundary filename content = utf8 (
    lit "--"
    ++ (boundary
        ++ (lit "\r\nContent-Disposition: form-data; name=\"file\"; filename=\""
            ++ (filename
                ++ (lit "\"\r\nContent-Type: text/plain\r\n\r\n"
                    ++ (from_utf8_lossy content
                        ++ (lit "\r\n--" ++ (boundary ++ lit "--\r\n"))))))))

unfoldable pub upload_request : Str → WebRequest
unfolding post_request multipart_body
upload_request boundary = post_request (lit "multipart/form-data; boundary=" ++ boundary) (
    multipart_body boundary (lit "test.txt") (lit "Hello, this is a test file uploaded from Rust!"))

module _ {C : Type 0} where
  -- The two lines behind a success, or one on the standard error.
  unfoldable pub report : Str → Str → ExecutionResult → Program C (Unit {0})
  unfolding body_string decimal
  report success failure result =
      if result.status == 200
      then println success >> println (lit "Response: " ++ body_string result)
      else eprintln (failure ++ decimal result.status)

  main_form : Place C → Program C (Unit {0})
  unfolding start perform post_request utf8 report
  main_form place = do
    sapi ← start place
    result ←
        perform place sapi (post_request (lit "application/x-www-form-urlencoded") (utf8 form_body))
          (php_script_path place (lit "post_form.php"))
    report (lit "Form submitted successfully") (lit "Request failed with status: ") result

  main_upload : ℕ → Place C → Program C (Unit {0})
  unfolding start perform generate_boundary upload_request report
  main_upload nanos place = do
    sapi ← start place
    result ←
        perform place sapi (upload_request (generate_boundary nanos))
          (php_script_path place (lit "file_upload.php"))
    report (lit "File uploaded successfully") (lit "Upload failed with status: ") result

  -- `?` on a result with the text of its error.
  abbrev or_error : {A : Type 0} → Result Str A → Program C A
  or_error r out = done (r, out)

  print_json : ExecutionResult → Option (Result Str Str) → Program C (Unit {0})
  unfolding body_string
  print_json result none = println (lit "Body: " ++ body_string result)
  print_json result (some pretty) = or_error pretty >>= λ text. println (lit "Response:\n" ++ text)

  -- With the feature serde; `encoded` is the JSON of the data, and `pretty` a text as JSON, printed
  -- with indentation, if it is JSON.
  main_json : Result Str Bytes → (Str → Option (Result Str Str)) → Place C → Program C (Unit {0})
  unfolding start perform post_request decimal body_string print_json
  main_json encoded pretty place = do
    sapi ← start place
    body ← or_error encoded
    result ←
        perform place sapi (post_request (lit "application/json") body)
          (php_script_path place (lit "post_json.php"))
    println (lit "Status: " ++ decimal result.status)
    print_json result (pretty (body_string result))
