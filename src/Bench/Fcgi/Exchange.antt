-- ===== src/Bench/Fcgi/Exchange.antt =====
-- One exchange of `fcgi_execute` in benches/shared/fpm.rs with a FastCGI server.
use mathlib.Core.Bool.{true≢false}
use ripht_php_sapi.Prelude.{
  ℕ, ◌<◌, ◌≡◌, refl, sym, ap, ◌∙◌, Option, none, some, List, [], ◌∷◌, ◌++◌, map, length, All, arith,
  inl, append-nil, append_assoc, Result, ok,
}
use ripht_php_sapi.Prelude.{is_empty, false}
use ripht_php_sapi.Text.{Str, Bytes, lit}
use ripht_php_sapi.Bench.{
  IoError, vec, to_option, read_loop, behind_headers, behind_headers-append, header_end, blank_line,
}
use ripht_php_sapi.Bench.Protocol.{Method}
use ripht_php_sapi.Bench.Fcgi.{
  ◌>>=◌, begin, build_fcgi_params, fcgi_params, write_fcgi_record, write_body, write_records,
  extract_fcgi_stdout, fcgi_execute,
}
use ripht_php_sapi.Bench.Fcgi.Records.{
  record_bytes, write_fcgi_record-record_bytes, records, output_of, extract_fcgi_stdout-records,
}

-- The records of a request behind its beginning.
unfoldable pub body_records : Option Bytes → List (ℕ × Bytes)
body_records none = []
body_records (some b) = (5, b) ∷ []

unfoldable pub request_bytes : Bytes → Option Bytes → Bytes
unfolding records body_records
request_bytes params_data body =
    begin
    ++ (record_bytes 4 1 params_data
        ++ (record_bytes 4 1 [] ++ (records 1 (body_records body) ++ record_bytes 5 1 [])))

unfoldable pub concat : List Bytes → Bytes
concat [] = []
concat (c ∷ cs) = c ++ concat cs

-- Chunks that are not empty, and then the end of the stream or an error.
read_loop-ok :
    (chunks : List Bytes)
    → All (λ c. is_empty c ≡ false) chunks
    → read_loop (map ok chunks) ≡ concat chunks
unfolding read_loop concat
read_loop-ok [] h = refl
read_loop-ok ([] ∷ chunks) (h, hs) = absurd (true≢false h)
read_loop-ok ((b ∷ c) ∷ chunks) (h, hs) = ap (λ cs. (b ∷ c) ++ cs) (read_loop-ok chunks hs)

write_body_lem :
    (body : Option Bytes) (w : Bytes)
    → write_body vec body w ≡ some (w ++ records 1 (body_records body))
unfolding write_body records body_records
write_body_lem none w = ap some (sym (append-nil w))
write_body_lem (some b) w =
    write_fcgi_record-record_bytes 5 1 b w ∙ ap (λ r. some (w ++ r)) (sym (append-nil _))

bind-some :
    {A B : Type 0} {o : Option A} {a : A} {r : Option B} (k : A → Option B)
    → o ≡ some a
    → k a ≡ r
    → (o >>= k) ≡ r
bind-some k e f = ap (λ o. o >>= k) e ∙ f

write_records_lem :
    (params_data : Bytes) (body : Option Bytes)
    → write_records vec params_data body [] ≡ some (request_bytes params_data body)
unfolding write_records request_bytes
write_records_lem params_data body =
    let r1 = record_bytes 4 1 params_data in
    let r2 = record_bytes 4 1 [] in
    let r3 = records 1 (body_records body) in
    let last = record_bytes 5 1 [] in
    let w1 = begin ++ r1 in
    let w2 = w1 ++ r2 in
    let w3 = w2 ++ r3 in
    let flush : Bytes → Option Bytes = λ w. to_option (vec.flush w) in
    let end_body : Bytes → Option Bytes = λ w. write_fcgi_record vec 5 1 [] w >>= flush in
    let send_body : Bytes → Option Bytes = λ w. write_body vec body w >>= end_body in
    let end_params : Bytes → Option Bytes = λ w. write_fcgi_record vec 4 1 [] w >>= send_body in
    bind-some end_params (write_fcgi_record-record_bytes 4 1 params_data begin) (
      bind-some send_body (write_fcgi_record-record_bytes 4 1 [] w1) (
        bind-some end_body (write_body_lem body w2) (
          bind-some flush (write_fcgi_record-record_bytes 5 1 [] w3) (
            ap some (
              append_assoc w2 r3 last
              ∙ append_assoc w1 r2 (r3 ++ last)
              ∙ append_assoc begin r1 (r2 ++ (r3 ++ last)))))))

-- If the server answers the whole request, in chunks that are not empty, with records whose contents
-- are shorter than 2^16, and the output in them is a header without a blank line, a blank line and a
-- content, then the exchange returns that content.
pub fcgi_execute-records :
    (scripts_dir script : Str)
    → (method : Method) → (body : Option Bytes) → (server : Bytes → List (Result IoError Bytes))
    → (chunks : List Bytes) → (id : ℕ) → (rs : List (ℕ × Bytes)) → (header content : Bytes)
    → server (request_bytes (build_fcgi_params (fcgi_params scripts_dir script method body)) body)
      ≡ map ok chunks
    → All (λ c. is_empty c ≡ false) chunks
    → concat chunks ≡ records id rs
    → All (λ r. length (r.1) < 65536) rs
    → output_of rs ≡ header ++ (blank_line ++ content)
    → header_end (header ++ lit "\r\n\r") ≡ none
    → fcgi_execute vec scripts_dir (some []) server script method body ≡ some content
unfolding fcgi_execute
fcgi_execute-records scripts_dir script method body server chunks id rs header content hs hc hr hl
      ho hh =
    let params_data = build_fcgi_params (fcgi_params scripts_dir script method body) in
    bind-some (λ w. extract_fcgi_stdout (read_loop (server w))) (write_records_lem params_data body)
      (ap (λ input. extract_fcgi_stdout (read_loop input)) hs
        ∙ ap extract_fcgi_stdout (read_loop-ok chunks hc ∙ hr ∙ sym (append-nil (records id rs)))
        ∙ extract_fcgi_stdout-records id rs [] hl (inl (omega arith))
        ∙ ap some (ap behind_headers ho ∙ behind_headers-append header content hh))
