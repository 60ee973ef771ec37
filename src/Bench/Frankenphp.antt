-- ===== src/Bench/Frankenphp.antt =====
-- The HTTP client of benches/shared/frankenphp.rs.
pub mod Server
use ripht_php_sapi.Prelude.{
  ℕ, ◌≡◌, ap, ◌∙◌, Option, none, some, [], ◌++◌, sym, append-nil, length, Result, ok,
}
use ripht_php_sapi.Text.{Str, Bytes, lit}
use ripht_php_sapi.Text.Decimal.{decimal}
use ripht_php_sapi.Text.Utf8.{utf8}
use ripht_php_sapi.Bench.{
  IoError, Write, to_option, vec, blank_line, header_end, behind_headers, behind_headers-append,
}
use ripht_php_sapi.Bench.Protocol.{Method, as_str}
use ripht_php_sapi.Bench.Fcgi.{◌>>=◌, put}

-- The lines about a body.
unfoldable pub content_lines : Option Bytes → Str
unfolding decimal
content_lines none = lit ""
content_lines (some b) =
    lit "Content-Type: application/json\r\nContent-Length: " ++ (decimal (length b) ++ lit "\r\n")

-- The text of the request, up to the body.
unfoldable pub request_head : Str → Method → ℕ → Option Bytes → Str
unfolding as_str decimal content_lines
request_head script method port body =
    as_str method
    ++ (lit " /"
        ++ (script
            ++ (lit " HTTP/1.1\r\nHost: 127.0.0.1:"
                ++ (decimal port
                    ++ (lit "\r\n" ++ (content_lines body ++ lit "Connection: close\r\n\r\n"))))))

unfoldable pub read_response : Result IoError Bytes → Option Bytes
unfolding behind_headers
read_response (ok response) = some (behind_headers response)
read_response _ = none

module _ {W : Type 0} (stream : Write W) where
  abbrev pub put_body : Option Bytes → W → Option W
  put_body none w = some w
  put_body (some b) w = put stream b w

  -- `http_execute`, on what `connect` and `read_to_end` return.
  unfoldable pub http_execute :
      ℕ → Option W → (W → Result IoError Bytes) → Str → Method → Option Bytes → Option Bytes
  unfolding request_head read_response utf8
  http_execute port connection server script method body = do
    w0 ← connection
    w1 ← put stream (utf8 (request_head script method port body)) w0
    w2 ← put_body body w1
    w3 ← to_option (stream.flush w2)
    read_response (server w3)

abbrev pub body_bytes : Option Bytes → Bytes
body_bytes none = []
body_bytes (some b) = b

-- The request that the server gets is the head and the body, and the answer is what stands behind
-- the blank line at the end of the header.
pub http_execute_lem :
    (port : ℕ)
    → (server : Bytes → Result IoError Bytes) → (script : Str) → (method : Method)
    → (body : Option Bytes) → (header content : Bytes)
    → server (utf8 (request_head script method port body) ++ body_bytes body)
      ≡ ok (header ++ (blank_line ++ content))
    → header_end (header ++ lit "\r\n\r") ≡ none
    → http_execute vec port (some []) server script method body ≡ some content
unfolding http_execute read_response
http_execute_lem port server script method none header content h k =
    ap (λ w. read_response (server w)) (sym (append-nil _))
    ∙ ap read_response h
    ∙ ap some (behind_headers-append header content k)
http_execute_lem port server script method (some b) header content h k =
    ap read_response h ∙ ap some (behind_headers-append header content k)
