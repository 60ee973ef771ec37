-- ===== src/Execution/Result/Http.antt =====
-- `into_http_response` of src/execution/result.rs. The builder of the crate `http` is a parameter.
use ripht_php_sapi.Prelude.{ℕ, List, [], ◌∷◌, Option, none, some}
use ripht_php_sapi.Text.{Str, Bytes}
use ripht_php_sapi.Execution.Header.{ResponseHeader}
use ripht_php_sapi.Execution.Result.{ExecutionResult}

-- `http::Response::builder()` and `http::Response::new`; the body of a builder with an error gives no
-- response.
pub record HttpBuilder (B R : Type 0) : Type 0 where
  pub builder : B
  pub status : ℕ → B → B
  pub header : Str → Str → B → B
  pub body : Bytes → B → Option R
  pub new : Bytes → R

module _ {B R : Type 0} (http : HttpBuilder B R) where
  unfoldable pub put_headers : List ResponseHeader → B → B
  put_headers [] b = b
  put_headers (h ∷ headers) b = put_headers headers (http.header h.name h.value b)

  abbrev pub or_empty : Option R → R
  or_empty (some r) = r
  or_empty none = http.new []

  unfoldable pub into_http_response : ExecutionResult → R
  unfolding put_headers
  into_http_response result =
      or_empty (
        http.body result.body (put_headers result.headers (http.status result.status http.builder)))
