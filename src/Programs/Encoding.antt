-- ===== src/Programs/Encoding.antt =====
-- examples/encoding_gaunlet.rs. The crate serde_json is a parameter: the field `received_query` of an
-- answer, if it is JSON.
pub mod RoundTrip
use Prim.Native.String.{String}
use ripht_php_sapi.Prelude.{
  ℕ, ◌+◌, ◌-◌, ◌/◌, ◌%◌, Bool, ◌||◌, ◌&&◌, Option, none, some, List, [], ◌∷◌, ◌++◌, length, leb,
  ltb, ◌==◌, if◌then◌else◌, get_or,
}
use ripht_php_sapi.Text.{Str, Bytes, lit, str_eq}
use ripht_php_sapi.Text.Decimal.{decimal}
use ripht_php_sapi.Text.Utf8.{utf8}
use ripht_php_sapi.Execution.Result.{ExecutionResult}
use ripht_php_sapi.Adapters.Method.{get, post}
use ripht_php_sapi.Adapters.Web.{WebRequest, new_request, with_uri}
use ripht_php_sapi.Adapters.Web.Methods
use ripht_php_sapi.Sapi.Instance.{Module}
use ripht_php_sapi.Programs.{
  Place, Program, ◌>>=◌, ◌>>◌, println, start, perform, php_script_path, dotted,
}
use ripht_php_sapi.Programs.Cases.{for_each}
use ripht_php_sapi.Programs.Forms.{post_request}

-- `u8::is_ascii_alphanumeric`.
abbrev pub is_ascii_alphanumeric : ℕ → Bool
is_ascii_alphanumeric b =
    (leb b'0' b && leb b b'9') || (leb b'A' b && leb b b'Z') || (leb b'a' b && leb b b'z')

abbrev pub is_plain : ℕ → Bool
is_plain b = is_ascii_alphanumeric b || b == b'-' || b == b'_' || b == b'.' || b == b'~'

-- A digit of `{:02X}`.
abbrev pub hex_upper : ℕ → ℕ
hex_upper d = if ltb d 10 then 48 + d else 55 + d

unfoldable pub encode_byte : ℕ → Str
encode_byte b = if is_plain b then b ∷ [] else b'%' ∷ hex_upper (b / 16) ∷ hex_upper (b % 16) ∷ []

unfoldable pub encode_bytes : Bytes → Str
unfolding encode_byte
encode_bytes [] = []
encode_bytes (b ∷ bs) = encode_byte b ++ encode_bytes bs

-- `percent_encode`.
unfoldable pub percent_encode : Str → Str
unfolding encode_bytes utf8
percent_encode s = encode_bytes (utf8 s)

-- Texts that are not laid out from left to right are written by their code points.
abbrev pub test_strings : List (Str × Str)
test_strings =
    (lit "UTF-8 basics", lit "Hello, 世界! 🌍")
    ∷ (lit "Cyrillic", lit "Привет мир")
    ∷ (lit "Arabic", 0x645 ∷ 0x631 ∷ 0x62d ∷ 0x628 ∷ 0x627 ∷ [])
    ∷ (
      lit "Mixed scripts",
      0x41f ∷ 0x440 ∷ 0x438 ∷ 0x432 ∷ 0x435 ∷ 0x442 ∷ 0x20 ∷ 0x645 ∷ 0x631 ∷ 0x62d ∷ 0x628 ∷ 0x627
          ∷ 0x20 ∷ 0x4f60 ∷ 0x597d ∷ [],
    )
    ∷ (
      lit "Emoji sequence",
      0x1f468 ∷ 0x200d ∷ 0x1f469 ∷ 0x200d ∷ 0x1f467 ∷ 0x200d ∷ 0x1f466 ∷ 0x20 ∷ 0x1f91e ∷ [],
    )
    ∷ (lit "Special chars", lit "Tab:\tQuote:\"Backslash:\\")
    ∷ []

unfoldable pub data_request : Str → WebRequest
unfolding with_uri percent_encode
data_request s = with_uri (lit "/?data=" ++ percent_encode s) Methods.get

abbrev json_body : Str
json_body = lit "{\"message\":\"Привет, мир! 🌍\",\"chinese\":\"你好世界\"}"

module _ {C : Type 0} (place : Place C) (received_query : Bytes → Option (Option Str)) where
  unfoldable data_line : Str → Str → ExecutionResult → Str
  unfolding dotted decimal str_eq
  data_line name s result =
      dotted 25 name
      ++ (lit " " ++ (elim (received_query result.body) [
        | none ↦ decimal result.status
        | some received ↦ if str_eq (get_or received (lit "?")) s then lit "OK" else lit "MISMATCH"
      ]))

  run_data : Module → Str → Str × Str → Program C (Unit {0})
  unfolding perform data_request data_line
  run_data sapi script (name, s) = do
    result ← perform place sapi (data_request s) script
    println (data_line name s result)

  main : Program C (Unit {0})
  unfolding start for_each run_data perform post_request utf8 decimal
  main = do
    sapi ← start place
    let script = php_script_path place (lit "encoding_gaunlet.php")
    println (lit "=== PHP Encoding Test ===\n")
    for_each test_strings (run_data sapi script)
    println (lit "\nPOST with UTF-8 JSON:")
    result ← perform place sapi (post_request (lit "application/json") (utf8 json_body)) script
    println (
        lit "  Status: "
        ++ (decimal result.status
            ++ (lit " (body: " ++ (decimal (length result.body) ++ lit " bytes)"))))
