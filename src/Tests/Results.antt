-- ===== src/Tests/Results.antt =====
-- Messages, headers, results and the display of contexts at concrete inputs.
use ripht_php_sapi.Prelude.{◌≡◌, refl, none, some, ◌∷◌, ◌++◌, arith}
use ripht_php_sapi.Text.{lit, contains}
use ripht_php_sapi.Text.Ascii.{trim, is_ascii_whitespace}
use ripht_php_sapi.Execution.Header.{parse}
use ripht_php_sapi.Execution.Header.Laws.{header_line, parse-header_line}
use ripht_php_sapi.Execution.Context.Display.{shown_value}
use ripht_php_sapi.Execution.Context.Display.Laws.{shown_value-panics}
use ripht_php_sapi.Tests.Data.{first_byte_of}

parse-header_line_example :
    parse first_byte_of (header_line (lit "A") (lit " ") (lit "b"))
    ≡ some (record { name = lit "A"; value = lit "b" })
unfolding contains trim is_ascii_whitespace
parse-header_line_example =
    parse-header_line first_byte_of (λ needle haystack. refl) (lit "A") (lit " ") (lit "b")
      (ground arith) (ground arith) (λ e. ground arith) refl refl (refl, tt) refl

-- 56 letters, a euro sign, and three more.
shown_value-panics_example :
    shown_value (lit "aaaaaaaaaaaaaaaaaaaaaaaaaaaaaaaaaaaaaaaaaaaaaaaaaaaaaaaa" ++ 8364 ∷ lit "aaa")
    ≡ none
shown_value-panics_example =
    shown_value-panics (lit "aaaaaaaaaaaaaaaaaaaaaaaaaaaaaaaaaaaaaaaaaaaaaaaaaaaaaaaa") 8364
      (lit "aaa") (ground arith) refl (ground arith) (ground arith)
