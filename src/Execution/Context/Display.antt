-- ===== src/Execution/Context/Display.antt =====
-- `impl Display for ExecutionContext` of src/execution/context.rs. A slice of a string at a position
-- inside a char panics; `none` stands for a panic.
pub mod Laws
use ripht_php_sapi.Prelude.{
  ℕ, zero, suc, ◌+◌, ◌-◌, ◌*◌, ◌/◌, ◌%◌, ◌<◌, ◌≤◌, ◌≡◌, ◌≢◌, refl, ◌∙◌, Bool, true, false, not,
  ◌&&◌, ◌||◌, Option, none, some, List, [], ◌∷◌, ◌++◌, take, length, min, arith, ◌==◌, leb, ltb,
  if◌then◌else◌, All, map,
}
use ripht_php_sapi.Text.{Str, Bytes, lit}
use ripht_php_sapi.Text.Ascii.{is_control}
use ripht_php_sapi.Text.Decimal.{decimal}
use ripht_php_sapi.Text.Utf8.{utf8_char, utf8}
use ripht_php_sapi.Vars.{ServerVars, len}
use ripht_php_sapi.Execution.Context.{ExecutionContext}

hex_digit : ℕ → ℕ
hex_digit d = if ltb d 10 then 48 + d else 87 + d

-- `format!("\\x{:02x}", c as u32)`, at the chars below 256 that it is used for.
hex_escape : ℕ → Str
unfolding hex_digit
hex_escape c = lit "\\x" ++ (hex_digit (c / 16) ∷ hex_digit (c % 16) ∷ [])

unfoldable pub escape_char : ℕ → Str
unfolding is_control hex_escape
escape_char c = if is_control c && (not (c == 9) && not (c == 10)) then hex_escape c else c ∷ []

unfoldable pub escape_control_chars : Str → Str
unfolding escape_char
escape_control_chars [] = []
escape_control_chars (c ∷ s) = escape_char c ++ escape_control_chars s

abbrev cons_char : ℕ → Option Str → Option Str
cons_char c none = none
cons_char c (some s) = some (c ∷ s)

-- `&s[..n]`, in bytes: a panic past the end and inside a char.
unfoldable pub slice_to : Str → ℕ → Option Str
unfolding utf8_char
slice_to [] n = if n == 0 then some [] else none
slice_to (c ∷ s) n =
    let rest = cons_char c (slice_to s (n - length (utf8_char c))) in
    if n == 0 then some [] else if leb (length (utf8_char c)) n then rest else none

abbrev pub append_dots : Option Str → Option Str
append_dots none = none
append_dots (some s) = some (s ++ lit "...")

-- The value of a variable as it is printed: escaped, and cut to 57 bytes where it has more than 60.
unfoldable pub shown_value : Str → Option Str
unfolding escape_control_chars slice_to utf8
shown_value value =
    let escaped = escape_control_chars value in
    if ltb 60 (length (utf8 escaped)) then append_dots (slice_to escaped 57) else some escaped

abbrev cons_line : Str → Option Str → Option Str → Option Str
cons_line key (some v) (some rest) =
    some (lit "    " ++ (key ++ (lit " = \"" ++ (v ++ (lit "\"\n" ++ rest)))))
cons_line key _ _ = none

-- The lines of the variables that are shown, in front of the rest of the text.
var_lines : List (Str × Str) → Str → Option Str
unfolding shown_value
var_lines [] rest = some rest
var_lines ((key, value) ∷ vars) rest = cons_line key (shown_value value) (var_lines vars rest)

-- The line for the variables that are not shown, and the end of the list.
list_end : ℕ → ℕ → Str
list_end count shown =
    (if ltb shown count then lit "    ... (" ++ (decimal (count - shown) ++ lit " more)\n") else [])
    ++ lit "  ]\n"

abbrev prepend : Str → Option Str → Option Str
prepend s none = none
prepend s (some t) = some (s ++ t)

unfoldable pub display : ExecutionContext → Option Str
unfolding var_lines list_end decimal len
display c =
    let count = len c.server_vars in
    let shown = min count 15 in
    let ending = lit "  input: " ++ (decimal (length c.input) ++ lit " bytes\n}") in
    prepend (lit "ExecutionContext {\n  script: " ++ (c.script_path ++ lit "\n")) (
      if count == 0
      then some (lit "  server_vars: []\n" ++ ending)
      else prepend (lit "  server_vars: [\n")
          (var_lines (take shown c.server_vars.vars) (list_end count shown ++ ending)))
