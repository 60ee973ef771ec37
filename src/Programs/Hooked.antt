-- ===== src/Programs/Hooked.antt =====
-- examples/hooks_output_handling.rs; examples/env_and_ini.rs, the programs that stream the output, and
-- the programs around the hooks of ExampleHooks in the child modules.
pub mod Environment
pub mod Streams
pub mod Observed
use Prim.Native.String.{String}
use ripht_php_sapi.Prelude.{ℕ, Bool, true, List, [], ◌∷◌, ◌++◌, length}
use ripht_php_sapi.Text.{Str, Bytes, lit}
use ripht_php_sapi.Text.Ascii.{Unicode, trim, to_uppercase}
use ripht_php_sapi.Text.Decimal.{decimal}
use ripht_php_sapi.Text.Utf8.{from_utf8_lossy}
use ripht_php_sapi.Execution.Hooks.{ExecutionHooks, OutputAction, no_op_hooks}
use ripht_php_sapi.Adapters.Method.{get}
use ripht_php_sapi.Adapters.Web.{new_request}
use ripht_php_sapi.Adapters.Web.Methods
use ripht_php_sapi.Programs.{
  Print, stdout, Place, Program, ◌>>=◌, ◌>>◌, println, start, build_request, execute_with_hooks,
  php_script_path,
}

pub record OutputTransformer : Type 0 where
  pub captured_output : Bytes
  pub printed : List Print

-- `OutputTransformer::new()`.
abbrev pub new_transformer : OutputTransformer
new_transformer = record { captured_output = []; printed = [] }

abbrev pub tell : Str → OutputTransformer → OutputTransformer
tell text h = record h {
  printed = h.printed ++ stdout (lit "[OutputTransformer] " ++ (text ++ lit "\n")) ∷ [];
}

module _ (u : Unicode) where
  unfoldable pub on_output : Bytes → OutputTransformer → OutputAction × OutputTransformer
  unfolding from_utf8_lossy trim to_uppercase
  on_output bytes h =
      let output_str = from_utf8_lossy bytes in
      let captured : OutputTransformer = record h { captured_output = bytes } in
      (
        OutputAction.done,
        tell (lit "Transformed: " ++ trim (to_uppercase u output_str))
            (tell (lit "Original: " ++ trim output_str) captured),
      )

  -- `impl ExecutionHooks for OutputTransformer`.
  unfoldable pub output_transformer : ExecutionHooks OutputTransformer
  unfolding on_output decimal
  output_transformer = record no_op_hooks {
    on_output = on_output;
    on_status = λ code. tell (lit "HTTP Status: " ++ decimal code);
    on_header = λ name value h. (true, tell (lit "Header: " ++ (name ++ (lit ": " ++ value))) h);
  }

-- `main` of hooks_output_handling.rs.
unfoldable pub main : {C : Type 0} → Place C → Program C (Unit {0})
unfolding start build_request execute_with_hooks output_transformer decimal
main place = do
  sapi ← start place
  exec ← build_request place Methods.get (php_script_path place (lit "hello.php"))
  println (lit "Executing with output transformation hooks...\n")
  result ←
      execute_with_hooks place sapi (output_transformer place.unicode)
        (λ (h : OutputTransformer). h.printed) exec new_transformer
  println (lit "\nExecution complete!")
  println (lit "Status: " ++ decimal result.status)
  println (
      lit "Body (empty because we returned [OutputAction::Done]): "
      ++ (decimal (length result.body) ++ lit " bytes"))
