-- ===== src/BuildScript/Bindings.antt =====
-- `generate_bindgen_validation` and `main` of build.rs.
use ripht_php_sapi.Prelude.{
  Bool, true, false, Option, none, some, List, [], ◌∷◌, ◌++◌, if◌then◌else◌, is_some, find, Result,
  ok, err,
}
use ripht_php_sapi.Text.{Str, lit}
use ripht_php_sapi.Text.FilePath.{FileSystem, join_path}
use ripht_php_sapi.BuildScript.{
  written, Script, pure, say, panic, ◌>>=◌, ◌>>◌, Env, libphp, find_php_prefix,
  link_php_dependencies, link_platform_libraries,
}

-- What the script finds in place: whether a file can be written, and what bindgen makes of a header
-- and the arguments of clang.
pub record Machine : Type 0 where
  pub env : Env
  pub files : FileSystem
  pub can_write : Str → Bool
  pub generate : Str → List Str → Result Str Str
  pub macos : Bool

abbrev pub out : Str → Str → Str
out dir name = join_path dir name

abbrev pub include_arg : Str → Str
include_arg dir = lit "-I" ++ dir

abbrev pub wrapper_content : Str → Str → Str
wrapper_content php_header sapi_header =
    lit "\n#include \"" ++ (php_header ++ (lit "\"\n#include \"" ++ (sapi_header ++ lit "\"\n")))

abbrev pub no_php : Str
no_php =
    lit
      "Could not locate a PHP build.\n\nSet RIPHT_PHP_SAPI_PREFIX to your PHP installation root containing:\n- lib/libphp.a (PHP embed SAPI)\n- include/php/ (PHP headers)\n\nBuild PHP with: ./configure --enable-embed=static --disable-zts"

abbrev pub no_library : Str → Str
no_library path =
    lit "ripht-php-sapi requires static linking but libphp.a was not found at: "
    ++ (path
        ++ lit
            "\nSet RIPHT_PHP_SAPI_PREFIX to a PHP prefix containing lib/libphp.a (embed SAPI built as static).")

module _ (m : Machine) where
  -- `fs::write(..).expect(..)`.
  unfoldable pub write : Str → Str → Str → Script (Unit {0})
  write path text message =
      if m.can_write path then (written path text ∷ [], ok tt) else panic message

  unfoldable pub sapi_header : Str → Str
  unfolding join_path
  sapi_header dir = join_path (join_path dir (lit "main")) (lit "SAPI.h")

  -- The first candidate that holds SAPI.h.
  unfoldable pub include_dir : Str → Option Str
  unfolding join_path find sapi_header
  include_dir prefix =
      find (λ dir. m.files.exists (sapi_header dir))
        (join_path (join_path prefix (lit "include")) (lit "php")
          ∷ join_path prefix (lit "php")
          ∷ [])

  unfoldable pub write_bindings : Str → Result Str Str → Script (Unit {0})
  unfolding write
  write_bindings output_path (ok text) = do
    write output_path text (lit "Failed to write bindgen validation output")
    say (lit "Generated bindgen validation at " ++ output_path)
    say (lit "cargo:rustc-cfg=bindgen_available")
  write_bindings output_path (err e) = do
    say (lit "cargo:warning=Bindgen generation failed: " ++ e)
    write output_path (lit "// Bindgen generation failed - see build warnings\n")
        (lit "Failed to write error stub")

  unfoldable pub run_bindgen : Str → Str → Script (Unit {0})
  unfolding write write_bindings join_path sapi_header
  run_bindgen out_dir dir = do
    let main_include = join_path dir (lit "main")
    let wrapper_path = out out_dir (lit "bindgen_wrapper.h")
    write wrapper_path (wrapper_content (join_path main_include (lit "php.h")) (sapi_header dir))
        (lit "Failed to write bindgen wrapper")
    write_bindings (out out_dir (lit "bindgen_validation.rs")) (
        m.generate wrapper_path (
          include_arg main_include
          ∷ include_arg (join_path dir (lit "Zend"))
          ∷ include_arg (join_path dir (lit "TSRM"))
          ∷ include_arg dir
          ∷ []))

  -- What is generated for the include directory that was found.
  unfoldable pub generate_for : Str → Option Str → Script (Unit {0})
  unfolding write run_bindgen join_path
  generate_for out_dir none = do
    say (lit "cargo:warning=PHP SAPI.h not found, writing stub bindgen_validation.rs")
    write (out out_dir (lit "bindgen_validation.rs"))
        (lit "// Bindgen validation skipped - PHP headers not available\n")
        (lit "Failed to write stub bindgen file")
  generate_for out_dir (some dir) = run_bindgen out_dir dir

  -- `OUT_DIR` is unwrapped first.
  unfoldable pub generate_into : Option Str → Option Str → Script (Unit {0})
  unfolding generate_for
  generate_into none dir = panic (lit "called `Result::unwrap()` on an `Err` value: NotPresent")
  generate_into (some out_dir) dir = generate_for out_dir dir

  unfoldable pub generate_bindgen_validation : Str → Script (Unit {0})
  unfolding generate_into include_dir
  generate_bindgen_validation prefix = generate_into (m.env (lit "OUT_DIR")) (include_dir prefix)

  -- The line about the directory, where it is there.
  unfoldable pub search_lib_dir : Str → Script (Unit {0})
  search_lib_dir lib_dir =
      if m.files.exists lib_dir
      then say (lit "cargo:rustc-link-search=native=" ++ lib_dir)
      else pure tt

  -- The rest of `main`, by whether libphp.a exists.
  unfoldable pub link_library : Str → Bool → Script (Unit {0})
  unfolding libphp link_php_dependencies link_platform_libraries generate_bindgen_validation
  link_library prefix false = panic (no_library (libphp m.files prefix))
  link_library prefix true = do
    say (lit "cargo:rustc-link-lib=static=php")
    say (lit "Linking against: " ++ libphp m.files prefix)
    link_php_dependencies m.files (join_path prefix (lit "lib"))
    link_platform_libraries m.macos
    generate_bindgen_validation prefix

  -- `main` behind the search for a prefix.
  unfoldable pub link_prefix : Str → Script (Unit {0})
  unfolding libphp search_lib_dir link_library join_path
  link_prefix prefix = do
    say (lit "Using PHP prefix: " ++ prefix)
    search_lib_dir (join_path prefix (lit "lib"))
    link_library prefix (m.files.exists (libphp m.files prefix))

  unfoldable pub with_prefix : Option Str → Script (Unit {0})
  unfolding link_prefix
  with_prefix none = panic no_php
  with_prefix (some prefix) = link_prefix prefix

  -- `main`.
  unfoldable pub main : Script (Unit {0})
  unfolding find_php_prefix with_prefix
  main = do
    say (lit "cargo:rerun-if-changed=build.rs")
    say (lit "cargo:rerun-if-env-changed=RIPHT_PHP_SAPI_PREFIX")
    say (lit "cargo:rustc-check-cfg=cfg(bindgen_available)")
    if is_some (m.env (lit "DOCS_RS"))
        then say (lit "cargo:warning=Building docs - skipping PHP linking")
        else (find_php_prefix m.files m.env >>= with_prefix)
