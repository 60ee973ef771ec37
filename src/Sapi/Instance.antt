-- ===== src/Sapi/Instance.antt =====
-- `RiphtSapi` of src/sapi/mod.rs: the initialisation of PHP, which is done once, and INI settings.
pub mod Once
use Prim.Native.String.{String}
use ripht_php_sapi.Prelude.{
  ℕ, ◌≡◌, refl, ◌∙◌, Bool, true, false, not, Option, none, some, List, [], ◌∷◌, ◌++◌, ltb,
  if◌then◌else◌, get_or, arith, Result, ok, err,
}
use ripht_php_sapi.Prelude.Int.{ℤ, pos, negsuc}
use ripht_php_sapi.Text.{Str, Bytes, lit}
use ripht_php_sapi.Text.Utf8.{utf8, cstring, from_utf8, from_utf8_lossy}
use ripht_php_sapi.Execution.Context.{ExecutionContext}
use ripht_php_sapi.Sapi.Executor.{is_failure}

-- The entries that the module hands to PHP.
abbrev pub ini_entries : Str
ini_entries =
    lit
      "variables_order=EGPCS\nrequest_order=GP\noutput_buffering=4096\nimplicit_flush=0\nhtml_errors=0\ndisplay_errors=1\nlog_errors=1\n"

pub data SapiError : Type 0 where
  not_initialized : SapiError
  initialization_failed : Str → SapiError
  invalid_ini_key : SapiError
  invalid_ini_value : SapiError
  ini_set_failed : Str → SapiError
  library_not_found : SapiError

-- The calls of PHP that `init` and `shutdown` make.
pub data ModuleCall : Type 0 where
  sapi_startup php_module_startup sapi_shutdown php_module_shutdown : ModuleCall

-- `PHP_INIT_RESULT`, whose `none` is a cell that was never set, and the calls that were made.
pub record Module : Type 0 where
  pub init_result : Option (Result SapiError (Unit {0}))
  pub calls : List ModuleCall

-- What the closure of `get_or_init` does, by what `php_module_startup` returns.
unfoldable pub start_module : ℤ → Module → Result SapiError (Unit {0}) × Module
start_module code m =
    if is_failure code
    then (
      err (initialization_failed (lit "SAPI module initialization failed")),
      record m { calls = m.calls ++ sapi_startup ∷ php_module_startup ∷ sapi_shutdown ∷ [] },
    )
    else (ok tt, record m { calls = m.calls ++ sapi_startup ∷ php_module_startup ∷ [] })

-- `init`, for the code that `php_module_startup` would return.
unfoldable pub init : ℤ → Module → Result SapiError (Unit {0}) × Module
unfolding start_module
init code m = elim m.init_result [
  | some result ↦ (result, m)
  | none ↦
      let (result, m') = start_module code m in (result, record m' { init_result = some result })
]

unfoldable pub is_initialized : Module → Bool
is_initialized m = elim m.init_result [
  | none ↦ false
  | some result ↦ elim result [ ok _ ↦ true | err _ ↦ false ]
]

-- `.expect("SAPI initialization failure")`; `none` is a panic.
unfoldable pub expect_init : Result SapiError (Unit {0}) × Module → Option Module
expect_init (ok _, m) = some m
expect_init (err e, m) = none

-- `RiphtSapi::instance()`.
unfoldable pub sapi_instance : ℤ → Module → Option Module
unfolding init expect_init
sapi_instance code m = expect_init (init code m)

unfoldable pub shutdown : Module → Module
shutdown m = record m { calls = m.calls ++ php_module_shutdown ∷ sapi_shutdown ∷ [] }

-- `Executor::new`, whose success is a borrow of the instance.
unfoldable pub executor : Module → Result SapiError (Unit {0})
unfolding is_initialized
executor m = if not (is_initialized m) then err not_initialized else ok tt

-- PHP's settings: the interned name of a key (`none` for a null one), and what it answers to a change.
pub record Settings (S : Type 0) : Type 0 where
  pub interned : Bytes → S → Bool
  pub alter : Bytes → Bytes → S → ℤ × S
  pub read : Bytes → S → Option Bytes

module _ {S : Type 0} (settings : Settings S) where
  abbrev ini_error : Bytes → Result SapiError (Unit {0})
  ini_error key = err (ini_set_failed (get_or (from_utf8 key) []))

  unfoldable set_entry : Bytes → Bytes → S → Result SapiError (Unit {0}) × S
  unfolding from_utf8
  set_entry key value s =
      let (code, s') = settings.alter key value s in
      (
        elim code [ pos n ↦ if ltb 0 n then ini_error key else ok tt | negsuc n ↦ ini_error key ],
        s',
      )

  -- `set_ini`.
  unfoldable pub set_ini : Bytes → Bytes → S → Result SapiError (Unit {0}) × S
  unfolding cstring set_entry
  set_ini key value s = elim (cstring key) [
    | none ↦ (err invalid_ini_key, s)
    | some k ↦ elim (cstring value) [
      | none ↦ (err invalid_ini_value, s)
      | some v ↦ if settings.interned k s then set_entry k v s else (ini_error key, s)
    ]
  ]

  -- `get_ini`.
  unfoldable pub get_ini : Str → S → Option Str
  unfolding cstring utf8 from_utf8_lossy
  get_ini key s = elim (cstring (utf8 key)) [
    | none ↦ none
    | some k ↦ elim (settings.read k s) [ none ↦ none | some bytes ↦ some (from_utf8_lossy bytes) ]
  ]
