-- ===== src/Sapi/Instance/Once.antt =====
-- PHP is initialised once (`init` of src/sapi/mod.rs).
use ripht_php_sapi.Prelude.{
  ◌≡◌, not, Bool, true, false, none, List, [], ◌∷◌, arith, Result, ok, err,
}
use ripht_php_sapi.Text.{lit}
use ripht_php_sapi.Prelude.Int.{ℤ}
use ripht_php_sapi.Sapi.Executor.{is_failure}
use ripht_php_sapi.Sapi.Instance.{
  SapiError, initialization_failed, Module, ModuleCall, sapi_startup, php_module_startup,
  sapi_shutdown, init, start_module, is_initialized,
}

-- Each attempt to initialise, by the codes that PHP would answer.
pub init_all : List ℤ → Module → Module
unfolding init
init_all [] m = m
init_all (code ∷ codes) m = init_all codes (init code m).1

-- The calls of PHP for the one attempt, and its result.
abbrev pub made : Bool → List ModuleCall
made true = sapi_startup ∷ php_module_startup ∷ sapi_shutdown ∷ []
made false = sapi_startup ∷ php_module_startup ∷ []

abbrev pub outcome : Bool → Result SapiError (Unit {0})
outcome true = err (initialization_failed (lit "SAPI module initialization failed"))
outcome false = ok tt

-- A module that was never initialised is initialised afterwards exactly if PHP's startup does not
-- report a failure.
pub is_initialized-init :
    (code : ℤ) (m : Module)
    → m.init_result ≡ none
    → is_initialized (init code m).1 ≡ not (is_failure code)
unfolding init start_module is_initialized
is_initialized-init code m h = ground arith
