-- ===== src/Adapters/Validation.antt =====
-- The trait `PhpSapiAdapter` of src/adapters/mod.rs: its validations, its two implementations, and
-- the two example adapters of its documentation.
pub mod Examples
use ripht_php_sapi.Prelude.{Bool, not, Option, [], Result, ok, err, if◌then◌else◌, get_or, is_empty}
use ripht_php_sapi.Text.{Str}
use ripht_php_sapi.Text.Ascii.{Unicode}
use ripht_php_sapi.Text.FilePath.{FileSystem}
use ripht_php_sapi.Vars.Builders.{Now}
use ripht_php_sapi.Execution.Context.{ExecutionContext}
use ripht_php_sapi.Adapters.{
  AdapterError, missing_configuration, invalid_configuration, web, cli, map_err,
}
use ripht_php_sapi.Adapters.Web.{WebRequest}
use ripht_php_sapi.Adapters.Web.Build
use ripht_php_sapi.Adapters.Cli
use ripht_php_sapi.Adapters.Cli.{CliRequest}

-- `PhpSapiAdapter::build` of a type of adapters.
pub record PhpSapiAdapter (A : Type 0) : Type 0 where
  pub build_context : A → Str → Result AdapterError ExecutionContext

unfoldable pub validate_script_path : FileSystem → Str → Result AdapterError Str
validate_script_path fs path =
    if not (fs.exists path)
    then err (AdapterError.script_not_found path)
    else ok (get_or (fs.canonicalize path) path)

unfoldable pub validate_non_empty : Str → Str → Result AdapterError (Unit {0})
validate_non_empty field_name value =
    if is_empty value then err (missing_configuration field_name) else ok tt

-- `to_string` is the `Display` of the type of the value.
unfoldable pub validate_field :
    {T : Type 0} → (T → Str) → Str → T → (T → Bool) → Str → Result AdapterError (Unit {0})
validate_field to_string field_name value predicate error_reason =
    if predicate value
    then ok tt
    else err (invalid_configuration field_name (to_string value) error_reason)

abbrev pub web_adapter : Unicode → FileSystem → Now → PhpSapiAdapter WebRequest
web_adapter u fs now = record {
  build_context = λ r path. map_err web (Build.build u fs now r path);
}

abbrev pub cli_adapter : FileSystem → Now → PhpSapiAdapter CliRequest
cli_adapter fs now = record { build_context = λ r path. map_err cli (Cli.build fs now r path) }
