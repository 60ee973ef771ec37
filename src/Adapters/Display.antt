-- ===== src/Adapters/Display.antt =====
-- `Display` and `source` of the error types of src/adapters, for paths that are Unicode text.
use ripht_php_sapi.Prelude.{Option, none, some, ◌++◌, ◌⊎◌, inl, inr}
use ripht_php_sapi.Text.{Str, lit}
use ripht_php_sapi.Adapters.{
  WebRequestError, missing_method, invalid_method, CliRequestError, AdapterError,
  missing_configuration, invalid_configuration, web, cli,
}

unfoldable pub fmt_web : WebRequestError → Str
fmt_web missing_method = lit "HTTP method not specified"
fmt_web (invalid_method m) = lit "Invalid HTTP method: " ++ m
fmt_web (WebRequestError.script_not_found path) = lit "Script not found: " ++ path

unfoldable pub fmt_cli : CliRequestError → Str
fmt_cli (CliRequestError.script_not_found path) = lit "Script not found: " ++ path

unfoldable pub fmt : AdapterError → Str
unfolding fmt_web fmt_cli
fmt (AdapterError.script_not_found path) = lit "Script not found: " ++ path
fmt (missing_configuration field) = lit "Missing required configuration: " ++ field
fmt (invalid_configuration field value reason) =
    lit "Invalid configuration for '"
    ++ (field ++ (lit "' = '" ++ (value ++ (lit "': " ++ reason))))
fmt (web e) = lit "Web adapter error: " ++ fmt_web e
fmt (cli e) = lit "CLI adapter error: " ++ fmt_cli e

-- The error that another one wraps.
unfoldable pub source : AdapterError → Option (WebRequestError ⊎ CliRequestError)
source (web e) = some (inl e)
source (cli e) = some (inr e)
source _ = none

-- `From<WebRequestError>` and `From<CliRequestError>` for `AdapterError`.
unfoldable pub from_web : WebRequestError → AdapterError
from_web e = web e

unfoldable pub from_cli : CliRequestError → AdapterError
from_cli e = cli e
