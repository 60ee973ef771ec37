-- ===== src/Adapters/Validation/Examples.antt =====
-- The adapters `MinimalAdapter` and `AdvancedAdapter` of src/adapters/mod.rs, module `examples`.
use ripht_php_sapi.Prelude.{
  ℕ, ◌≤◌, ◌≡◌, Bool, true, false, ◌&&◌, ◌||◌, Option, none, some, List, [], ◌∷◌, ◌++◌, ltb, leb,
  if◌then◌else◌, arith, Result, ok, err,
}
use ripht_php_sapi.Text.{Str, lit, starts_with}
use ripht_php_sapi.Text.Decimal.{decimal}
use ripht_php_sapi.Text.FilePath.{FileSystem}
use ripht_php_sapi.Execution.Context.{
  ExecutionContext, script, with_var, with_env, with_envs, with_ini,
}
use ripht_php_sapi.Adapters.{AdapterError, missing_configuration, ◌>>=◌, ◌>>◌}
use ripht_php_sapi.Adapters.Validation.{validate_script_path, validate_non_empty, validate_field}

pub record MinimalAdapter : Type 0 where
  pub app_name : Option Str
  pub app_version : Str

abbrev pub new_minimal : MinimalAdapter
new_minimal = record { app_name = none; app_version = lit "1.0.0" }

unfoldable pub with_name : Str → MinimalAdapter → MinimalAdapter
with_name name a = record a { app_name = some name }

unfoldable pub with_version : Str → MinimalAdapter → MinimalAdapter
with_version version a = record a { app_version = version }

-- `app_name.ok_or_else(...)`.
unfoldable pub required : Str → Option Str → Result AdapterError Str
required field_name none = err (missing_configuration field_name)
required field_name (some value) = ok value

unfoldable pub build_minimal :
    FileSystem → MinimalAdapter → Str → Result AdapterError ExecutionContext
unfolding validate_script_path validate_non_empty required with_var with_env
build_minimal fs a script_path = do
  validated_path ← validate_script_path fs script_path
  app_name ← required (lit "app_name") a.app_name
  validate_non_empty (lit "app_name") app_name
  ok (
      with_env (lit "APPLICATION_ENV") (lit "custom") (
        with_var (lit "APP_VERSION") a.app_version
          (with_var (lit "APP_NAME") app_name (script validated_path))))

pub record AdvancedAdapter : Type 0 where
  pub database_url : Option Str
  pub max_connections : ℕ
  pub debug_mode : Bool
  pub env_vars : List (Str × Str)
  pub working_dir : Option Str

abbrev pub new_advanced : AdvancedAdapter
new_advanced = record {
  database_url = none;
  max_connections = 10;
  debug_mode = false;
  env_vars = [];
  working_dir = none;
}

unfoldable pub with_database_url : Str → AdvancedAdapter → AdvancedAdapter
with_database_url url a = record a { database_url = some url }

unfoldable pub with_max_connections : ℕ → AdvancedAdapter → AdvancedAdapter
with_max_connections limit a = record a { max_connections = limit }

unfoldable pub with_debug_mode : Bool → AdvancedAdapter → AdvancedAdapter
with_debug_mode debug a = record a { debug_mode = debug }

unfoldable pub with_adapter_env : Str → Str → AdvancedAdapter → AdvancedAdapter
with_adapter_env key value a = record a { env_vars = a.env_vars ++ (key, value) ∷ [] }

unfoldable pub with_working_dir : Str → AdvancedAdapter → AdvancedAdapter
with_working_dir path a = record a { working_dir = some path }

unfoldable pub is_database_url : Str → Bool
unfolding starts_with
is_database_url url = starts_with url (lit "postgres://") || starts_with url (lit "mysql://")

unfoldable pub validate_database_url : Option Str → Result AdapterError (Unit {0})
unfolding validate_field is_database_url
validate_database_url none = ok tt
validate_database_url (some db_url) =
    validate_field (λ url. url) (lit "database_url") db_url is_database_url
      (lit "must start with postgres:// or mysql://")

unfoldable pub add_database_url : Option Str → ExecutionContext → ExecutionContext
unfolding with_var
add_database_url none ctx = ctx
add_database_url (some db_url) ctx = with_var (lit "DATABASE_URL") db_url ctx

unfoldable pub add_working_dir : Option Str → ExecutionContext → ExecutionContext
unfolding with_env
add_working_dir none ctx = ctx
add_working_dir (some wd) ctx = with_env (lit "PWD") wd ctx

abbrev pub flag : Bool → Str
flag b = if b then lit "1" else lit "0"

unfoldable pub build_advanced :
    FileSystem → AdvancedAdapter → Str → Result AdapterError ExecutionContext
unfolding validate_script_path validate_database_url validate_field with_var with_ini with_envs
    add_database_url add_working_dir
build_advanced fs a script_path = do
  validated_path ← validate_script_path fs script_path
  validate_database_url a.database_url
  validate_field decimal (lit "max_connections") a.max_connections
      (λ max. ltb 0 max && leb max 1000) (lit "must be between 1 and 1000")
  let ctx : ExecutionContext = with_ini (lit "display_errors") (flag a.debug_mode) (
      with_ini (lit "log_errors") (flag a.debug_mode) (
        with_var (lit "DEBUG_MODE") (flag a.debug_mode)
          (with_var (lit "MAX_CONNECTIONS") (decimal a.max_connections) (script validated_path))))
  ok (add_working_dir a.working_dir (with_envs a.env_vars (add_database_url a.database_url ctx)))

-- A context that the advanced adapter builds with a database URL has a script that exists, a URL
-- with one of the two prefixes, and a number of connections in 1..=1000.
pub build_advanced-ok :
    (fs : FileSystem) (a : AdvancedAdapter) (path url : Str) (ctx : ExecutionContext)
    → build_advanced fs a path ≡ ok ctx
    → a.database_url ≡ some url
    → (fs.exists path ≡ true)
      × (is_database_url url ≡ true)
      × (1 ≤ a.max_connections)
      × (a.max_connections ≤ 1000)
unfolding build_advanced validate_script_path validate_database_url validate_field
build_advanced-ok fs a path url ctx h u = ground arith
