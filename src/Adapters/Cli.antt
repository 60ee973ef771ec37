-- ===== src/Adapters/Cli.antt =====
-- `CliRequest` of src/adapters/cli.rs: the builder of command-line requests.
pub mod Laws
use Prim.Native.String.{String}
use ripht_php_sapi.Prelude.{
  ℕ, ◌+◌, Bool, true, false, not, Option, none, some, List, [], ◌∷◌, ◌++◌, length, if◌then◌else◌,
  get_or, Result, ok, err,
}
use ripht_php_sapi.Text.{Str, Bytes, lit, join}
use ripht_php_sapi.Text.FilePath.{FileSystem, file_name}
use ripht_php_sapi.Vars.{ServerVars}
use ripht_php_sapi.Vars.Builders.{
  Now, ◌▸◌, script_filename, script_name, path_translated, argc, argv, pwd, cli_defaults,
}
use ripht_php_sapi.Execution.Context.{ExecutionContext}
use ripht_php_sapi.Adapters.{CliRequestError}

pub record CliRequest : Type 0 where
  pub stdin : Bytes
  pub argv : List Str
  pub working_dir : Option Str
  pub env_vars : List (Str × Str)
  pub ini_overrides : List (Str × Str)

-- `CliRequest::new()`.
abbrev pub default_cli : CliRequest
default_cli = record {
  stdin = [];
  argv = [];
  working_dir = none;
  env_vars = [];
  ini_overrides =
      (lit "html_errors", lit "0")
      ∷ (lit "display_errors", lit "1")
      ∷ (lit "implicit_flush", lit "1")
      ∷ (lit "max_input_time", lit "-1")
      ∷ (lit "output_buffering", lit "0")
      ∷ (lit "max_execution_time", lit "0")
      ∷ [];
}

unfoldable pub with_arg : Str → CliRequest → CliRequest
with_arg s r = record r { argv = r.argv ++ s ∷ [] }

unfoldable pub with_args : List Str → CliRequest → CliRequest
with_args ss r = record r { argv = r.argv ++ ss }

unfoldable pub with_stdin : Bytes → CliRequest → CliRequest
with_stdin bytes r = record r { stdin = bytes }

unfoldable pub with_env : Str → Str → CliRequest → CliRequest
with_env key value r = record r { env_vars = r.env_vars ++ (key, value) ∷ [] }

unfoldable pub with_envs : List (Str × Str) → CliRequest → CliRequest
with_envs kvs r = record r { env_vars = r.env_vars ++ kvs }

unfoldable pub with_ini : Str → Str → CliRequest → CliRequest
with_ini key value r = record r { ini_overrides = r.ini_overrides ++ (key, value) ∷ [] }

unfoldable pub with_ini_overrides : List (Str × Str) → CliRequest → CliRequest
with_ini_overrides kvs r = record r { ini_overrides = r.ini_overrides ++ kvs }

unfoldable pub with_working_dir : Str → CliRequest → CliRequest
with_working_dir path r = record r { working_dir = some path }

unfoldable pub add_pwd : Option Str → ServerVars → ServerVars
add_pwd none s = s
add_pwd (some wd) s = pwd wd s

-- The variables, from the canonical path of the script.
unfoldable pub build_vars : Now → Str → CliRequest → ServerVars
unfolding cli_defaults file_name join add_pwd
build_vars now filename r =
    let name = get_or (file_name filename) [] in
    cli_defaults now
    ▸ script_filename filename
    ▸ script_name name
    ▸ path_translated filename
    ▸ argc (length r.argv + 1)
    ▸ argv (join (lit " ") (name ∷ r.argv))
    ▸ add_pwd r.working_dir

unfoldable pub build : FileSystem → Now → CliRequest → Str → Result CliRequestError ExecutionContext
unfolding build_vars
build fs now r script_path =
    if not (fs.exists script_path)
    then err (CliRequestError.script_not_found script_path)
    else ok (record {
      script_path = script_path;
      server_vars = build_vars now (get_or (fs.canonicalize script_path) script_path) r;
      input = r.stdin;
      env_vars = r.env_vars;
      ini_overrides = r.ini_overrides;
      log_to_stderr = true;
    })
