-- ===== src/Execution/Context.antt =====
-- src/execution/context.rs: the parameters of an execution.
pub mod Display
use ripht_php_sapi.Prelude.{Bool, false, Option, none, some, List, [], ◌∷◌, ◌++◌}
use ripht_php_sapi.Text.{Str, Bytes}
use ripht_php_sapi.Text.Utf8.{utf8, cstring}
use ripht_php_sapi.Vars.{ServerVars, new_vars, set, extend}

pub record ExecutionContext : Type 0 where
  pub input : Bytes
  pub script_path : Str
  pub server_vars : ServerVars
  pub env_vars : List (Str × Str)
  pub ini_overrides : List (Str × Str)
  pub log_to_stderr : Bool

abbrev pub script : Str → ExecutionContext
script path = record {
  input = [];
  script_path = path;
  server_vars = new_vars;
  env_vars = [];
  ini_overrides = [];
  log_to_stderr = false;
}

unfoldable pub with_var : Str → Str → ExecutionContext → ExecutionContext
unfolding set
with_var key value c = record c { server_vars = set key value c.server_vars }

unfoldable pub with_vars : List (Str × Str) → ExecutionContext → ExecutionContext
unfolding extend
with_vars kvs c = record c { server_vars = extend kvs c.server_vars }

unfoldable pub with_input : Bytes → ExecutionContext → ExecutionContext
with_input bytes c = record c { input = bytes }

unfoldable pub with_env : Str → Str → ExecutionContext → ExecutionContext
with_env key value c = record c { env_vars = c.env_vars ++ (key, value) ∷ [] }

unfoldable pub with_envs : List (Str × Str) → ExecutionContext → ExecutionContext
with_envs kvs c = record c { env_vars = c.env_vars ++ kvs }

unfoldable pub with_ini : Str → Str → ExecutionContext → ExecutionContext
with_ini key value c = record c { ini_overrides = c.ini_overrides ++ (key, value) ∷ [] }

-- `path_as_cstring`; `none` stands for its error, `InvalidPath`.
unfoldable pub path_as_cstring : ExecutionContext → Option Bytes
unfolding utf8 cstring
path_as_cstring c = cstring (utf8 c.script_path)
