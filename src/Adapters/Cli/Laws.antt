-- ===== src/Adapters/Cli/Laws.antt =====
-- The variables and the outcomes of command-line requests (src/adapters/cli.rs).
use ripht_php_sapi.Prelude.{
  ◌+◌, ◌≡◌, refl, true, false, Option, none, some, [], ◌∷◌, length, arith, get_or, ok,
}
use ripht_php_sapi.Text.{Str, lit, str_eq, join}
use ripht_php_sapi.Text.Decimal.{decimal}
use ripht_php_sapi.Text.FilePath.{FileSystem, file_name}
use ripht_php_sapi.Vars.{ServerVars}
use ripht_php_sapi.Vars.Lookup.{var, var-set, IsTracked, set-IsTracked, new_vars-IsTracked}
use ripht_php_sapi.Vars.Builders.{Now, cli_defaults}
use ripht_php_sapi.Execution.Context.{ExecutionContext}
use ripht_php_sapi.Adapters.Cli.{CliRequest, add_pwd, build_vars, build}

add_pwd-IsTracked : (o : Option Str) (s : ServerVars) → IsTracked s → IsTracked (add_pwd o s)
unfolding add_pwd
add_pwd-IsTracked none s h = h
add_pwd-IsTracked (some wd) s h = search set-IsTracked

-- The tracked fields of a command-line request are the values of their variables.
pub build_vars-IsTracked_cli :
    (now : Now) (filename : Str) (r : CliRequest) → IsTracked (build_vars now filename r)
unfolding build_vars cli_defaults
build_vars-IsTracked_cli now filename r =
    search (add_pwd-IsTracked, set-IsTracked, new_vars-IsTracked) depth 20

-- What a script reads of a command-line request in the variables.
pub record DescribesCli (name filename : Str) (r : CliRequest) (s : ServerVars) : Type 0 where
  pub argc : var (lit "argc") s ≡ some (decimal (length r.argv + 1))
  pub argv : var (lit "argv") s ≡ some (join (lit " ") (name ∷ r.argv))
  pub script_name : var (lit "SCRIPT_NAME") s ≡ some name
  pub script_filename : var (lit "SCRIPT_FILENAME") s ≡ some filename
  pub path_translated : var (lit "PATH_TRANSLATED") s ≡ some filename

var-add_pwd :
    (k : Str) (o : Option Str) (s : ServerVars)
    → str_eq (lit "PWD") k ≡ false
    → var k (add_pwd o s) ≡ var k s
unfolding add_pwd
var-add_pwd k none s h = refl
var-add_pwd k (some wd) s h = simp (var-set, h)

-- Whatever the request, a script reads the number of its arguments and itself, its name and the
-- arguments in a row, and its path, under the names of these variables.
pub build_vars-DescribesCli :
    (now : Now) (filename : Str) (r : CliRequest)
    → DescribesCli (get_or (file_name filename) []) filename r (build_vars now filename r)
unfolding build_vars cli_defaults str_eq
build_vars-DescribesCli now filename r = record {
  argc = simp (var-add_pwd, var-set) (ground arith);
  argv = simp (var-add_pwd, var-set) (ground arith);
  script_name = simp (var-add_pwd, var-set) (ground arith);
  script_filename = simp (var-add_pwd, var-set) (ground arith);
  path_translated = simp (var-add_pwd, var-set) (ground arith);
}

-- A context that is built has an existing script, the request's input and environment, and logs to
-- the standard error.
pub build-ok_cli :
    (fs : FileSystem) (now : Now) (r : CliRequest) (path : Str) (ctx : ExecutionContext)
    → build fs now r path ≡ ok ctx
    → (fs.exists path ≡ true)
      × (ctx.script_path ≡ path)
      × (ctx.input ≡ r.stdin)
      × (ctx.env_vars ≡ r.env_vars)
      × (ctx.log_to_stderr ≡ true)
unfolding build
build-ok_cli fs now r path ctx h = ground arith
