-- ===== src/Programs/Cases/Files.antt =====
-- examples/file_io.rs.
use ripht_php_sapi.Prelude.{List, [], ◌∷◌, ◌++◌}
use ripht_php_sapi.Text.{Str, lit}
use ripht_php_sapi.Execution.Result.{body_string}
use ripht_php_sapi.Adapters.Web.{WebRequest, with_uri}
use ripht_php_sapi.Adapters.Web.Methods
use ripht_php_sapi.Sapi.Instance.{Module}
use ripht_php_sapi.Programs.{Place, Program, ◌>>=◌, ◌>>◌, println, start, perform, php_script_path}
use ripht_php_sapi.Programs.Cases.{for_each}

-- The requests, with the line in front of their answer.
unfoldable reqs : List (WebRequest × Str)
unfolding with_uri
reqs =
    (with_uri (lit "/?action=readwrite") Methods.get, lit "Read/Write cycle:")
    ∷ (with_uri (lit "/?action=many_files&count=20") Methods.get, lit "Multiple files:")
    ∷ (with_uri (lit "/?action=large_file&size=512") Methods.get, lit "Large file (512KB):")
    ∷ (with_uri (lit "/?action=sqlite&rows=500") Methods.get, lit "SQLite (500 rows):")
    ∷ []

module _ {C : Type 0} (place : Place C) where
  run_request : Module → Str → WebRequest × Str → Program C (Unit {0})
  unfolding perform body_string
  run_request sapi script (req, msg) = do
    result ← perform place sapi req script
    println msg
    println (body_string result ++ lit "\n")

  main : Program C (Unit {0})
  unfolding start for_each run_request reqs
  main = do
    sapi ← start place
    println (lit "=== PHP File I/O Example ===\n")
    for_each reqs (run_request sapi (php_script_path place (lit "file_io.php")))
