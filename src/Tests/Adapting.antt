-- ===== src/Tests/Adapting.antt =====
-- The builders of requests and the variables at concrete inputs.
use ripht_php_sapi.Prelude.{◌≡◌, refl, some, [], ◌∷◌}
use ripht_php_sapi.Text.{lit}
use ripht_php_sapi.Text.Ascii.{Unicode}
use ripht_php_sapi.Text.FilePath.{file_name}
use ripht_php_sapi.Vars.Lookup.{var, IsTracked}
use ripht_php_sapi.Vars.Builders.Laws.{is_header_var}
use ripht_php_sapi.Adapters.Method.{post}
use ripht_php_sapi.Adapters.Web.{WebRequest, new_request}
use ripht_php_sapi.Adapters.Web.Build.{build_vars}
use ripht_php_sapi.Adapters.Web.Build.Variables.{build_vars-IsTracked}
use ripht_php_sapi.Adapters.Web.Build.Forging.{build_vars_forging}
use ripht_php_sapi.Adapters.Web.Build.Description.{Describes, build_vars-Describes}
use ripht_php_sapi.Adapters.Cli
use ripht_php_sapi.Adapters.Cli.{default_cli}
use ripht_php_sapi.Adapters.Cli.Laws.{DescribesCli, build_vars-DescribesCli}
use ripht_php_sapi.Tests.Data.{clock}

-- A mapping that leaves every char as it is.
abbrev same : Unicode
same c = c ∷ []

abbrev posted : WebRequest
posted = record (new_request post) { uri = some (lit "/p?a=1"); body = lit "xy" }

build_vars-Describes_example :
    Describes post (lit "/w/i.php") posted (build_vars same clock post (lit "/w/i.php") posted)
build_vars-Describes_example = build_vars-Describes same clock post (lit "/w/i.php") posted

build_vars_forging_example :
    var (lit "SCRIPT_FILENAME") (
      build_vars same clock post
        (lit "/w/i.php")
        (record posted { headers = (lit "X", lit "y") ∷ []; cookies = []; body = [] }))
    ≡ var (lit "SCRIPT_FILENAME") (build_vars same clock post (lit "/w/i.php") posted)
unfolding is_header_var
build_vars_forging_example =
    build_vars_forging same clock post (lit "/w/i.php") posted ((lit "X", lit "y") ∷ []) [] []
      (lit "SCRIPT_FILENAME") refl

build_vars-IsTracked_example : IsTracked (build_vars same clock post (lit "/w/i.php") posted)
build_vars-IsTracked_example = build_vars-IsTracked same clock post (lit "/w/i.php") posted

build_vars-DescribesCli_example :
    DescribesCli
      (lit "i.php")
      (lit "/w/i.php")
      (record default_cli { argv = lit "-v" ∷ [] })
      (Cli.build_vars clock (lit "/w/i.php") (record default_cli { argv = lit "-v" ∷ [] }))
unfolding file_name
build_vars-DescribesCli_example =
    build_vars-DescribesCli clock (lit "/w/i.php") (record default_cli { argv = lit "-v" ∷ [] })
