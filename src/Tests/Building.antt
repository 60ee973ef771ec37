-- ===== src/Tests/Building.antt =====
-- The build script and the conversion of HTTP requests at concrete inputs.
use ripht_php_sapi.Prelude.{
  ◌≡◌, refl, true, false, any, none, some, [], ◌∷◌, if◌then◌else◌, ok, err,
}
use ripht_php_sapi.Text.{lit, str_eq}
use ripht_php_sapi.Adapters.Web.Http.{Parts}
use ripht_php_sapi.BuildScript.{Env, validate_php_prefix}
use ripht_php_sapi.BuildScript.Bindings.{Machine, main, no_php}
use ripht_php_sapi.BuildScript.Search.{places, main-ok}
use ripht_php_sapi.Tests.Data.{files}

-- An environment that names the directory for the output, and nothing else.
unfoldable out_only : Env
unfolding str_eq
out_only key = if str_eq key (lit "OUT_DIR") then some (lit "/out") else none

abbrev machine : Machine
machine = record {
  env = out_only;
  files = files;
  can_write = λ path. true;
  generate = λ header args. ok (lit "bindings");
  macos = false;
}

out_dir_set : out_only (lit "OUT_DIR") ≡ some (lit "/out")
unfolding out_only
out_dir_set = refl

no_docs : out_only (lit "DOCS_RS") ≡ none
unfolding out_only
no_docs = refl

main-ok_example :
    (main machine).1
    ≡ (if any (validate_php_prefix files) (places out_only) then ok tt else err no_php)
main-ok_example = main-ok machine (λ path. refl) (lit "/out") out_dir_set no_docs

abbrev parts : Parts
parts = record {
  method = lit "post";
  uri = lit "/p?a=1";
  headers = (lit "x", some (lit "1")) ∷ (lit "y", none) ∷ [];
}
