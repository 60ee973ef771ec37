-- ===== src/BuildScript.antt =====
-- build.rs: the search for a PHP installation, and what the script prints for Cargo and writes. The
-- environment, the file system and bindgen are parameters.
pub mod Bindings
pub mod Search
use Prim.Native.String.{String}
use ripht_php_sapi.Prelude.{
  Bool, ◌&&◌, not, Option, none, some, List, [], ◌∷◌, ◌++◌, if◌then◌else◌, is_some, get_or, find,
  Result, ok, err,
}
use ripht_php_sapi.Text.{Str, lit}
use ripht_php_sapi.Text.FilePath.{FileSystem, join_path}

-- A printed line, or a file that is written with its text.
pub data Event : Type 0 where
  line : Str → Event
  written : Str → Str → Event

-- What a part of the script does, and its value or the message of its panic, without the error that
-- `expect` adds to it.
abbrev pub Script : Type 0 → Type 0
Script A = List Event × Result Str A

abbrev pub pure : {A : Type 0} → A → Script A
pure a = ([], ok a)

abbrev pub say : Str → Script (Unit {0})
say text = (line text ∷ [], ok tt)

abbrev pub panic : {A : Type 0} → Str → Script A
panic message = ([], err message)

abbrev pub go_on : {A B : Type 0} → List Event → Result Str A → (A → Script B) → Script B
go_on before (ok a) k = (before ++ (k a).0, (k a).1)
go_on before (err e) k = (before, err e)

infixl 5 ◌>>=◌ ◌>>◌
abbrev pub ◌>>=◌ : {A B : Type 0} → Script A → (A → Script B) → Script B
m >>= k = go_on m.0 m.1 k

abbrev pub ◌>>◌ : {B : Type 0} → Script (Unit {0}) → Script B → Script B
m >> k = m >>= λ _. k

abbrev pub Env : Type 0
Env = Str → Option Str

abbrev pub candidates : Env → List Str
candidates env =
    let home = get_or (env (lit "HOME")) (lit "/root") in
    (home ++ lit "/.ripht/php") ∷ (home ++ lit "/.local/php") ∷ lit "/usr/local" ∷ []

-- The libraries in the order in which they are linked.
abbrev pub php_libs : List Str
php_libs =
    lit "charset"
    ∷ lit "iconv"
    ∷ lit "z"
    ∷ lit "crypto"
    ∷ lit "ssl"
    ∷ lit "curl"
    ∷ lit "xml2"
    ∷ lit "bz2"
    ∷ lit "zip"
    ∷ lit "sqlite3"
    ∷ lit "pgcommon"
    ∷ lit "pgport"
    ∷ lit "pq"
    ∷ lit "png16"
    ∷ lit "png"
    ∷ lit "onig"
    ∷ lit "gmp"
    ∷ lit "ncurses"
    ∷ lit "edit"
    ∷ lit "icudata"
    ∷ lit "icuuc"
    ∷ lit "icuio"
    ∷ lit "icutu"
    ∷ lit "icui18n"
    ∷ []

module _ (files : FileSystem) where
  unfoldable pub libphp : Str → Str
  unfolding join_path
  libphp prefix = join_path (join_path prefix (lit "lib")) (lit "libphp.a")

  unfoldable pub validate_php_prefix : Str → Bool
  unfolding libphp
  validate_php_prefix prefix = files.exists prefix && files.exists (libphp prefix)

  -- The prefix of the environment, where it is valid, and the first valid candidate otherwise.
  unfoldable pub prefix_or : Option Str → List Str → Script (Option Str)
  unfolding validate_php_prefix find
  prefix_or none candidates = pure (find validate_php_prefix candidates)
  prefix_or (some prefix) candidates =
      if validate_php_prefix prefix
      then pure (some prefix)
      else (say (lit "RIPHT_PHP_SAPI_PREFIX set but invalid: " ++ prefix)
          >> pure (find validate_php_prefix candidates))

  unfoldable pub find_php_prefix : Env → Script (Option Str)
  unfolding prefix_or
  find_php_prefix env = prefix_or (env (lit "RIPHT_PHP_SAPI_PREFIX")) (candidates env)

  -- The loop of `link_php_dependencies` on a list of libraries.
  unfoldable pub link_libs : Str → List Str → Script (Unit {0})
  unfolding join_path
  link_libs lib_dir [] = pure tt
  link_libs lib_dir (l ∷ libs) =
      let rest = link_libs lib_dir libs in
      if files.exists (join_path lib_dir (lit "lib" ++ (l ++ lit ".a")))
      then say (lit "cargo:rustc-link-lib=static=" ++ l) >> rest
      else rest

  unfoldable pub link_php_dependencies : Str → Script (Unit {0})
  unfolding link_libs
  link_php_dependencies lib_dir = link_libs lib_dir php_libs

-- `link_platform_libraries`, for a target that is macOS or not.
unfoldable pub link_platform_libraries : Bool → Script (Unit {0})
link_platform_libraries macos =
    if macos
    then (do
      say (lit "cargo:rustc-link-lib=resolv")
      say (lit "cargo:rustc-link-lib=iconv")
      say (lit "cargo:rustc-link-lib=z")
      say (lit "cargo:rustc-link-lib=c++")
      say (lit "cargo:rustc-link-lib=framework=CoreFoundation")
      say (lit "cargo:rustc-link-lib=framework=SystemConfiguration"))
    else pure tt
