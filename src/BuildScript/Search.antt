-- ===== src/BuildScript/Search.antt =====
-- Which PHP installation build.rs takes, and when the script panics.
use ripht_php_sapi.Prelude.{
  ◌≡◌, refl, ap, ◌∙◌, Bool, true, false, Option, none, some, List, [], ◌∷◌, if◌then◌else◌, is_some,
  find, any, arith, Result, ok, err, Bool-cases, inl, inr,
}
use ripht_php_sapi.Text.{Str, lit}
use ripht_php_sapi.Text.FilePath.{FileSystem, join_path}
use ripht_php_sapi.BuildScript.{
  Script, ◌>>=◌, ◌>>◌, Env, candidates, libphp, validate_php_prefix, find_php_prefix, prefix_or,
  say, link_libs, link_php_dependencies, link_platform_libraries, php_libs, go_on,
}
use ripht_php_sapi.BuildScript.Bindings.{
  Machine, write, write_bindings, run_bindgen, generate_for, include_dir,
  generate_bindgen_validation, search_lib_dir, link_library, generate_into, link_prefix,
  with_prefix, main, no_php,
}

-- The places to look at, in order: the prefix of the environment first, where it is set.
abbrev pub put_first : Option Str → List Str → List Str
put_first none rest = rest
put_first (some prefix) rest = prefix ∷ rest

abbrev pub places : Env → List Str
places env = put_first (env (lit "RIPHT_PHP_SAPI_PREFIX")) (candidates env)

prefix_or-put_first :
    (files : FileSystem) (o : Option Str) (rest : List Str)
    → (prefix_or files o rest).1 ≡ ok (find (validate_php_prefix files) (put_first o rest))
unfolding prefix_or find
prefix_or-put_first files none rest = refl
prefix_or-put_first files (some prefix) rest =
    elim (Bool-cases (validate_php_prefix files prefix)) [
      | inl valid ↦ rw valid refl
      | inr invalid ↦ rw invalid refl
    ]

-- The prefix that is found is the first valid one of the places.
pub find_php_prefix-places :
    (files : FileSystem) (env : Env)
    → (find_php_prefix files env).1 ≡ ok (find (validate_php_prefix files) (places env))
unfolding find_php_prefix
find_php_prefix-places files env =
    prefix_or-put_first files (env (lit "RIPHT_PHP_SAPI_PREFIX")) (candidates env)

-- The value of a part that does not panic goes to the next part.
then-ok :
    {A B : Type 0} (m : Script A) {a : A} {r : Result Str B} (k : A → Script B)
    → m.1 ≡ ok a
    → (k a).1 ≡ r
    → (m >>= k).1 ≡ r
then-ok m k e f = ap (λ x. (go_on m.0 x k).1) e ∙ f

link_libs-ok :
    (files : FileSystem) (lib_dir : Str) (libs : List Str)
    → (link_libs files lib_dir libs).1 ≡ ok tt
unfolding link_libs
link_libs-ok files lib_dir [] = refl
link_libs-ok files lib_dir (l ∷ libs) = ground (arith, link_libs-ok files lib_dir libs)

platform-ok : (macos : Bool) → (link_platform_libraries macos).1 ≡ ok tt
unfolding link_platform_libraries
platform-ok true = refl
platform-ok false = refl

search_lib_dir-ok : (m : Machine) (lib_dir : Str) → (search_lib_dir m lib_dir).1 ≡ ok tt
unfolding search_lib_dir
search_lib_dir-ok m lib_dir = ground arith

library_exists :
    (files : FileSystem) (prefix : Str)
    → validate_php_prefix files prefix ≡ true
    → files.exists (libphp files prefix) ≡ true
unfolding validate_php_prefix
library_exists files prefix h = ground arith

module _ (m : Machine) (writes : (path : Str) → m.can_write path ≡ true) where
  write-ok : (path text message : Str) → (write m path text message).1 ≡ ok tt
  unfolding write
  write-ok path text message = ground (arith, writes path)

  write_bindings-ok : (path : Str) (r : Result Str Str) → (write_bindings m path r).1 ≡ ok tt
  unfolding write_bindings
  write_bindings-ok path (ok text) = then-ok (write m path text _) _ (write-ok path text _) refl
  write_bindings-ok path (err e) = write-ok path _ _

  run_bindgen-ok : (out_dir dir : Str) → (run_bindgen m out_dir dir).1 ≡ ok tt
  unfolding run_bindgen
  run_bindgen-ok out_dir dir = then-ok _ _ (write-ok _ _ _) (write_bindings-ok _ _)

  generate_for-ok : (out_dir : Str) (dir : Option Str) → (generate_for m out_dir dir).1 ≡ ok tt
  unfolding generate_for
  generate_for-ok out_dir none = write-ok _ _ _
  generate_for-ok out_dir (some dir) = run_bindgen-ok out_dir dir

  module _ (out_dir : Str) (e : m.env (lit "OUT_DIR") ≡ some out_dir) where
    generate-ok : (prefix : Str) → (generate_bindgen_validation m prefix).1 ≡ ok tt
    unfolding generate_bindgen_validation generate_into
    generate-ok prefix =
        ap (λ o. (generate_into m o (include_dir m prefix)).1) e
        ∙ generate_for-ok out_dir (include_dir m prefix)

    link_library-ok : (prefix : Str) → (link_library m prefix true).1 ≡ ok tt
    unfolding link_library link_php_dependencies
    link_library-ok prefix =
        then-ok (link_php_dependencies m.files (join_path prefix (lit "lib")))
          (λ _. link_platform_libraries m.macos >> generate_bindgen_validation m prefix)
          (link_libs-ok m.files (join_path prefix (lit "lib")) php_libs)
          (then-ok (link_platform_libraries m.macos) (λ _. generate_bindgen_validation m prefix)
            (platform-ok m.macos) (generate-ok prefix))

    link_prefix-ok :
        (prefix : Str)
        → validate_php_prefix m.files prefix ≡ true
        → (link_prefix m prefix).1 ≡ ok tt
    unfolding link_prefix
    link_prefix-ok prefix h =
        then-ok (search_lib_dir m (join_path prefix (lit "lib")))
          (λ _. link_library m prefix (m.files.exists (libphp m.files prefix)))
          (search_lib_dir-ok m (join_path prefix (lit "lib")))
          (ap (λ b. (link_library m prefix b).1) (library_exists m.files prefix h)
            ∙ link_library-ok prefix)

    with_prefix-find :
        (ps : List Str)
        → (with_prefix m (find (validate_php_prefix m.files) ps)).1
          ≡ (if any (validate_php_prefix m.files) ps then ok tt else err no_php)
    unfolding with_prefix find any
    with_prefix-find [] = refl
    with_prefix-find (p ∷ ps) = elim (Bool-cases (validate_php_prefix m.files p)) [
      | inl valid ↦ rw valid (link_prefix-ok p valid)
      | inr invalid ↦ rw invalid (with_prefix-find ps)
    ]

    -- Outside of docs.rs, with OUT_DIR set and files that can be written, the build script ends well
    -- if one of the places is a valid prefix, and else panics with the message that there is none.
    pub main-ok :
        m.env (lit "DOCS_RS") ≡ none
        → (main m).1
          ≡ (if any (validate_php_prefix m.files) (places m.env) then ok tt else err no_php)
    unfolding main
    main-ok h =
        ap (λ o. (search o).1) h
        ∙ then-ok (find_php_prefix m.files m.env) (with_prefix m)
            (find_php_prefix-places m.files m.env) (with_prefix-find (places m.env))
      where
        search : Option Str → Script (Unit {0})
        search o =
            if is_some o
            then say (lit "cargo:warning=Building docs - skipping PHP linking")
            else (find_php_prefix m.files m.env >>= with_prefix m)
