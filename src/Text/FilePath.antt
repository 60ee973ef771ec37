-- ===== src/Text/FilePath.antt =====
-- `std::path::Path` on Unix, for paths that are Unicode text, and the file system as a parameter.
use mathlib.Core.List.{reverse}
use ripht_php_sapi.Prelude.{
  ℕ, Bool, false, ◌&&◌, ◌||◌, ◌++◌, Option, none, some, [], ◌∷◌, ◌==◌, if◌then◌else◌, is_empty,
}
use ripht_php_sapi.Text.{Str, lit, str_eq}

-- What the operating system answers: `path.exists()` and `std::fs::canonicalize(path)`.
pub record FileSystem : Type 0 where
  pub exists : Str → Bool
  pub canonicalize : Str → Option Str

abbrev pub slash : ℕ
slash = b'/'

heads_slash : Str → Bool
heads_slash [] = false
heads_slash (d ∷ _) = d == slash

-- Drops the separators and the `.` components at the end of a path that is written backwards.
strip_end : Str → Str
strip_end [] = []
strip_end (c ∷ s) =
    let rest = strip_end s in
    if c == slash then rest else if c == b'.' && heads_slash s then rest else c ∷ s

-- The chars before the next separator, and those from it on.
component : Str → Str
component [] = []
component (c ∷ s) = let rest = component s in if c == slash then [] else c ∷ rest

after_component : Str → Str
after_component [] = []
after_component (c ∷ s) = let rest = after_component s in if c == slash then c ∷ s else rest

has_root : Str → Bool
has_root [] = false
has_root (c ∷ _) = c == slash

-- `path.file_name()`: the last component, unless it is `..`, `.` or the root.
unfoldable pub file_name : Str → Option Str
unfolding strip_end heads_slash component str_eq
file_name path =
    let name = reverse (component (strip_end (reverse path))) in
    if is_empty name
    then none
    else if str_eq name (lit ".")
    then none
    else if str_eq name (lit "..")
    then none
    else some name

-- `path.parent()`: all but the last component; the root and the empty path have none.
unfoldable pub parent : Str → Option Str
unfolding strip_end heads_slash after_component has_root
parent path =
    let stripped = strip_end (reverse path) in
    let above = reverse (strip_end (after_component stripped)) in
    if is_empty stripped
    then none
    else if is_empty above && has_root path
    then some (slash ∷ [])
    else some above

ends_slash : Str → Bool
ends_slash [] = false
ends_slash (c ∷ []) = c == slash
ends_slash (c ∷ d ∷ s) = ends_slash (d ∷ s)

-- `path.join(other)`: an absolute path replaces the first one.
unfoldable pub join_path : Str → Str → Str
unfolding has_root ends_slash
join_path path other =
    if has_root other
    then other
    else if is_empty path || ends_slash path
    then path ++ other
    else path ++ slash ∷ other
