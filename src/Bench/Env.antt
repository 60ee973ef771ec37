-- ===== src/Bench/Env.antt =====
-- benches/shared/env.rs: the settings of the benchmarks. The environment is a parameter, which
-- answers a variable that is set and Unicode.
pub mod Workers
use Prim.Native.String.{String}
use ripht_php_sapi.Prelude.{
  ℕ, ◌+◌, ◌-◌, ◌*◌, ◌%◌, ◌<◌, ◌≡◌, Bool, true, not, ◌&&◌, ◌||◌, Option, none, some, List, [], ◌∷◌,
  ◌++◌, ltb, leb, ◌==◌, if◌then◌else◌, is_some, get_or, is_empty,
}
use ripht_php_sapi.Text.{Str, lit}
use ripht_php_sapi.Text.FilePath.{FileSystem}

abbrev pub Env : Type 0
Env = Str → Option Str

-- `NEXT_PORT.fetch_add(1, ..)`: the port, and the counter behind it, of 16 bits.
unfoldable pub next_port : ℕ → ℕ × ℕ
next_port counter = (counter, (counter + 1) % 65536)

abbrev pub first_port : ℕ
first_port = 19000

-- `str::parse::<usize>`: digits, behind a plus sign or not, up to 2^64 - 1.
unfoldable pub digits_value : ℕ → Str → Option ℕ
digits_value acc [] = some acc
digits_value acc (c ∷ s) =
    let next = acc * 10 + (c - 48) in
    let rest = digits_value next s in
    if leb 48 c && leb c 57 && ltb next 18446744073709551616 then rest else none

unfoldable pub without_plus : Str → Str
without_plus [] = []
without_plus (c ∷ s) = if c == b'+' then s else c ∷ s

unfoldable pub parse_usize : Str → Option ℕ
unfolding digits_value without_plus
parse_usize s =
    let digits = without_plus s in if is_empty digits then none else digits_value 0 digits

infixl 5 ◌>>=◌
abbrev pub ◌>>=◌ : {A B : Type 0} → Option A → (A → Option B) → Option B
none >>= k = none
some a >>= k = k a

unfoldable pub workers_from_env : Env → ℕ
unfolding parse_usize
workers_from_env env = get_or (env (lit "BENCH_WORKERS") >>= parse_usize) 4

unfoldable pub should_run_ripht_sapi : Env → Bool
should_run_ripht_sapi env =
    not (is_some (env (lit "BENCH_FPM_ONLY"))) && not (is_some (env (lit "BENCH_FRANKENPHP_ONLY")))

unfoldable pub should_run_fpm_sapi : Env → Bool
should_run_fpm_sapi env =
    is_some (env (lit "BENCH_COMPARE")) || is_some (env (lit "BENCH_FPM_ONLY"))

unfoldable pub should_run_frankenphp_sapi : Env → Bool
should_run_frankenphp_sapi env =
    is_some (env (lit "BENCH_COMPARE")) || is_some (env (lit "BENCH_FRANKENPHP_ONLY"))

-- `path.exists()`, else a warning.
abbrev pub existing : FileSystem → Str → Str → Option Str × Option Str
existing files name path =
    if files.exists path
    then (some path, none)
    else (none, some (lit "Warning: " ++ (name ++ (lit " path does not exist: " ++ path))))

abbrev pub checked_bin : FileSystem → Str → Option Str → Option Str × Option Str
checked_bin files name none = (none, none)
checked_bin files name (some path) = existing files name path

-- The path, and the warning that is printed on the standard error.
unfoldable pub fpm_bin : FileSystem → Env → Option Str × Option Str
fpm_bin files env = checked_bin files (lit "BENCH_FPM_BIN") (env (lit "BENCH_FPM_BIN"))

unfoldable pub frankenphp_bin : FileSystem → Env → Option Str × Option Str
frankenphp_bin files env =
    checked_bin files (lit "BENCH_FRANKENPHP_BIN") (env (lit "BENCH_FRANKENPHP_BIN"))
