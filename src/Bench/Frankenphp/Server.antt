-- ===== src/Bench/Frankenphp/Server.antt =====
-- The start and the end of the frankenphp process of benches/shared/frankenphp.rs.
use ripht_php_sapi.Prelude.{
  ℕ, ◌≡◌, refl, ap, ◌∙◌, subst, Bool, true, false, Option, none, some, List, [], ◌∷◌, ◌++◌,
}
use ripht_php_sapi.Text.{Str, lit}
use ripht_php_sapi.Text.Decimal.{decimal}
use ripht_php_sapi.Text.FilePath.{FileSystem}
use ripht_php_sapi.Bench.Env.{Env, frankenphp_bin}
use ripht_php_sapi.Bench.Process.{
  spawned, killed, waited, printed, Machine, Host, Run, pure, ◌>>=◌, ◌>>◌, log_event, take_port,
  spawn, logged_spawn, connect, await, running, without, without-head, running-await, running-warn,
  warn,
}

-- `FrankenPhpBackend`
pub record FrankenPhpBackend : Type 0 where
  pub process : ℕ
  pub port : ℕ

abbrev pub arguments : Str → ℕ → List Str
unfolding decimal
arguments scripts_dir port =
    lit "php-server"
    ∷ lit "--listen"
    ∷ (lit "127.0.0.1:" ++ decimal port)
    ∷ lit "--root"
    ∷ scripts_dir
    ∷ []

module _ (host : Host) where
  -- `start` behind the loop, by whether the port accepted a connection.
  unfoldable pub settled : FrankenPhpBackend → Bool → Run (Option FrankenPhpBackend)
  unfolding decimal
  settled backend true = pure (some backend)
  settled backend false =
      log_event (
        printed
          (lit "FrankenPhpBackend: timed out waiting for server on port " ++ decimal backend.port))
      >> pure none

  -- `start` behind the spawn.
  unfoldable pub wait_for_port : ℕ → Option ℕ → Run (Option FrankenPhpBackend)
  unfolding await settled
  wait_for_port port none = pure none
  wait_for_port port (some process) =
      await (connect host port) 50 50 >>= settled (record { process = process; port = port })

  unfoldable pub start_bin : Str → Option Str → Run (Option FrankenPhpBackend)
  unfolding wait_for_port take_port
  start_bin scripts_dir none = pure none
  start_bin scripts_dir (some bin) = do
    port ← take_port
    process ← spawn host bin (arguments scripts_dir port)
    wait_for_port port process

  -- `FrankenPhpBackend::start`
  unfoldable pub start : FileSystem → Env → Str → Run (Option FrankenPhpBackend)
  unfolding start_bin frankenphp_bin warn
  start files env scripts_dir = do
    warn (frankenphp_bin files env).1
    start_bin scripts_dir (frankenphp_bin files env).0

-- The `drop` of `FrankenPhpBackend`; what its calls return is not looked at.
unfoldable pub drop_backend : FrankenPhpBackend → Run (Unit {0})
drop_backend backend = do log_event (killed backend.process); log_event (waited backend.process)

-- A backend that was returned runs one process more than before.
abbrev Runs : List ℕ → Option FrankenPhpBackend × Machine → Type 0
Runs before (none, m) = Unit {0}
Runs before (some backend, m) = running m.log ≡ backend.process ∷ before

module _ (host : Host) where
  settled-Runs :
      (before : List ℕ) (backend : FrankenPhpBackend) (found : Bool) (m : Machine)
      → running m.log ≡ backend.process ∷ before
      → Runs before (settled host backend found m)
  unfolding settled
  settled-Runs before backend true m h = h
  settled-Runs before backend false m h = tt

  spawned-Runs :
      (port : ℕ) (bin : Str) (args : List Str) (found : Option ℕ) (m : Machine)
      → Runs (running m.log) ((logged_spawn host bin args found >>= wait_for_port host port) m)
  unfolding wait_for_port running
  spawned-Runs port bin args none m = tt
  spawned-Runs port bin args (some p) m =
      let m1 = record m { log = spawned p bin args ∷ m.log } in
      settled-Runs (running m.log) (record { process = p; port = port })
        (await (connect host port) 50 50 m1).0 (await (connect host port) 50 50 m1).1
        (running-await (connect host port) 50 50 m1 (λ m'. refl))

  start_bin-Runs :
      (scripts_dir : Str) (bin : Option Str) (m : Machine)
      → Runs (running m.log) (start_bin host scripts_dir bin m)
  unfolding start_bin take_port
  start_bin-Runs scripts_dir none m = tt
  start_bin-Runs scripts_dir (some bin) m =
      let (port, m1) = take_port m in
      spawned-Runs port bin (arguments scripts_dir port)
        (host.spawns m1 bin (arguments scripts_dir port)) m1

  -- The drop of a backend that `start` has returned leaves as many processes running, and the same,
  -- as there were before the start.
  start-drop_server :
      (files : FileSystem) (env : Env) (scripts_dir : Str) (m m1 : Machine)
      (backend : FrankenPhpBackend)
      → start host files env scripts_dir m ≡ (some backend, m1)
      → running (drop_backend backend m1).1.log ≡ running m.log
  unfolding start drop_backend running
  start-drop_server files env scripts_dir m m1 backend h =
      ap (without backend.process) (
        subst (λ q. Runs q (some backend, m1)) (running-warn (frankenphp_bin files env).1 m)
          (subst (Runs (running (warn (frankenphp_bin files env).1 m).1.log)) h (
            start_bin-Runs scripts_dir (frankenphp_bin files env).0
              (warn (frankenphp_bin files env).1 m).1)))
      ∙ without-head backend.process (running m.log)
