-- ===== src/Bench/Fcgi/Server.antt =====
-- The start and the end of the php-fpm process of benches/shared/fpm.rs.
use ripht_php_sapi.Prelude.{
  ℕ, ◌≡◌, refl, ap, ◌∙◌, subst, Bool, true, false, Option, none, some, List, [], ◌∷◌, ◌++◌,
}
use ripht_php_sapi.Text.{Str, lit}
use ripht_php_sapi.Text.Decimal.{decimal}
use ripht_php_sapi.Text.FilePath.{FileSystem, join_path}
use ripht_php_sapi.Bench.Env.{Env, fpm_bin}
use ripht_php_sapi.Bench.Process.{
  removed, written, spawned, killed, waited, printed, Machine, Host, Run, pure, ◌>>=◌, ◌>>◌,
  log_event, take_port, write, spawn, logged_spawn, path_exists, await, running, without,
  without-head, running-await, running-warn, warn, await-false,
}

-- `FpmBackend`
pub record FpmBackend : Type 0 where
  pub process : ℕ
  pub socket_path : Str
  pub config_path : Str

-- The text of the configuration.
abbrev pub config : Str → Str
config socket_path =
    lit "[global]\nerror_log = /dev/stderr\ndaemonize = no\n\n[www]\nlisten = "
    ++ (socket_path ++ lit "\nlisten.mode = 0666\npm = static\npm.max_children = 1\n")

-- A file of the backend of a number: its socket or its configuration.
unfoldable pub bench_file : Str → ℕ → Str → Str
unfolding join_path decimal
bench_file temp_dir id extension =
    join_path temp_dir (lit "bench-fpm-" ++ (decimal id ++ extension))

module _ (host : Host) where
  -- `start` behind the loop, by whether the socket was there.
  abbrev pub settled : FpmBackend → Bool → Run (Option FpmBackend)
  settled backend true = pure (some backend)
  settled backend false =
      log_event (printed (lit "FpmBackend: timed out waiting for socket")) >> pure none

  -- `start` behind the spawn.
  unfoldable pub wait_for_socket : Str → Str → Option ℕ → Run (Option FpmBackend)
  unfolding await
  wait_for_socket socket_path config_path none = pure none
  wait_for_socket socket_path config_path (some process) =
      await (path_exists host socket_path) 100 50
      >>= settled
          (record { process = process; socket_path = socket_path; config_path = config_path })

  -- `start` behind the write of the configuration.
  unfoldable pub run_fpm : Str → Str → Str → Bool → Run (Option FpmBackend)
  unfolding wait_for_socket
  run_fpm bin socket_path config_path false = pure none
  run_fpm bin socket_path config_path true =
      spawn host bin (lit "-F" ∷ lit "-y" ∷ config_path ∷ [])
      >>= wait_for_socket socket_path config_path

  unfoldable pub launch : Str → Str → Str → Run (Option FpmBackend)
  unfolding run_fpm
  launch bin socket_path config_path = do
    log_event (removed socket_path)
    wrote ← write host config_path (config socket_path)
    run_fpm bin socket_path config_path wrote

  unfoldable pub start_bin : Str → Option Str → Run (Option FpmBackend)
  unfolding launch bench_file take_port
  start_bin temp_dir none = pure none
  start_bin temp_dir (some bin) = do
    id ← take_port
    launch bin (bench_file temp_dir id (lit ".sock")) (bench_file temp_dir id (lit ".conf"))

  -- `FpmBackend::start`
  unfoldable pub start : FileSystem → Env → Str → Run (Option FpmBackend)
  unfolding start_bin fpm_bin warn
  start files env temp_dir = do warn (fpm_bin files env).1; start_bin temp_dir (fpm_bin files env).0

-- The `drop` of `FpmBackend`; what its calls return is not looked at.
unfoldable pub drop_backend : FpmBackend → Run (Unit {0})
drop_backend backend = do
  log_event (killed backend.process)
  log_event (waited backend.process)
  log_event (removed backend.socket_path)
  log_event (removed backend.config_path)

-- A backend that was returned runs one process more than before.
abbrev Runs : List ℕ → Option FpmBackend × Machine → Type 0
Runs before (none, m) = Unit {0}
Runs before (some backend, m) = running m.log ≡ backend.process ∷ before

module _ (host : Host) where
  settled-Runs :
      (before : List ℕ) (backend : FpmBackend) (found : Bool) (m : Machine)
      → running m.log ≡ backend.process ∷ before
      → Runs before (settled host backend found m)
  settled-Runs before backend true m h = h
  settled-Runs before backend false m h = tt

  wait_for_socket-Runs :
      (before : List ℕ) (socket_path config_path : Str) (process : ℕ) (m : Machine)
      → running m.log ≡ process ∷ before
      → Runs before (wait_for_socket host socket_path config_path (some process) m)
  unfolding wait_for_socket
  wait_for_socket-Runs before socket_path config_path process m h =
      settled-Runs before _ (await (path_exists host socket_path) 100 50 m).0
        (await (path_exists host socket_path) 100 50 m).1
        (running-await (path_exists host socket_path) 100 50 m (λ m'. refl) ∙ h)

  spawned-Runs :
      (socket_path config_path bin : Str) (args : List Str) (found : Option ℕ) (m : Machine)
      → Runs
          (running m.log)
          ((logged_spawn host bin args found >>= wait_for_socket host socket_path config_path) m)
  unfolding wait_for_socket running
  spawned-Runs socket_path config_path bin args none m = tt
  spawned-Runs socket_path config_path bin args (some p) m =
      wait_for_socket-Runs (running m.log) socket_path config_path p
        (record m { log = spawned p bin args ∷ m.log }) refl

  run_fpm-Runs :
      (bin socket_path config_path : Str) (wrote : Bool) (m : Machine)
      → Runs (running m.log) (run_fpm host bin socket_path config_path wrote m)
  unfolding run_fpm
  run_fpm-Runs bin socket_path config_path false m = tt
  run_fpm-Runs bin socket_path config_path true m =
      spawned-Runs socket_path config_path bin (lit "-F" ∷ lit "-y" ∷ config_path ∷ [])
        (host.spawns m bin (lit "-F" ∷ lit "-y" ∷ config_path ∷ [])) m

  start_bin-Runs :
      (temp_dir : Str) (bin : Option Str) (m : Machine)
      → Runs (running m.log) (start_bin host temp_dir bin m)
  unfolding start_bin launch running take_port
  start_bin-Runs temp_dir none m = tt
  start_bin-Runs temp_dir (some bin) m =
      let (id, m1) = take_port m in
      let m2 = record m1 { log = removed (bench_file temp_dir id (lit ".sock")) ∷ m1.log } in
      let text = config (bench_file temp_dir id (lit ".sock")) in
      run_fpm-Runs bin (bench_file temp_dir id (lit ".sock")) (bench_file temp_dir id (lit ".conf"))
        (host.writes m2 (bench_file temp_dir id (lit ".conf")) text)
        (record m2 { log = written (bench_file temp_dir id (lit ".conf")) text ∷ m2.log })

  -- The drop of a backend that `start` has returned leaves as many processes running, and the same,
  -- as there were before the start.
  pub start-drop_backend :
      (files : FileSystem) (env : Env) (temp_dir : Str) (m m1 : Machine) (backend : FpmBackend)
      → start host files env temp_dir m ≡ (some backend, m1)
      → running (drop_backend backend m1).1.log ≡ running m.log
  unfolding start drop_backend running
  start-drop_backend files env temp_dir m m1 backend h =
      ap (without backend.process) (
        subst (λ q. Runs q (some backend, m1)) (running-warn (fpm_bin files env).1 m)
          (subst (Runs (running (warn (fpm_bin files env).1 m).1.log)) h
            (start_bin-Runs temp_dir (fpm_bin files env).0 (warn (fpm_bin files env).1 m).1)))
      ∙ without-head backend.process (running m.log)

  settled_late :
      (backend : FpmBackend) (found : Bool) (m : Machine)
      → found ≡ false
      → ((settled host backend found m).0 ≡ none)
        × (running (settled host backend found m).1.log ≡ running m.log)
  unfolding running
  settled_late backend true m h = absurd (cc h)
  settled_late backend false m h = (refl, refl)

  -- If php-fpm can be configured and spawned, and its socket does not come to exist, then `start`
  -- returns no backend, and the process that it has spawned is not killed: one process more runs
  -- behind it than before, and nothing is returned by which to end it.
  pub start_timed_out :
      (files : FileSystem) (env : Env) (temp_dir bin : Str) (process : ℕ) (m : Machine)
      → fpm_bin files env ≡ (some bin, none)
      → ((m' : Machine) (path text : Str) → host.writes m' path text ≡ true)
      → ((m' : Machine) (args : List Str) → host.spawns m' bin args ≡ some process)
      → ((m' : Machine) (path : Str) → host.exists m' path ≡ false)
      → ((start host files env temp_dir m).0 ≡ none)
        × (running (start host files env temp_dir m).1.log ≡ process ∷ running m.log)
  unfolding start start_bin launch run_fpm wait_for_socket running take_port warn
  start_timed_out files env temp_dir bin process m found writes spawns late =
      let (id, m1) = take_port m in
      let socket = bench_file temp_dir id (lit ".sock") in
      let conf = bench_file temp_dir id (lit ".conf") in
      let m2 = record m1 {
        log =
            spawned process bin (lit "-F" ∷ lit "-y" ∷ conf ∷ [])
            ∷ written conf (config socket)
            ∷ removed socket
            ∷ m1.log;
      } in
      let looked = await (path_exists host socket) 100 50 m2 in
      let (none_left, same) =
        settled_late (record { process = process; socket_path = socket; config_path = conf })
          looked.0 looked.1
          (await-false (path_exists host socket) 100 50 m2 (λ m'. late m' socket)) in
      rw (found, writes _ _ _, spawns _ _)
        (none_left, same ∙ running-await (path_exists host socket) 100 50 m2 (λ m'. refl))
