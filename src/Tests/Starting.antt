-- ===== src/Tests/Starting.antt =====
-- The start of php-fpm at concrete inputs.
use ripht_php_sapi.Prelude.{◌≡◌, refl, Bool, true, false, none, some, [], ◌∷◌}
use ripht_php_sapi.Text.{lit}
use ripht_php_sapi.Bench.Env.{Env, fpm_bin, first_port}
use ripht_php_sapi.Bench.Process.{
  removed, written, spawned, slept, Machine, Host, running, await, take_port, warn,
}
use ripht_php_sapi.Bench.Fcgi.Server.{
  FpmBackend, config, bench_file, start, drop_backend, start-drop_backend, start_timed_out,
}
use ripht_php_sapi.Tests.Data.{files}

abbrev machine : Machine
machine = record { log = []; counter = first_port }

-- An operating system whose next process has the number 7.
abbrev host : Bool → Host
host ready = record {
  writes = λ m path text. true;
  spawns = λ m bin args. some 7;
  exists = λ m path. ready;
  connects = λ m port. false;
}

abbrev fpm_env : Env
fpm_env name = some (lit "hello.php")

abbrev started : FpmBackend
started = record {
  process = 7;
  socket_path = bench_file (lit "/tmp") first_port (lit ".sock");
  config_path = bench_file (lit "/tmp") first_port (lit ".conf");
}

abbrev behind_start : Machine
behind_start = record {
  log =
      slept 100
      ∷ spawned 7 (lit "hello.php") (lit "-F" ∷ lit "-y" ∷ started.config_path ∷ [])
      ∷ written started.config_path (config started.socket_path)
      ∷ removed started.socket_path
      ∷ [];
  counter = 19001;
}

started_lem : start (host true) files fpm_env (lit "/tmp") machine ≡ (some started, behind_start)
unfolding start fpm_bin await take_port warn
started_lem = refl

start-drop_backend_example : running (drop_backend started behind_start).1.log ≡ running machine.log
start-drop_backend_example =
    start-drop_backend (host true) files fpm_env (lit "/tmp") machine behind_start started
      started_lem

found_bin : fpm_bin files fpm_env ≡ (some (lit "hello.php"), none)
unfolding fpm_bin
found_bin = refl

start_timed_out_example :
    ((start (host false) files fpm_env (lit "/tmp") machine).0 ≡ none)
    × (running (start (host false) files fpm_env (lit "/tmp") machine).1.log
        ≡ 7 ∷ running machine.log)
start_timed_out_example =
    start_timed_out (host false) files fpm_env (lit "/tmp") (lit "hello.php") 7 machine found_bin
      (λ m path text. refl) (λ m args. refl) (λ m path. refl)
