-- ===== src/Bench/Process.antt =====
-- The processes that benches/shared/fpm.rs and benches/shared/frankenphp.rs start and end. What the
-- operating system does is logged, the latest first; what it answers is a parameter.
use ripht_php_sapi.Prelude.{
  ℕ, zero, suc, ◌≡◌, refl, ap, ◌∙◌, Bool, true, false, Option, none, some, List, [], ◌∷◌, ◌==◌,
  if◌then◌else◌, arith,
}
use ripht_php_sapi.Text.{Str}
use ripht_php_sapi.Bench.Env.{next_port}

-- A process has the number that its spawn was given.
pub data Event : Type 0 where
  removed : Str → Event
  written : Str → Str → Event
  spawned : ℕ → Str → List Str → Event
  slept : ℕ → Event
  connected : ℕ → Event
  killed waited : ℕ → Event
  printed : Str → Event

-- What happened, and `NEXT_PORT`.
pub record Machine : Type 0 where
  pub log : List Event
  pub counter : ℕ

-- Whether a file can be written, the number of a process that could be spawned, whether a path exists,
-- and whether a port accepts a connection.
pub record Host : Type 0 where
  pub writes : Machine → Str → Str → Bool
  pub spawns : Machine → Str → List Str → Option ℕ
  pub exists : Machine → Str → Bool
  pub connects : Machine → ℕ → Bool

abbrev pub Run : Type 0 → Type 0
Run A = Machine → A × Machine

abbrev pub pure : {A : Type 0} → A → Run A
pure a m = (a, m)

infixl 5 ◌>>=◌ ◌>>◌
abbrev pub ◌>>=◌ : {A B : Type 0} → Run A → (A → Run B) → Run B
◌>>=◌ r k m = k (r m).0 (r m).1

abbrev pub ◌>>◌ : {B : Type 0} → Run (Unit {0}) → Run B → Run B
r >> k = r >>= λ _. k

abbrev pub log_event : Event → Run (Unit {0})
log_event e m = (tt, record m { log = e ∷ m.log })

-- `eprintln!`, where there is something to print.
unfoldable pub warn : Option Str → Run (Unit {0})
warn none = pure tt
warn (some text) = log_event (printed text)

unfoldable pub take_port : Run ℕ
unfolding next_port
take_port m = ((next_port m.counter).0, record m { counter = (next_port m.counter).1 })

module _ (host : Host) where
  abbrev pub write : Str → Str → Run Bool
  write path text m = (host.writes m path text, record m { log = written path text ∷ m.log })

  abbrev pub logged_spawn : Str → List Str → Option ℕ → Run (Option ℕ)
  logged_spawn bin args none = pure none
  logged_spawn bin args (some p) = log_event (spawned p bin args) >> pure (some p)

  abbrev pub spawn : Str → List Str → Run (Option ℕ)
  spawn bin args m = logged_spawn bin args (host.spawns m bin args) m

  abbrev pub path_exists : Str → Run Bool
  path_exists path m = (host.exists m path, m)

  abbrev pub connect : ℕ → Run Bool
  connect port m = (host.connects m port, record m { log = connected port ∷ m.log })

-- One round of the loop that waits for a process, by whether the process was ready.
abbrev pub after_look : Bool → ℕ → Run Bool → Run Bool
after_look true pause rest = log_event (slept pause) >> pure true
after_look false pause rest = log_event (slept 100) >> rest

-- A loop that looks so often whether the process is ready, and pauses for 100 ms behind each time that
-- it is not. When it is, it pauses once more, for the given time.
unfoldable pub await : Run Bool → ℕ → ℕ → Run Bool
await ready pause zero = pure false
await ready pause (suc n) = do found ← ready; after_look found pause (await ready pause n)

-- The list without the first entry of a number.
unfoldable pub without : ℕ → List ℕ → List ℕ
without p [] = []
without p (q ∷ qs) = let rest = without p qs in if q == p then qs else q ∷ rest

-- The processes that were spawned and not killed.
unfoldable pub running : List Event → List ℕ
unfolding without
running (spawned p bin args ∷ log) = p ∷ running log
running (killed p ∷ log) = without p (running log)
running (_ ∷ log) = running log
running [] = []

same_number : (p : ℕ) → (p == p) ≡ true
same_number p = ground arith

pub without-head : (p : ℕ) (ps : List ℕ) → without p (p ∷ ps) ≡ ps
unfolding without
without-head p ps = ap (λ b. if b then ps else p ∷ without p ps) (same_number p)

-- To wait changes no process, and does not end with success where the process is never ready.
paused :
    (found : Bool) (pause : ℕ) (rest : Run Bool) (m : Machine)
    → ((m' : Machine) → running (rest m').1.log ≡ running m'.log)
    → running (after_look found pause rest m).1.log ≡ running m.log
unfolding running
paused true pause rest m h = refl
paused false pause rest m h = h (record m { log = slept 100 ∷ m.log })

pub running-await :
    (ready : Run Bool) (pause n : ℕ) (m : Machine)
    → ((m' : Machine) → running (ready m').1.log ≡ running m'.log)
    → running (await ready pause n m).1.log ≡ running m.log
unfolding await
running-await ready pause zero m h = refl
running-await ready pause (suc n) m h =
    paused (ready m).0 pause (await ready pause n) (ready m).1
      (λ m'. running-await ready pause n m' h)
    ∙ h m

pub await-false :
    (ready : Run Bool) (pause n : ℕ) (m : Machine)
    → ((m' : Machine) → (ready m').0 ≡ false)
    → (await ready pause n m).0 ≡ false
unfolding await
await-false ready pause zero m h = refl
await-false ready pause (suc n) m h = rw (h m) (await-false ready pause n _ h)

pub running-warn : (text : Option Str) (m : Machine) → running (warn text m).1.log ≡ running m.log
unfolding warn running
running-warn none m = refl
running-warn (some text) m = refl
