-- ===== src/Programs/Cases/Memory.antt =====
-- examples/memory_pressure.rs. The crate serde_json and the printing of a float are parameters: the
-- field `peak_after` of an answer, if it is JSON, and a number of bytes as the text of megabytes.
use ripht_php_sapi.Prelude.{ℕ, Option, none, some, List, [], ◌∷◌, ◌++◌, get_or}
use ripht_php_sapi.Text.{Str, Bytes, lit}
use ripht_php_sapi.Text.Decimal.{decimal}
use ripht_php_sapi.Execution.Result.{ExecutionResult}
use ripht_php_sapi.Sapi.Instance.{Module}
use ripht_php_sapi.Programs.{
  Place, Program, ◌>>=◌, ◌>>◌, pure, println, start, perform, php_script_path, dotted,
}
use ripht_php_sapi.Programs.Cases.{for_each, query_request}

memory_cases : List (Str × Str)
memory_cases =
    (lit "Baseline", lit "action=report")
    ∷ (lit "Post-stress baseline", lit "action=report")
    ∷ (lit "100-level recursion", lit "action=recursive&size=100")
    ∷ (lit "5000 objects", lit "action=objects&size=5000")
    ∷ (lit "5000 strings (~5MB)", lit "action=allocate&size=5000")
    ∷ (lit "10000 strings (~10MB)", lit "action=allocate&size=10000")
    ∷ []

module _ {C : Type 0} (place : Place C) (peak_after : Bytes → Option (Option ℕ))
    (megabytes : ℕ → Str) where
  memory_line : Str → ExecutionResult → Str
  unfolding dotted decimal
  memory_line name result =
      dotted 30 name
      ++ (lit " " ++ (elim (peak_after result.body) [
        | none ↦ decimal result.status
        | some peak ↦ lit "peak=" ++ (megabytes (get_or peak 0) ++ lit "MB")
      ]))

  cycle_lines : ℕ → ExecutionResult → Program C (Unit {0})
  unfolding decimal
  cycle_lines i result = elim (peak_after result.body) [
    | none ↦ pure tt
    | some peak ↦ println (
        lit "  Cycle " ++ (decimal i ++ (lit ": peak=" ++ (megabytes (get_or peak 0) ++ lit "MB"))))
  ]

  run_memory_case : Module → Str → Str × Str → Program C (Unit {0})
  unfolding perform query_request memory_line
  run_memory_case sapi script (name, query) = do
    result ← perform place sapi (query_request query) script
    println (memory_line name result)

  run_cycle : Module → Str → ℕ → Program C (Unit {0})
  unfolding perform query_request cycle_lines
  run_cycle sapi script i = do
    result ← perform place sapi (query_request (lit "action=allocate&size=3000")) script
    cycle_lines i result

  main : Program C (Unit {0})
  unfolding start for_each memory_cases run_memory_case run_cycle
  main = do
    sapi ← start place
    let script = php_script_path place (lit "memory_intensive.php")
    println (lit "=== PHP Memory Pressure ===\n")
    for_each memory_cases (run_memory_case sapi script)
    println (lit "\nRepeated allocation cycles:")
    for_each (1 ∷ 2 ∷ 3 ∷ []) (run_cycle sapi script)
