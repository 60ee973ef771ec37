-- ===== src/Bench/Env/Workers.antt =====
-- The number of workers of benches/shared/env.rs.
use ripht_php_sapi.Prelude.{
  ℕ, ◌+◌, ◌-◌, ◌*◌, ◌%◌, ◌<◌, ◌≤◌, ◌≡◌, refl, ap, ◌∙◌, some, [], ◌∷◌, All, length, get_or, arith,
}
use ripht_php_sapi.Text.{Str, lit}
use ripht_php_sapi.Text.Decimal.{
  decimal, number_from, number_from-decimal, IsDigit, decimal-IsDigit, length-decimal,
}
use ripht_php_sapi.Bench.Env.{Env, digits_value, without_plus, parse_usize, workers_from_env}

number_from-le : (s : Str) (acc : ℕ) → acc ≤ number_from acc s
unfolding number_from
number_from-le [] acc = omega arith
number_from-le (c ∷ s) acc = omega (arith, number_from-le s (acc * 10 + c % 48))

digit : (c : ℕ) → IsDigit c → c - 48 ≡ c % 48
digit c h = omega arith

digits_value_lem :
    (s : Str) (acc : ℕ)
    → All IsDigit s
    → number_from acc s < 18446744073709551616
    → digits_value acc s ≡ some (number_from acc s)
unfolding digits_value number_from
digits_value_lem [] acc h k = refl
digits_value_lem (c ∷ s) acc ((l, r), hs) k = rw (digit c (l, r)) (
    ground
      (arith, number_from-le s (acc * 10 + c % 48), digits_value_lem s (acc * 10 + c % 48) hs k))

parse_usize_lem :
    (s : Str)
    → 1 ≤ length s
    → All IsDigit s
    → number_from 0 s < 18446744073709551616
    → parse_usize s ≡ some (number_from 0 s)
unfolding parse_usize without_plus
parse_usize_lem [] n h k = absurd (omega arith)
parse_usize_lem (c ∷ s) n (h, hs) k = ground (arith, digits_value_lem (c ∷ s) 0 (h, hs) k)

-- A number of 64 bits that BENCH_WORKERS holds in decimal is the number of workers.
pub workers_from_env-decimal :
    (env : Env) (n : ℕ)
    → n < 18446744073709551616
    → env (lit "BENCH_WORKERS") ≡ some (decimal n)
    → workers_from_env env ≡ n
unfolding workers_from_env
workers_from_env-decimal env n h e = rw e (
    ap (λ o. get_or o 4)
      (parse_usize_lem (decimal n) (length-decimal n) (decimal-IsDigit n)
          (rw (number_from-decimal n) h)
        ∙ ap some (number_from-decimal n)))
