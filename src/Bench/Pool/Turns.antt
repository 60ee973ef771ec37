-- ===== src/Bench/Pool/Turns.antt =====
-- The turns of the workers of benches/shared/pool.rs.
use native.Mathlib.Nat.{mod-eq_of_lt, mod_self}
use ripht_php_sapi.Prelude.{
  ℕ, ◌+◌, ◌%◌, ◌≡◌, refl, sym, ap, ◌∙◌, false, Option, none, some, List, [], ◌∷◌, ◌++◌, length,
  is_empty, arith, append_assoc, length-append,
}
use ripht_php_sapi.Bench.Protocol.{Request, Response}
use ripht_php_sapi.Bench.Pool.{Pool, get_worker, put_worker, put_back, send}

module _ {R A B : Type 0} where
  -- An answer, and what follows with the answers that it gets, up to the first panic.
  unfoldable pub follow : Option (R × A) → (A → Option (List R × B)) → Option (List R × B)
  follow none more = none
  follow (some (r, a)) more = elim (more a) [ none ↦ none | some (rs, b) ↦ some (r ∷ rs, b) ]

module _ {K : Type 0} (send_one : Request → K → Option (Response × K)) where
  -- The requests in order.
  unfoldable pub send_all : List Request → Pool K → Option (List Response × Pool K)
  unfolding follow
  send_all [] p = some ([], p)
  send_all (req ∷ reqs) p = follow (send send_one req p) (send_all reqs)

  in_front : K → Option (List Response × List K) → Option (List Response × List K)
  in_front k none = none
  in_front k (some (rs, ks)) = some (rs, k ∷ ks)

  -- One request to each worker.
  unfoldable pub each_once : List Request → List K → Option (List Response × List K)
  unfolding follow in_front
  each_once (req ∷ reqs) (k ∷ ks) = follow (send_one req k) (λ k'. in_front k' (each_once reqs ks))
  each_once _ ks = some ([], ks)

get_worker-append :
    {K : Type 0} (xs ys : List K) (k : K) → get_worker (xs ++ k ∷ ys) (length xs) ≡ some k
unfolding get_worker
get_worker-append [] ys k = refl
get_worker-append (x ∷ xs) ys k = get_worker-append xs ys k

filled : {K : Type 0} (xs ys : List K) (k : K) → is_empty (xs ++ k ∷ ys) ≡ false
filled [] ys k = refl
filled (x ∷ xs) ys k = refl

put_worker-append :
    {K : Type 0} (xs ys : List K) (k k' : K)
    → put_worker (xs ++ k ∷ ys) (length xs) k' ≡ xs ++ k' ∷ ys
unfolding put_worker
put_worker-append [] ys k k' = refl
put_worker-append (x ∷ xs) ys k k' = ap (λ zs. x ∷ zs) (put_worker-append xs ys k k')

module _ {K : Type 0} (send_one : Request → K → Option (Response × K)) where
  -- Whose turn it is when `m` workers had theirs and the listed ones did not.
  next_of : List K → ℕ → ℕ
  next_of [] m = 0
  next_of (k ∷ ks) m = m

  behind : List K → Option (List Response × List K) → Option (List Response × Pool K)
  behind front none = none
  behind front (some (rs, ks)) = some (rs, record { workers = front ++ ks; next = 0 })

  advanced :
      (front ks : List K) (k k' : K)
      → (length front + 1) % length (front ++ k ∷ ks) ≡ next_of ks (length (front ++ k' ∷ []))
  unfolding next_of
  advanced front [] k k' = rw (length-append front (k ∷ [])) (mod_self (length front + 1))
  advanced front (j ∷ ks) k k' =
      mod-eq_of_lt (omega (arith, length-append front (k ∷ j ∷ ks)))
      ∙ sym (length-append front (k' ∷ []))

  turn : (front ks : List K) → ℕ → Pool K
  turn front ks m = record { workers = front ++ ks; next = m }

  send-turn :
      (front ks : List K) (req : Request) (k : K)
      → send send_one req (turn front (k ∷ ks) (length front))
        ≡ put_back (turn front (k ∷ ks) (length front)) (send_one req k)
  unfolding send turn
  send-turn front ks req k = rw (get_worker-append front ks k, filled front ks k) refl

  put_back-turn :
      (front ks : List K) (k k' : K) (r : Response)
      → put_back (turn front (k ∷ ks) (length front)) (some (r, k'))
        ≡ some (r, turn (front ++ k' ∷ []) ks (next_of ks (length (front ++ k' ∷ []))))
  unfolding put_back turn
  put_back-turn front ks k k' r =
      rw (put_worker-append front ks k k', advanced front ks k k')
        (ap
          (λ ks'. some (r, record { workers = ks'; next = next_of ks (length (front ++ k' ∷ [])) }))
          (sym (append_assoc front (k' ∷ []) ks)))

  follow-in_front :
      (front : List K) (k : K) (r : Response) (more : Option (List Response × List K))
      → follow (some (r, k)) (λ _. behind (front ++ k ∷ []) more)
        ≡ behind front (follow (some (r, k)) (λ _. in_front send_one k more))
  unfolding follow behind in_front
  follow-in_front front k r none = refl
  follow-in_front front k r (some (rs, ks)) =
      ap (λ ks'. some (r ∷ rs, record { workers = ks'; next = 0 })) (append_assoc front (k ∷ []) ks)

  resumed :
      (reqs : List Request) (front ks : List K) (k : K) (answer : Option (Response × K))
      → ((k' : K)
          → send_all send_one reqs
              (turn (front ++ k' ∷ []) ks (next_of ks (length (front ++ k' ∷ []))))
            ≡ behind (front ++ k' ∷ []) (each_once send_one reqs ks))
      → follow (put_back (turn front (k ∷ ks) (length front)) answer) (send_all send_one reqs)
        ≡ behind front (follow answer (λ k'. in_front send_one k' (each_once send_one reqs ks)))
  unfolding follow behind put_back
  resumed reqs front ks k none h = refl
  resumed reqs front ks k (some (r, k')) h =
      ap (λ o. follow o (send_all send_one reqs)) (put_back-turn front ks k k' r)
      ∙ ap (λ o. follow (some (r, k')) (λ (_ : K). o)) (h k')
      ∙ follow-in_front front k' r (each_once send_one reqs ks)

  send_all-turn :
      (reqs : List Request) (front ks : List K)
      → length reqs ≡ length ks
      → send_all send_one reqs (turn front ks (next_of ks (length front)))
        ≡ behind front (each_once send_one reqs ks)
  unfolding send_all each_once behind next_of turn
  send_all-turn [] front [] h = refl
  send_all-turn [] front (k ∷ ks) h = absurd (omega arith)
  send_all-turn (req ∷ reqs) front [] h = absurd (omega arith)
  send_all-turn (req ∷ reqs) front (k ∷ ks) h =
      ap (λ o. follow o (send_all send_one reqs)) (send-turn front ks req k)
      ∙ resumed reqs front ks k (send_one req k)
          (λ k'. send_all-turn reqs (front ++ k' ∷ []) ks (omega arith))

  next_of-zero : (ks : List K) → next_of ks 0 ≡ 0
  unfolding next_of
  next_of-zero [] = refl
  next_of-zero (k ∷ ks) = refl

  -- What a turn returns, with the first worker as the next one.
  abbrev pub restarted : Option (List Response × List K) → Option (List Response × Pool K)
  restarted none = none
  restarted (some (rs, ks)) = some (rs, record { workers = ks; next = 0 })

  behind-none : (o : Option (List Response × List K)) → behind [] o ≡ restarted o
  unfolding behind
  behind-none none = refl
  behind-none (some (rs, ks)) = refl

  -- As many requests as there are workers, from the first worker on: each worker is sent one request, in
  -- order, and it is the turn of the first one again; the first panic of a worker ends it.
  pub send_all-each_once :
      (reqs : List Request) (ks : List K)
      → length reqs ≡ length ks
      → send_all send_one reqs (record { workers = ks; next = 0 })
        ≡ restarted (each_once send_one reqs ks)
  unfolding turn
  send_all-each_once reqs ks h =
      ap (λ m. send_all send_one reqs (record { workers = ks; next = m })) (sym (next_of-zero ks))
      ∙ send_all-turn reqs [] ks h
      ∙ behind-none (each_once send_one reqs ks)
