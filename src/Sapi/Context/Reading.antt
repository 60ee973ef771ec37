-- ===== src/Sapi/Context/Reading.antt =====
-- Reading the body of a request in pieces.
use ripht_php_sapi.Prelude.{
  ℕ, zero, suc, ◌+◌, ◌-◌, min, ◌≤◌, ◌≡◌, refl, ap, sym, ◌∙◌, List, [], ◌∷◌, ◌++◌, length,
  length-drop, take, drop, arith, ltb, ◌==◌, Bool-cases, inl, inr,
}
use native.Mathlib.Decide.{dec_le}
use native.Mathlib.Nat.{zero-add, suc-add}
use ripht_php_sapi.Text.{Bytes}
use ripht_php_sapi.Execution.Context.{ExecutionContext}
use ripht_php_sapi.Sapi.Buffer.{BufferPolicy}
use ripht_php_sapi.Sapi.Context.{ServerContext, read_post, from_context}

-- What a caller reads that calls `read_post` with buffers of these sizes.
unfoldable pub read_all : {C : Type 0} → List ℕ → ServerContext C → Bytes × ServerContext C
unfolding read_post
read_all [] ctx = ([], ctx)
read_all (n ∷ ns) ctx =
    let (piece, ctx') = read_post n ctx in
    let (rest, last) = read_all ns ctx' in (piece ++ rest, last)

abbrev pub total : List ℕ → ℕ
total [] = 0
total (n ∷ ns) = n + total ns

module _ {ℓ} {A : Type ℓ} where
  take-nil : (n : ℕ) → take {A = A} n [] ≡ []
  take-nil zero = refl
  take-nil (suc n) = refl

  drop-nil : (n : ℕ) → drop {A = A} n [] ≡ []
  drop-nil zero = refl
  drop-nil (suc n) = refl

  pub take-all : (n : ℕ) (xs : List A) → length xs ≤ n → take n xs ≡ xs
  take-all zero [] h = refl
  take-all zero (x ∷ xs) h = absurd (omega arith)
  take-all (suc n) [] h = refl
  take-all (suc n) (x ∷ xs) h = ap (λ ys. x ∷ ys) (take-all n xs (omega arith))

  drop-all : (n : ℕ) (xs : List A) → length xs ≤ n → drop n xs ≡ []
  drop-all zero [] h = refl
  drop-all zero (x ∷ xs) h = absurd (omega arith)
  drop-all (suc n) [] h = refl
  drop-all (suc n) (x ∷ xs) h = drop-all n xs (omega arith)

  take-add : (n m : ℕ) (xs : List A) → take (n + m) xs ≡ take n xs ++ take m (drop n xs)
  take-add zero m xs = rw zero-add
  take-add (suc n) m [] = rw take-nil (sym (take-nil m))
  take-add (suc n) m (x ∷ xs) = rw suc-add (ap (λ ys. x ∷ ys) (take-add n m xs))

  drop-drop : (p n : ℕ) (xs : List A) → drop n (drop p xs) ≡ drop (p + n) xs
  drop-drop zero n xs = rw zero-add
  drop-drop (suc p) n [] = rw drop-nil (sym (drop-nil (suc p + n)))
  drop-drop (suc p) n (x ∷ xs) = rw suc-add (drop-drop p n xs)

-- The bytes of a chunk, and where the next begins.
take-chunk : (d : Bytes) (p n : ℕ) → take (min (length d - p) n) (drop p d) ≡ take n (drop p d)
take-chunk d p n = elim (dec_le n (length d - p)) [
  | yes h ↦ ap (λ k. take k (drop p d)) (omega arith)
  | no h ↦
      ap (λ k. take k (drop p d)) (omega (arith, length-drop p d))
      ∙ (take-all (length (drop p d)) (drop p d) (omega arith)
          ∙ sym (take-all n (drop p d) (omega (arith, length-drop p d))))
]

pub drop-chunk : (d : Bytes) (p n : ℕ) → drop (p + min (length d - p) n) d ≡ drop n (drop p d)
drop-chunk d p n = elim (dec_le n (length d - p)) [
  | yes h ↦ ap (λ k. drop k d) (omega arith) ∙ sym (drop-drop p n d)
  | no h ↦
      drop-all (p + min (length d - p) n) d (omega arith)
      ∙ sym (drop-drop p n d ∙ drop-all (p + n) d (omega arith))
]

module _ {C : Type 0} where
  abbrev at_position : ServerContext C → ℕ → ServerContext C
  at_position ctx k = record ctx { post_position = k }

  -- What a call of `read_post` with a buffer of a size returns.
  abbrev piece_of : ℕ → ServerContext C → Bytes × ServerContext C
  piece_of n ctx = (
    take n (drop ctx.post_position ctx.post_data),
    at_position ctx (ctx.post_position + min (length ctx.post_data - ctx.post_position) n),
  )

  no_bytes :
      (n : ℕ) (ctx : ServerContext C)
      → min (length ctx.post_data - ctx.post_position) n ≡ 0
      → ([], ctx) ≡ piece_of n ctx
  no_bytes n ctx none_left =
      Σ_pair
        (sym (
          sym (take-chunk ctx.post_data ctx.post_position n)
          ∙ ap (λ k. take k (drop ctx.post_position ctx.post_data)) none_left))
        (ap (at_position ctx) (omega (arith, none_left)))
    where
      Σ_pair :
          {a b : Bytes} {c d : ServerContext C}
          → a ≡ b
          → c ≡ d
          → ◌≡◌ {A = Bytes × ServerContext C} (a, c) (b, d)
      Σ_pair p q = λ i. (p i, q i)

  -- One call copies the next bytes of the body, and moves the position past them.
  pub read_post_lem : (n : ℕ) (ctx : ServerContext C) → read_post n ctx ≡ piece_of n ctx
  unfolding read_post
  read_post_lem n ctx = elim (Bool-cases (n == 0)) [
    | inl empty ↦ rw empty (no_bytes n ctx (ground arith))
    | inr sized ↦
        let to_copy = min (length ctx.post_data - ctx.post_position) n in
        elim (Bool-cases (ltb 0 to_copy)) [
          | inl some_left ↦
              rw (sized, some_left)
                (ap (λ bs. (bs, at_position ctx (ctx.post_position + to_copy)))
                  (take-chunk ctx.post_data ctx.post_position n))
          | inr none_left ↦ rw (sized, none_left) (no_bytes n ctx (ground arith))
        ]
  ]

  -- Reading in pieces of any sizes gives the next bytes of the body, as many as the sizes add up to.
  pub read_all_lem :
      (ns : List ℕ) (ctx : ServerContext C)
      → (read_all ns ctx).0 ≡ take (total ns) (drop ctx.post_position ctx.post_data)
  unfolding read_all
  read_all_lem [] ctx = refl
  read_all_lem (n ∷ ns) ctx =
      let next =
        at_position ctx (ctx.post_position + min (length ctx.post_data - ctx.post_position) n) in
      rw (read_post_lem n ctx) (
        ap (λ bs. take n (drop ctx.post_position ctx.post_data) ++ bs)
          (read_all_lem ns next
            ∙ ap (take (total ns)) (drop-chunk ctx.post_data ctx.post_position n))
        ∙ sym (take-add n (total ns) (drop ctx.post_position ctx.post_data)))

-- Whatever the sizes of the buffers, PHP reads the body of the request from its start, in order, and
-- all of it as soon as the sizes add up to its length.
pub read_all-from_context :
    (C : Type 0) (policy : BufferPolicy) (ctx : ExecutionContext) (ns : List ℕ)
    → length ctx.input ≤ total ns
    → (read_all ns (from_context {C = C} policy ctx)).0 ≡ ctx.input
unfolding from_context
read_all-from_context C policy ctx ns enough =
    read_all_lem ns (from_context policy ctx) ∙ take-all (total ns) ctx.input enough
