-- ===== src/Sapi/Engine/Live.antt =====
-- During a request, whatever PHP calls, no callback faults, and the box stays allocated and keeps a
-- status that HTTP has.
use ripht_php_sapi.Prelude.{ℕ, ◌≤◌, ◌≡◌, refl, ◌∙◌, Bool, true, false, some, arith, if◌then◌else◌}
use ripht_php_sapi.Prelude.Int.{ℤ}
use ripht_php_sapi.Sapi.Context.{ServerContext}
use ripht_php_sapi.Sapi.State.{boxed, Sapi, Run, done, M, and_then, pure, ◌>>=◌, modify, deref}
use ripht_php_sapi.Sapi.Callbacks.{with_context, get_context, status_of_code}

-- The statuses that a response can have.
abbrev pub IsStatus : ℕ → Type 0
IsStatus n = (100 ≤ n) × (n ≤ 599)

-- The box is allocated, PHP's globals point to it, and its status is one of HTTP.
pub record IsLive {C : Type 0} (s : Sapi C) : Type 0 where
  pub pointed : s.server_context ≡ boxed
  pub context : ServerContext C
  pub allocated : s.box ≡ some context
  pub status : IsStatus context.status_code

pub status_of_code-IsStatus : (code : ℤ) → IsStatus (status_of_code code)
unfolding status_of_code
status_of_code-IsStatus code = ground arith

-- An action that is begun in a live state comes to its end, in a live state.
pub data Returns {C A : Type 0} (P : A → Sapi C → Type 0) : Run C A → Type 0 where
  returns : {a : A} {s : Sapi C} → P a s → Returns P (done a s)

-- The first action ends as `P` tells, and from there the second ends as `Q` tells.
pub Returns-bind :
    {C A B : Type 0} {P : A → Sapi C → Type 0} {Q : B → Sapi C → Type 0} (r : Run C A)
    (k : A → M C B)
    → Returns P r
    → ((a : A) (s : Sapi C) → P a s → Returns Q (k a s))
    → Returns Q (and_then r k)
Returns-bind r k (returns p) hk = hk _ _ p

-- The end of a run that ends.
pub Returns-done :
    {C A : Type 0} {P : A → Sapi C → Type 0} (r : Run C A)
    → Returns P r
    → (a : A) × (s : Sapi C) × (r ≡ done a s) × P a s
Returns-done r (returns {a} {s} p) = (a, s, refl, p)

-- The same for any property of the whole.
pub Returns-elim :
    {C A B : Type 0} {P : A → Sapi C → Type 0} (R : Run C B → Type 0) (r : Run C A) (k : A → M C B)
    → Returns P r
    → ((a : A) (s : Sapi C) → P a s → R (k a s))
    → R (and_then r k)
Returns-elim R r k (returns p) hk = hk _ _ p

-- What follows from a fact about a run.
pub Returns-map :
    {C A : Type 0} {P Q : A → Sapi C → Type 0} {r : Run C A}
    → ((a : A) (s : Sapi C) → P a s → Q a s)
    → Returns P r
    → Returns Q r
Returns-map f (returns p) = returns (f _ _ p)

-- Two facts about one run.
pub Returns-and :
    {C A : Type 0} {P Q : A → Sapi C → Type 0} (r : Run C A)
    → Returns P r
    → Returns Q r
    → Returns (λ a s. P a s × Q a s) r
Returns-and r (returns p) (returns q) = returns (p, q)

abbrev pub Safe : {C A : Type 0} → M C A → Type 0
Safe {C} m = (s : Sapi C) → IsLive s → Returns (λ _ s'. IsLive s') (m s)

module _ {C : Type 0} where
  pub Safe-pure : {A : Type 0} (a : A) → Safe {C = C} (pure a)
  Safe-pure a s h = returns h

  pub Safe-bind :
      {A B : Type 0} (m : M C A) (k : A → M C B) → Safe m → ((a : A) → Safe (k a)) → Safe (m >>= k)
  Safe-bind m k hm hk s h = go (m s) (hm s h)
    where
      go :
          (r : Run C _) → Returns (λ _ s'. IsLive s') r → Returns (λ _ s'. IsLive s') (and_then r k)
      go r (returns p) = hk _ _ p

  -- An access through the pointer that keeps the status in its range.
  pub Safe-deref :
      {A : Type 0} (f : ServerContext C → A × ServerContext C)
      → ((ctx : ServerContext C) → IsStatus ctx.status_code → IsStatus (f ctx).1.status_code)
      → Safe (deref f)
  Safe-deref f keeps s h = rw h.allocated (
      returns (record {
        pointed = h.pointed;
        context = (f h.context).1;
        allocated = refl;
        status = keeps h.context h.status;
      }))

  pub Safe-with_context : {A : Type 0} (d : A) (m : M C A) → Safe m → Safe (with_context d m)
  unfolding with_context get_context
  Safe-with_context d m hm s h = simp h.pointed (hm s h)

  -- A change that leaves the pointer and the box alone.
  pub Safe-modify :
      (f : Sapi C → Sapi C)
      → ((s : Sapi C) → (f s).server_context ≡ s.server_context)
      → ((s : Sapi C) → (f s).box ≡ s.box)
      → Safe (modify f)
  Safe-modify f p b s h = returns (record {
    pointed = p s ∙ h.pointed;
    context = h.context;
    allocated = b s ∙ h.allocated;
    status = h.status;
  })

  pub Safe-if : {A : Type 0} (b : Bool) (m n : M C A) → Safe m → Safe n → Safe (if b then m else n)
  Safe-if true m n hm hn = hm
  Safe-if false m n hm hn = hn
