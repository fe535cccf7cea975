-- ===== src/Executor/Outcome.antt =====
-- How an exit ends: what `flat` means.
use delta_paper_trader.Prelude.{
  ℕ, zero, suc, ◌≡◌, refl, Bool, true, false, not, List, [], ◌∷◌, ◌++◌, arith, if◌then◌else◌,
  Bool-cases, inl, inr, All, is_empty, filter, is_empty-filter,
}
use Prim.Native.String.{String}
use delta_paper_trader.Prelude.Int.{is_zero, is_negative}
use delta_paper_trader.Float.{Float}
use delta_paper_trader.Risk.{Level}
use delta_paper_trader.Client.{M, Result, ok, raised, PositionRow, Transport, positions}
use delta_paper_trader.Executor.{
  ExitTarget, ExitResult, Ended, finished, failed, Round, swept, stopped, crashed, Tries, size_of,
  still, sweep, after_sweep, on_sizes, rounds, cancel_all, clean_up, exit_group, max_rounds,
  on_still, shorts_first,
}

module _ {W : Type 0} where
  -- Every target has size 0 in these rows, or no row.
  abbrev pub AllFlat : List PositionRow → List (ExitTarget W) → Type 0
  AllFlat rows ts = All (λ t. is_zero (size_of rows t.product_id) ≡ true) ts

append_not_empty :
    {A : Type 0} (xs : List A) (y : A) (ys : List A) → is_empty (xs ++ y ∷ ys) ≡ false
append_not_empty [] y ys = refl
append_not_empty (x ∷ xs) y ys = refl

shorts_first_empty :
    {A : Type 0} (p : A → Bool) (xs : List A)
    → is_empty (shorts_first p xs) ≡ true
    → is_empty xs ≡ true
shorts_first_empty p [] h = refl
shorts_first_empty p (x ∷ xs) h = elim (Bool-cases (p x)) [
  | inl e ↦ cc (
      let k : is_empty (x ∷ (filter p xs ++ filter (λ t. not (p t)) (x ∷ xs))) ≡ true = rw e at h in
      k)
  | inr e ↦
      let k : is_empty (filter p xs ++ x ∷ filter (λ t. not (p t)) xs) ≡ true = rw e at h in
      cc (k, append_not_empty (filter p xs) x (filter (λ t. not (p t)) xs))
]

module _ {W : Type 0} {E : Type 0} ⦃f : Float W⦄ (send : Transport W E) (enabled : Bool)
    (mark_of : String → W) (note : Level → M E (Unit {0})) (emergency : Bool) where
  abbrev run_rounds : ℕ → List (ExitTarget W) → Tries → ℕ → E → Ended × E
  run_rounds = rounds send enabled mark_of note emergency

  abbrev run_sweep : List PositionRow → List (ExitTarget W) → Tries → ℕ → E → Round × E
  run_sweep = sweep send enabled mark_of note emergency

  -- The targets are flat in a read that the client made, and this is the state that it left.
  abbrev pub Confirmed : List (ExitTarget W) → E → Type 0
  Confirmed ts e =
      (e₀ : E) × (rows : List PositionRow) × (positions send e₀ ≡ (ok rows, e)) × AllFlat rows ts

  abbrev IfFlat : List (ExitTarget W) → Ended × E → Type 0
  IfFlat ts (failed x, e) = Unit
  IfFlat ts (finished res, e) = if res.flat then Confirmed ts e else Unit

  pub still_empty :
      (rows : List PositionRow) (ts : List (ExitTarget W))
      → is_empty (still send enabled mark_of note emergency rows ts) ≡ true
      → AllFlat rows ts
  unfolding still
  still_empty rows ts h = flat_of ts (
      is_empty-filter (λ (t : ExitTarget W). not (is_zero (size_of rows t.product_id))) ts
        (shorts_first_empty (λ (t : ExitTarget W). is_negative (size_of rows t.product_id))
          (filter (λ (t : ExitTarget W). not (is_zero (size_of rows t.product_id))) ts) h))
    where
      flat_of :
          (ts : List (ExitTarget W))
          → All (λ (t : ExitTarget W). not (is_zero (size_of rows t.product_id)) ≡ false) ts
          → AllFlat rows ts
      flat_of [] k = tt
      flat_of (t ∷ ts) k = (ground arith, flat_of ts k.1)

  after_sweep-IfFlat :
      (q : Round × E) (ts : List (ExitTarget W)) (next : Tries → ℕ → E → Ended × E)
      → ((tries : Tries) (n : ℕ) (e : E) → IfFlat ts (next tries n e))
      → IfFlat ts (after_sweep send enabled mark_of note emergency q next)
  after_sweep-IfFlat (swept tries n, e) ts next h = h tries n e
  after_sweep-IfFlat (stopped w n, e) ts next h = tt
  after_sweep-IfFlat (crashed x, e) ts next h = tt

  on_sizes-IfFlat :
      (m : Result (List PositionRow) × E) (e : E) (ts : List (ExitTarget W)) (tries : Tries) (n : ℕ)
      (next : Tries → ℕ → E → Ended × E)
      → positions send e ≡ m
      → ((tries : Tries) (n : ℕ) (e : E) → IfFlat ts (next tries n e))
      → IfFlat ts (on_sizes send enabled mark_of note emergency m ts tries n next)
  on_sizes-IfFlat (raised x, e₁) e ts tries n next p h = tt
  on_sizes-IfFlat (ok rows, e₁) e ts tries n next p h =
      on_still-IfFlat (is_empty (still send enabled mark_of note emergency rows ts)) refl
    where
      on_still-IfFlat :
          (b : Bool)
          → is_empty (still send enabled mark_of note emergency rows ts) ≡ b
          → IfFlat ts (on_still send enabled mark_of note emergency b rows ts tries n e₁ next)
      on_still-IfFlat true q = (e, rows, p, still_empty rows ts q)
      on_still-IfFlat false q = after_sweep-IfFlat _ ts next h

  rounds-IfFlat :
      (n : ℕ) (ts : List (ExitTarget W)) (tries : Tries) (k : ℕ) (e : E)
      → IfFlat ts (run_rounds n ts tries k e)
  unfolding rounds
  rounds-IfFlat zero ts tries k e = tt
  rounds-IfFlat (suc n) ts tries k e =
      on_sizes-IfFlat (positions send e) e ts tries k _ refl
        (λ tries' k' e'. rounds-IfFlat n ts tries' k' e')

  clean_up-Confirmed :
      (ts : List (ExitTarget W)) (m : Ended × E) (e' : E) (res : ExitResult)
      → IfFlat ts m
      → clean_up send enabled mark_of note emergency ts m ≡ (finished res, e')
      → res.flat ≡ true
      → (e₁ : E) × Confirmed ts e₁
        × (cancel_all send enabled mark_of note emergency ts e₁ ≡ (ok tt, e'))
  clean_up-Confirmed ts (failed x, e₁) e' res k h flat = cc
  clean_up-Confirmed ts (finished r, e₁) e' res k h flat = elim (Bool-cases r.flat) [
    | inl y ↦ (e₁, rw y at k, ground arith)
    | inr n ↦ absurd (ground arith)
  ]

  -- An exit that reports `flat` has read every target as flat from the exchange, and after that read it has
  -- only sent its cancellations.
  pub exit_group-Confirmed :
      (ts : List (ExitTarget W)) (e e' : E) {res : ExitResult}
      → exit_group send enabled mark_of note emergency ts e ≡ (finished res, e')
      → res.flat ≡ true
      → (e₁ : E) × Confirmed ts e₁
        × (cancel_all send enabled mark_of note emergency ts e₁ ≡ (ok tt, e'))
  unfolding exit_group
  exit_group-Confirmed ts e e' {res} h flat =
      clean_up-Confirmed ts (run_rounds max_rounds ts (λ _. 0) 0 e) e' res
        (rounds-IfFlat max_rounds ts (λ _. 0) 0 e) h flat
