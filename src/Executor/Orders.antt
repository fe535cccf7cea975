-- ===== src/Executor/Orders.antt =====
-- How many orders an exit counts.
use Prim.Native.String.{String}
use mathlib.Core.Path.{subst}
use native.Mathlib.Nat.{suc-mul}
use delta_paper_trader.Prelude.{
  ℕ, zero, suc, ◌+◌, ◌*◌, ◌≤◌, ◌≡◌, Bool, true, false, not, List, [], ◌∷◌, ◌++◌, arith, Bool-cases,
  inl, inr, length, filter, is_empty,
}
use delta_paper_trader.Prelude.Int.{is_zero, is_negative}
use delta_paper_trader.Float.{Float}
use delta_paper_trader.Risk.{Level}
use delta_paper_trader.Client.{
  M, Result, ok, raised, order_refused, delta_error, http_error, malformed, PositionRow, Transport,
  positions,
}
use delta_paper_trader.Executor.{
  ExitTarget, ExitResult, Ended, finished, failed, Round, swept, stopped, crashed, Tries, size_of,
  still, sweep, after_attempt, after_sweep, on_sizes, on_still, then_stop, then_next, rounds,
  clean_up, report, exit_group, bump, max_rounds, cancel_all,
}

length-filter : {A : Type 0} (p : A → Bool) (xs : List A) → length (filter p xs) ≤ length xs
length-filter p [] = omega arith
length-filter p (x ∷ xs) = ground (arith, length-filter p xs)

length-append : {A : Type 0} (xs ys : List A) → length (xs ++ ys) ≡ length xs + length ys
length-append [] ys = omega arith
length-append (x ∷ xs) ys = ground (arith, length-append xs ys)

length-split :
    {A : Type 0} (p : A → Bool) (xs : List A)
    → length (filter p xs) + length (filter (λ x. not (p x)) xs) ≡ length xs
length-split p [] = omega arith
length-split p (x ∷ xs) = ground (arith, length-split p xs)

module _ {W : Type 0} {E : Type 0} ⦃f : Float W⦄ (send : Transport W E) (enabled : Bool)
    (mark_of : String → W) (note : Level → M E (Unit {0})) (emergency : Bool) where
  length-still :
      (rows : List PositionRow) (ts : List (ExitTarget W))
      → length (still send enabled mark_of note emergency rows ts) ≤ length ts
  unfolding still
  length-still rows ts =
      let us = filter (λ (t : ExitTarget W). not (is_zero (size_of rows t.product_id))) ts in
      let short = λ (t : ExitTarget W). is_negative (size_of rows t.product_id) in
      omega (
        arith,
        length-append (filter short us) (filter (λ t. not (short t)) us),
        length-split short us,
        length-filter (λ (t : ExitTarget W). not (is_zero (size_of rows t.product_id))) ts,
      )

  -- The orders that a round leaves counted.
  abbrev Counts : ℕ → Round × E → Type 0
  Counts k (swept tries n, e) = n ≤ k
  Counts k (stopped x n, e) = n ≤ k
  Counts k (crashed x, e) = Unit

  after_attempt-Counts :
      (m : Result (Unit {0}) × E) (n k : ℕ) (next : ℕ → E → Round × E)
      → n ≤ k
      → ((i : ℕ) (e : E) → i ≤ suc n → Counts k (next i e))
      → Counts k (after_attempt send enabled mark_of note emergency m n next)
  after_attempt-Counts (ok u, e) n k next h step = step (suc n) e (omega arith)
  after_attempt-Counts (raised (order_refused x), e) n k next h step = stop (note _ e)
    where
      stop :
          (r : Result (Unit {0}) × E)
          → Counts k (then_stop send enabled mark_of note emergency r x n)
      stop (ok u, e') = h
      stop (raised y, e') = tt
  after_attempt-Counts (raised (delta_error c), e) n k next h step = go (note _ e)
    where
      go :
          (r : Result (Unit {0}) × E)
          → Counts k (then_next send enabled mark_of note emergency r n next)
      go (ok u, e') = step n e' (omega arith)
      go (raised y, e') = tt
  after_attempt-Counts (raised http_error, e) n k next h step = tt
  after_attempt-Counts (raised malformed, e) n k next h step = tt

  sweep-Counts :
      (rows : List PositionRow) (us : List (ExitTarget W)) (tries : Tries) (n k : ℕ) (e : E)
      → n + length us ≤ k
      → Counts k (sweep send enabled mark_of note emergency rows us tries n e)
  unfolding sweep
  sweep-Counts rows [] tries n k e h = omega arith
  sweep-Counts rows (t ∷ us) tries n k e h =
      after_attempt-Counts _ n k _ (omega arith)
        (λ i e' le. sweep-Counts rows us (bump t.product_id tries) i k e' (omega arith))

  abbrev AtMost : ℕ → Ended × E → Type 0
  AtMost k (finished res, e) = res.orders ≤ k
  AtMost k (failed x, e) = Unit

  after_sweep-AtMost :
      (q : Round × E) (j k : ℕ) (next : Tries → ℕ → E → Ended × E)
      → j ≤ k
      → Counts j q
      → ((tries : Tries) (n : ℕ) (e : E) → n ≤ j → AtMost k (next tries n e))
      → AtMost k (after_sweep send enabled mark_of note emergency q next)
  after_sweep-AtMost (swept tries n, e) j k next le h step = step tries n e h
  after_sweep-AtMost (stopped x n, e) j k next le h step = omega arith
  after_sweep-AtMost (crashed x, e) j k next le h step = tt

  on_still-AtMost :
      (b : Bool) (rows : List PositionRow) (ts : List (ExitTarget W)) (tries : Tries) (n k : ℕ)
      (e : E) (next : Tries → ℕ → E → Ended × E)
      → n + length ts ≤ k
      → ((tries : Tries) (i : ℕ) (e : E) → i ≤ n + length ts → AtMost k (next tries i e))
      → AtMost k (on_still send enabled mark_of note emergency b rows ts tries n e next)
  on_still-AtMost true rows ts tries n k e next le step = omega arith
  on_still-AtMost false rows ts tries n k e next le step =
      after_sweep-AtMost _ (n + length ts) k next le
        (sweep-Counts rows (still send enabled mark_of note emergency rows ts) tries n
          (n + length ts) e (omega (arith, length-still rows ts)))
        step

  on_sizes-AtMost :
      (m : Result (List PositionRow) × E) (ts : List (ExitTarget W)) (tries : Tries) (n k : ℕ)
      (next : Tries → ℕ → E → Ended × E)
      → n + length ts ≤ k
      → ((tries : Tries) (i : ℕ) (e : E) → i ≤ n + length ts → AtMost k (next tries i e))
      → AtMost k (on_sizes send enabled mark_of note emergency m ts tries n next)
  on_sizes-AtMost (raised x, e) ts tries n k next le step = tt
  on_sizes-AtMost (ok rows, e) ts tries n k next le step =
      on_still-AtMost (is_empty (still send enabled mark_of note emergency rows ts)) rows ts tries n
        k e next le step

  rounds-AtMost :
      (j : ℕ) (ts : List (ExitTarget W)) (tries : Tries) (n k : ℕ) (e : E)
      → n + j * length ts ≤ k
      → AtMost k (rounds send enabled mark_of note emergency j ts tries n e)
  unfolding rounds
  rounds-AtMost zero ts tries n k e h = omega arith
  rounds-AtMost (suc j) ts tries n k e h =
      let split : suc j * length ts ≡ j * length ts + length ts = suc-mul j (length ts) in
      on_sizes-AtMost (positions send e) ts tries n k _ (omega (arith, split))
        (λ tries' i e' le. rounds-AtMost j ts tries' i k e' (omega (arith, split)))

  clean_up-AtMost :
      (k : ℕ) (ts : List (ExitTarget W)) (m : Ended × E)
      → AtMost k m
      → AtMost k (clean_up send enabled mark_of note emergency ts m)
  clean_up-AtMost k ts (failed x, e) h = tt
  clean_up-AtMost k ts (finished res, e) h = elim (Bool-cases res.flat) [
    | inl y ↦ rw y (reported _ (cancel_all send enabled mark_of note emergency ts e) h)
    | inr n ↦ rw n h
  ]
    where
      reported :
          (x : ExitResult) (r : Result (Unit {0}) × E)
          → x.orders ≤ k
          → AtMost k (report send enabled mark_of note emergency x r)
      reported x (ok u, e') le = le
      reported x (raised y, e') le = tt

  -- An exit that ends without an exception has counted at most 30 orders for each of its targets.
  pub exit_group-bounded :
      (ts : List (ExitTarget W)) (e e' : E) (res : ExitResult)
      → exit_group send enabled mark_of note emergency ts e ≡ (finished res, e')
      → res.orders ≤ max_rounds * length ts
  unfolding exit_group
  exit_group-bounded ts e e' res h = subst (AtMost (max_rounds * length ts)) h (
      clean_up-AtMost (max_rounds * length ts) ts _
        (rounds-AtMost max_rounds ts (λ _. 0) 0 (max_rounds * length ts) e (omega arith)))
