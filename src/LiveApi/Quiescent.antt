-- ===== src/LiveApi/Quiescent.antt =====
-- Decisions that are not of a basket, and edits of the first match that are undone.
use delta_paper_trader.Prelude.{
  ◌≡◌, refl, ap, Bool, true, false, some, List, [], ◌∷◌, ◌++◌, find, is_empty, Bool-cases, inl, inr,
}
use delta_paper_trader.Exit.{
  ExitDecision, none_due, suspended, close_strategy, close_legs, Reason, Cause, no_cause,
  combined_sl, leg_tp_sl, leg_sl, leg_target, basket_target,
}
use delta_paper_trader.Sync.Live.{settle, renamed, is_leg_cause}
use delta_paper_trader.LiveApi.{edit_first}

-- The decision closes the group for its basket's stop or target.
abbrev pub is_basket_cause : Cause → Bool
is_basket_cause no_cause = false
is_basket_cause combined_sl = true
is_basket_cause leg_tp_sl = false
is_basket_cause leg_sl = false
is_basket_cause leg_target = false
is_basket_cause basket_target = true

abbrev pub is_basket_exit : ExitDecision → Bool
is_basket_exit none_due = false
is_basket_exit suspended = false
is_basket_exit (close_strategy why) = is_basket_cause why.cause
is_basket_exit (close_legs why ids) = is_basket_cause why.cause

renamed_cause : (hit : Bool) (why : Reason) → is_basket_cause (renamed hit why).cause ≡ false
renamed_cause true why = refl
renamed_cause false why = refl

-- Without a basket's target, the last step adds no basket exit.
pub settle_quiet :
    (hit : Bool) (d : ExitDecision)
    → is_basket_exit d ≡ false
    → is_basket_exit (settle false hit d) ≡ false
settle_quiet hit none_due h = refl
settle_quiet hit suspended h = refl
settle_quiet hit (close_strategy why) h = elim (Bool-cases (is_leg_cause why.cause)) [
  | inl e ↦ rw e (renamed_cause hit why)
  | inr e ↦ rw e h
]
settle_quiet hit (close_legs why ids) h = elim (Bool-cases (is_leg_cause why.cause)) [
  | inl e ↦ rw e (renamed_cause hit why)
  | inr e ↦ rw e h
]

module _ {A : Type 0} where
  pub is_empty-append :
      (xs ys : List A) → is_empty (xs ++ ys) ≡ true → (is_empty xs ≡ true) × (is_empty ys ≡ true)
  is_empty-append [] ys h = (refl, h)
  is_empty-append (x ∷ xs) ys h = cc

  -- An edit of the first match that keeps it a match is undone by its inverse there.
  pub edit_first-undo :
      (test : A → Bool) (g undo : A → A) (xs : List A) (x : A)
      → find test xs ≡ some x
      → test (g x) ≡ true
      → undo (g x) ≡ x
      → edit_first test undo (edit_first test g xs) ≡ xs
  unfolding edit_first
  edit_first-undo test g undo [] x h k u = cc
  edit_first-undo test g undo (y ∷ xs) x h k u = elim (Bool-cases (test y)) [
    | inl e ↦
        let s : some y ≡ some x = rw e at h in
        let s' : y ≡ x = cc in
        let k' : test (g y) ≡ true = rw s' k in
        let u' : undo (g y) ≡ y = rw s' u in rw (e, k', u') refl
    | inr e ↦ rw (e, e) (ap (λ ys. y ∷ ys) (edit_first-undo test g undo xs x (rw e at h) k u))
  ]

  pub find-edit_first :
      (test : A → Bool) (g : A → A) (xs : List A) (x : A)
      → find test xs ≡ some x
      → test (g x) ≡ true
      → find test (edit_first test g xs) ≡ some (g x)
  unfolding edit_first
  find-edit_first test g [] x h k = cc
  find-edit_first test g (y ∷ xs) x h k = elim (Bool-cases (test y)) [
    | inl e ↦
        let s : some y ≡ some x = rw e at h in
        let s' : y ≡ x = cc in
        let k' : test (g y) ≡ true = rw s' k in rw (e, k') (ap (λ z. some (g z)) s')
    | inr e ↦ rw (e, e) (find-edit_first test g xs x (rw e at h) k)
  ]
