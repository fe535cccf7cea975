-- ===== src/Sim/Closing.antt =====
-- What closing a position or a leg does to the account, the ledger and the position.
use delta_paper_trader.Prelude.{
  ℕ, ◌==◌, ◌≡◌, refl, Bool, true, false, some, List, [], ◌∷◌, ◌++◌, map, find, if◌then◌else◌,
  Bool-cases, inl, inr, arith,
}
use delta_paper_trader.Float.{Float, ◌⊕◌}
use delta_paper_trader.Float.Laws.{IsOrdered, IsRounded}
use delta_paper_trader.Models.{
  Leg, Position, Account, LedgerEntry, CloseReason, is_opened, open_legs,
}
use delta_paper_trader.Sim.{
  MarketView, Db, done, Changed, get_position, get_account, apply_change, is_position,
  close_position, closing, closable, close_open_leg,
}

module _ {A : Type 0} where
  pub find_holds : (q : A → Bool) (xs : List A) (x : A) → find q xs ≡ some x → q x ≡ true
  find_holds q [] x h = cc
  find_holds q (y ∷ xs) x h = elim (Bool-cases (q y)) [
    | inl e ↦ let k : some y ≡ some x = rw e at h in cc
    | inr e ↦ find_holds q xs x (rw e at h)
  ]

  -- A row written over the row that was found is what is found next.
  pub find-map :
      (q : A → Bool) (xs : List A) (x y : A)
      → find q xs ≡ some x
      → q y ≡ true
      → find q (map (λ a. if q a then y else a) xs) ≡ some y
  find-map q [] x y h k = cc
  find-map q (z ∷ xs) x y h k = elim (Bool-cases (q z)) [
    | inl e ↦ rw (e, k) refl
    | inr e ↦ rw (e, e) (find-map q xs x y (rw e at h) k)
  ]

module _ {W : Type 0} ⦃f : Float W⦄ where
  -- The balance after the entries, from the balance before them.
  abbrev pub replayed : W → List (LedgerEntry W) → W
  replayed b [] = b
  replayed b (e ∷ entries) = replayed (b ⊕ e.amount) entries

  -- The running balance of each entry is the one before it and its amount.
  abbrev pub Runs : W → List (LedgerEntry W) → Type 0
  Runs b [] = Unit
  Runs b (e ∷ entries) = (e.balance_after ≡ b ⊕ e.amount) × Runs (b ⊕ e.amount) entries

module _ {W : Type 0} ⦃f : Float W⦄ (mv : MarketView W) (now : ℕ) (o : IsOrdered W)
    (r : IsRounded W) where
  closing-Runs :
      (why : CloseReason) (p : Position W) (a : Account W)
      → Runs a.balance_usd (closing mv now why p a).entries
        × ((closing mv now why p a).account.balance_usd
            ≡ replayed a.balance_usd (closing mv now why p a).entries)
  unfolding closing
  closing-Runs why p a = rw (r.add_neg) ((refl, (refl, (refl, tt))), refl)

  leg_shut :
      (why : CloseReason) (lg : Leg W) → is_opened (close_open_leg mv now why lg).status ≡ false
  unfolding close_open_leg
  leg_shut why lg = elim (Bool-cases (is_opened lg.status)) [ inl e ↦ rw e | inr e ↦ rw e e ]

  legs_shut :
      (why : CloseReason) (legs : List (Leg W))
      → open_legs (map (close_open_leg mv now why) legs) ≡ []
  legs_shut why [] = refl
  legs_shut why (lg ∷ legs) = rw (leg_shut why lg) (legs_shut why legs)

module _ {W : Type 0} ⦃f : Float W⦄ where
  -- The account of the user is found with a balance that follows from the old one by the new entries.
  abbrev pub Settled : ℕ → Account W → List (LedgerEntry W) → Db W → Db W → Type 0
  Settled user_id a entries db db' =
      (a' : Account W) × (get_account user_id db' ≡ some a')
      × (db'.ledger ≡ entries ++ db.ledger)
      × (a'.balance_usd ≡ replayed a.balance_usd entries)

  -- The position is found closed, with no open leg.
  abbrev pub Shut : ℕ → ℕ → Db W → Type 0
  Shut user_id pos_id db =
      (p : Position W) × (get_position user_id pos_id db ≡ some p)
      × (is_opened p.status ≡ false)
      × (open_legs p.legs ≡ [])

  pub apply_change-account :
      (user_id pos_id : ℕ) (c : Changed W) (db : Db W) (a : Account W)
      → get_account user_id db ≡ some a
      → c.account.user_id ≡ a.user_id
      → get_account user_id (apply_change user_id pos_id c db) ≡ some c.account
  unfolding get_account apply_change
  apply_change-account user_id pos_id c db a h k =
      find-map (λ (b : Account W). b.user_id == user_id) db.accounts a c.account h
        (rw k (find_holds (λ (b : Account W). b.user_id == user_id) db.accounts a h))

  pub apply_change-position :
      (user_id pos_id : ℕ) (c : Changed W) (db : Db W) (p : Position W)
      → get_position user_id pos_id db ≡ some p
      → c.position.id ≡ p.id
      → c.position.user_id ≡ p.user_id
      → get_position user_id pos_id (apply_change user_id pos_id c db) ≡ some c.position
  unfolding get_position apply_change
  apply_change-position user_id pos_id c db p h k l =
      find-map (is_position user_id pos_id) db.positions p c.position h
        (rw (k, l) (find_holds (is_position user_id pos_id) db.positions p h))

module _ {W : Type 0} ⦃f : Float W⦄ (mv : MarketView W) (now : ℕ) (o : IsOrdered W)
    (r : IsRounded W) where
  close_position_closed :
      (user_id pos_id : ℕ) (why : CloseReason) (db : Db W) (p : Position W)
      → get_position user_id pos_id db ≡ some p
      → is_opened p.status ≡ false
      → close_position mv now user_id pos_id why db ≡ done false db
  unfolding close_position
  close_position_closed user_id pos_id why db p h k = ground (arith, h, k)

  close_position_open :
      (user_id pos_id : ℕ) (why : CloseReason) (db : Db W) (p : Position W) (a : Account W)
      → get_position user_id pos_id db ≡ some p
      → get_account user_id db ≡ some a
      → closable p ≡ true
      → close_position mv now user_id pos_id why db
        ≡ done true (apply_change user_id pos_id (closing mv now why p a) db)
  unfolding close_position
  close_position_open user_id pos_id why db p a hp ha hc = ground (arith, hp, hc, ha)

  -- Closing an open paper position of a user with an account succeeds. The account's new balance and the running
  -- balance of each new entry follow from the old balance by the amounts of the entries in order; the
  -- position is found closed without an open leg; and closing it again changes nothing.
  pub close_position_settles :
      (user_id pos_id : ℕ) (why again : CloseReason) (db : Db W) (p : Position W) (a : Account W)
      → get_position user_id pos_id db ≡ some p
      → get_account user_id db ≡ some a
      → closable p ≡ true
      → (db' : Db W) × (entries : List (LedgerEntry W)) × (close_position mv now user_id pos_id why
            db
          ≡ done true db')
        × Settled user_id a entries db db'
        × Runs a.balance_usd entries
        × Shut user_id pos_id db'
        × (close_position mv now user_id pos_id again db' ≡ done false db')
  unfolding closing apply_change
  close_position_settles user_id pos_id why again db p a hp ha hc =
      let c = closing mv now why p a in
      let db' = apply_change user_id pos_id c db in
      let found = apply_change-position user_id pos_id c db p hp refl refl in
      let (runs, sum) = closing-Runs mv now o r why p a in
      (
        db',
        c.entries,
        close_position_open user_id pos_id why db p a hp ha hc,
        (c.account, apply_change-account user_id pos_id c db a ha refl, refl, sum),
        runs,
        (c.position, found, refl, legs_shut mv now o r why p.legs),
        close_position_closed user_id pos_id again db' c.position found refl,
      )
