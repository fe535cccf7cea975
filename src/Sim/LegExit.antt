-- ===== src/Sim/LegExit.antt =====
-- What closing one leg does to the account, the ledger and the position.
use mathlib.Core.Path.{subst}
use delta_paper_trader.Prelude.{
  Bool, false, ◌⊎◌, ℕ, ◌==◌, ◌≡◌, refl, true, not, ◌&&◌, Option, some, List, [], ◌∷◌, find, filter,
  is_empty, Bool-cases, inl, inr, arith,
}
use delta_paper_trader.Float.{Float, ◌⊖◌, nought, truthy}
use delta_paper_trader.Float.Laws.{IsOrdered, IsRounded}
use delta_paper_trader.Models.{
  Leg, Position, Account, LedgerEntry, CloseReason, is_opened, open_legs,
}
use delta_paper_trader.Sim.{
  quote_failed, lets_through, MarketView, Db, done, MarginReply, get_position, get_account,
  apply_change, closable, close_leg, closing_leg, remaining_margin, shut_one, shut_leg,
}
use delta_paper_trader.Sim.Closing.{
  replayed, Settled, apply_change-account, apply_change-position, find_holds,
}

module _ {W : Type 0} ⦃f : Float W⦄ where
  -- The legs that are left when one is closed.
  abbrev pub others : ℕ → Position W → List (Leg W)
  others leg_id p = filter (λ (l : Leg W). not (l.id == leg_id)) (open_legs p.legs)

  -- Legs remain, and their margin quote raises something else than `ValueError`.
  abbrev pub quote_fails : (Position W → List (Leg W) → MarginReply W) → ℕ → Position W → Bool
  quote_fails quotes leg_id p =
      lets_through (is_empty (others leg_id p)) (quotes p (others leg_id p))

  -- The position is found on its source with the other legs open, and is itself open as long as there are any.
  abbrev pub Reduced : ℕ → ℕ → ℕ → Position W → Db W → Type 0
  Reduced user_id pos_id leg_id p db' =
      (p' : Position W) × (get_position user_id pos_id db' ≡ some p')
      × (open_legs p'.legs ≡ others leg_id p)
      × (is_opened p'.status ≡ not (is_empty (others leg_id p)))
      × (p'.source ≡ p.source)

module _ {W : Type 0} ⦃f : Float W⦄ (o : IsOrdered W) (r : IsRounded W) where
  closing_leg-replayed :
      (mv : MarketView W) (now : ℕ) (why : CloseReason) (settle : Option W) (reply : MarginReply W)
      (p : Position W) (lg : Leg W) (a : Account W)
      → let c = closing_leg mv now why settle reply p lg a in
        c.account.balance_usd ≡ replayed a.balance_usd c.entries
  unfolding closing_leg
  closing_leg-replayed mv now why settle reply p lg a =
      let last = is_empty (filter (λ (l : Leg W). not (l.id == lg.id)) (open_legs p.legs)) in
      let released = p.margin ⊖ (remaining_margin mv now last reply p).0 in
      elim (Bool-cases (truthy released)) [
        | inl e ↦ rw (e, r.add_neg) refl
        | inr e ↦
            let zero : released ≡ nought = ground (arith, o.le_antisymm released nought) in
            rw (e, r.add_neg, zero, r.add_nought) refl
      ]

module _ {W : Type 0} ⦃f : Float W⦄ (mv : MarketView W) (now : ℕ) (o : IsOrdered W)
    (r : IsRounded W) where
  close_leg_open :
      (quotes : Position W → List (Leg W) → MarginReply W) (user_id pos_id leg_id : ℕ)
      (why : CloseReason) (settle_price : Option W) (db : Db W) (p : Position W) (lg : Leg W)
      (a : Account W)
      → get_position user_id pos_id db ≡ some p
      → find (λ (l : Leg W). (l.id == leg_id) && is_opened l.status) p.legs ≡ some lg
      → get_account user_id db ≡ some a
      → closable p ≡ true
      → quote_fails quotes leg_id p ≡ false
      → close_leg mv now quotes user_id pos_id leg_id why settle_price db
        ≡ done true (
            apply_change user_id pos_id
              (closing_leg mv now why settle_price
                (quotes p (filter (λ (l : Leg W). not (l.id == leg_id)) (open_legs p.legs)))
                p
                lg
                a)
              db)
  unfolding close_leg
  close_leg_open quotes user_id pos_id leg_id why settle_price db p lg a hp hl ha hc hq =
      ground (arith, hp, hl, ha, hc, hq)

  close_leg_fails :
      (quotes : Position W → List (Leg W) → MarginReply W) (user_id pos_id leg_id : ℕ)
      (why : CloseReason) (settle_price : Option W) (db : Db W) (p : Position W) (lg : Leg W)
      → get_position user_id pos_id db ≡ some p
      → find (λ (l : Leg W). (l.id == leg_id) && is_opened l.status) p.legs ≡ some lg
      → closable p ≡ true
      → quote_fails quotes leg_id p ≡ true
      → close_leg mv now quotes user_id pos_id leg_id why settle_price db ≡ quote_failed
  unfolding close_leg
  close_leg_fails quotes user_id pos_id leg_id why settle_price db p lg hp hl hc hq =
      ground (arith, hp, hl, hc, hq)

  open_legs-shut_one :
      (leg_id : ℕ) (why : CloseReason) (ex gross fees : W) (legs : List (Leg W))
      → open_legs (shut_one mv now leg_id (shut_leg mv now why ex gross fees) legs)
        ≡ filter (λ (l : Leg W). not (l.id == leg_id)) (open_legs legs)
  open_legs-shut_one leg_id why ex gross fees [] = refl
  open_legs-shut_one leg_id why ex gross fees (l ∷ legs) =
      ground (arith, open_legs-shut_one leg_id why ex gross fees legs)

  closing_leg-Reduced :
      (why : CloseReason) (settle : Option W) (reply : MarginReply W) (p : Position W) (lg : Leg W)
      (a : Account W)
      → is_opened p.status ≡ true
      → (open_legs (closing_leg mv now why settle reply p lg a).position.legs ≡ others lg.id p)
        × (is_opened (closing_leg mv now why settle reply p lg a).position.status
            ≡ not (is_empty (others lg.id p)))
        × ((closing_leg mv now why settle reply p lg a).position.id ≡ p.id)
        × ((closing_leg mv now why settle reply p lg a).position.user_id ≡ p.user_id)
        × ((closing_leg mv now why settle reply p lg a).position.source ≡ p.source)
  unfolding closing_leg
  closing_leg-Reduced why settle reply p lg a h = elim (Bool-cases (is_empty (others lg.id p))) [
    | inl e ↦ rw e (open_legs-shut_one lg.id why _ _ _ p.legs, refl, refl, refl, refl)
    | inr e ↦ rw e (open_legs-shut_one lg.id why _ _ _ p.legs, h, refl, refl, refl)
  ]

  -- Closing an open leg of an open paper position of a user with an account raises when legs remain and
  -- their margin quote raises something else than `ValueError`, and otherwise succeeds. The account's new balance
  -- follows from the old balance by the amounts of the new entries in order; and the position is found
  -- on its source with its other open legs open and no more, and is itself open exactly when there are any.
  pub close_leg_settles :
      (quotes : Position W → List (Leg W) → MarginReply W) (user_id pos_id leg_id : ℕ)
      (why : CloseReason) (settle_price : Option W) (db : Db W) (p : Position W) (lg : Leg W)
      (a : Account W)
      → get_position user_id pos_id db ≡ some p
      → find (λ (l : Leg W). (l.id == leg_id) && is_opened l.status) p.legs ≡ some lg
      → get_account user_id db ≡ some a
      → closable p ≡ true
      → ((quote_fails quotes leg_id p ≡ true)
          × (close_leg mv now quotes user_id pos_id leg_id why settle_price db ≡ quote_failed))
        ⊎ ((quote_fails quotes leg_id p ≡ false)
            × (db' : Db W) × (entries : List (LedgerEntry W)) × (close_leg mv now quotes user_id
                  pos_id leg_id why settle_price db
                ≡ done true db')
            × Settled user_id a entries db db'
            × Reduced user_id pos_id leg_id p db')
  unfolding closing_leg apply_change
  close_leg_settles quotes user_id pos_id leg_id why settle_price db p lg a hp hl ha hc =
      let remaining = filter (λ (l : Leg W). not (l.id == leg_id)) (open_legs p.legs) in
      let reply = quotes p remaining in
      let c = closing_leg mv now why settle_price reply p lg a in
      let kept = closing_leg-Reduced why settle_price reply p lg a (ground (arith, hc)) in
      let fits = find_holds (λ (l : Leg W). (l.id == leg_id) && is_opened l.status) p.legs lg hl in
      let same : lg.id ≡ leg_id = ground (arith, fits) in
      elim (Bool-cases (quote_fails quotes leg_id p)) [
        | inl q ↦
            inl
              (q, close_leg_fails quotes user_id pos_id leg_id why settle_price db p lg hp hl hc q)
        | inr q ↦ inr (
          q,
          apply_change user_id pos_id c db,
          c.entries,
          close_leg_open quotes user_id pos_id leg_id why settle_price db p lg a hp hl ha hc q,
          (
            c.account,
            apply_change-account user_id pos_id c db a ha refl,
            refl,
            closing_leg-replayed o r mv now why settle_price reply p lg a,
          ),
          subst (λ i. Reduced user_id pos_id i p (apply_change user_id pos_id c db)) same
              (
                c.position,
                apply_change-position user_id pos_id c db p hp kept.2 kept.3,
                kept.0,
                kept.1,
                kept.4,
              ),
        )
      ]
