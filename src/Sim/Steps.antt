-- ===== src/Sim/Steps.antt =====
-- Closing legs of a position one after the other: what each call leaves for the next.
use delta_paper_trader.Prelude.{
  ℕ, ◌==◌, ◌≡◌, refl, sym, ap, ◌∙◌, Bool, true, false, not, ◌&&◌, Option, none, some, List, [], ◌∷◌,
  find, filter, is_empty, Bool-cases, Option-cases, inl, inr, arith,
}
use delta_paper_trader.Float.{Float}
use delta_paper_trader.Float.Laws.{IsOrdered, IsRounded}
use delta_paper_trader.Models.{Leg, Position, Account, CloseReason, is_opened, open_legs}
use delta_paper_trader.Sim.{
  is_other_error, MarketView, Db, done, MarginReply, get_position, get_account, is_live, close_leg,
  close_position,
}
use delta_paper_trader.Sim.Closing.{Shut, close_position_settles}
use delta_paper_trader.Sim.LegExit.{quote_fails, others, close_leg_settles}

module _ {W : Type 0} ⦃f : Float W⦄ where
  -- The position is found on paper, open exactly while a leg of it is open, and its user has an account.
  abbrev pub Held : ℕ → ℕ → Position W → Db W → Type 0
  Held user_id pos_id p db =
      (get_position user_id pos_id db ≡ some p)
      × (is_live p.source ≡ false)
      × (is_opened p.status ≡ not (is_empty (open_legs p.legs)))
      × (a : Account W) × (get_account user_id db ≡ some a)

  pub no_legs_open : (legs : List (Leg W)) → not (is_empty legs) ≡ false → legs ≡ []
  no_legs_open [] h = refl
  no_legs_open (lg ∷ legs) h = cc

  others-none_found :
      (leg_id : ℕ) (legs : List (Leg W))
      → find (λ (l : Leg W). (l.id == leg_id) && is_opened l.status) legs ≡ none
      → filter (λ (l : Leg W). not (l.id == leg_id)) (open_legs legs) ≡ open_legs legs
  others-none_found leg_id [] h = refl
  others-none_found leg_id (l ∷ legs) h = ground (arith, h, others-none_found leg_id legs)

module _ {W : Type 0} ⦃f : Float W⦄ (mv : MarketView W) (now : ℕ)
    (quotes : Position W → List (Leg W) → MarginReply W) where
  close_leg-none :
      (user_id pos_id leg_id : ℕ) (why : CloseReason) (settle : Option W) (db : Db W)
      (p : Position W)
      → get_position user_id pos_id db ≡ some p
      → find (λ (l : Leg W). (l.id == leg_id) && is_opened l.status) p.legs ≡ none
      → close_leg mv now quotes user_id pos_id leg_id why settle db ≡ done false db
  unfolding close_leg
  close_leg-none user_id pos_id leg_id why settle db p hp hl = ground (arith, hp, hl)

  close_leg_closed :
      (user_id pos_id leg_id : ℕ) (why : CloseReason) (settle : Option W) (db : Db W)
      (p : Position W)
      → get_position user_id pos_id db ≡ some p
      → is_opened p.status ≡ false
      → close_leg mv now quotes user_id pos_id leg_id why settle db ≡ done false db
  unfolding close_leg
  close_leg_closed user_id pos_id leg_id why settle db p hp hl = ground (arith, hp, hl)

module _ {W : Type 0} ⦃f : Float W⦄ (mv : MarketView W) (now : ℕ) (o : IsOrdered W)
    (r : IsRounded W) (quotes : Position W → List (Leg W) → MarginReply W)
    (calm : (q : Position W) (legs : List (Leg W)) → is_other_error (quotes q legs) ≡ false) where
  answered : (leg_id : ℕ) (p : Position W) → quote_fails quotes leg_id p ≡ true → ⊥
  answered leg_id p h = ground (arith, h, calm p (others leg_id p))

  -- When the quote raises nothing but `ValueError`, a call of `close_leg` ends without an exception, and leaves the other open legs.
  pub close_leg_step :
      (user_id pos_id leg_id : ℕ) (why : CloseReason) (settle : Option W) (db : Db W)
      (p : Position W)
      → Held user_id pos_id p db
      → (b : Bool) × (db' : Db W) × (p' : Position W) × (close_leg mv now quotes user_id pos_id
            leg_id why settle db
          ≡ done b db')
        × Held user_id pos_id p' db'
        × (open_legs p'.legs ≡ others leg_id p)
  close_leg_step user_id pos_id leg_id why settle db p (hp, hs, ho, a, ha) =
      elim (Bool-cases (is_opened p.status)) [
        | inr e ↦
            let nil : open_legs p.legs ≡ [] = no_legs_open (open_legs p.legs) (sym ho ∙ e) in
            let same : open_legs p.legs ≡ others leg_id p =
              nil ∙ sym (ap (λ ls. filter (λ (l : Leg W). not (l.id == leg_id)) ls) nil) in
            (
              false,
              db,
              p,
              close_leg_closed mv now quotes user_id pos_id leg_id why settle db p hp e,
              (hp, hs, ho, a, ha),
              same,
            )
        | inl e ↦
            let test : Leg W → Bool = λ l. (l.id == leg_id) && is_opened l.status in
            elim (Option-cases (find test p.legs)) [
              | inl n ↦ (
                false,
                db,
                p,
                close_leg-none mv now quotes user_id pos_id leg_id why settle db p hp n,
                (hp, hs, ho, a, ha),
                sym (others-none_found leg_id p.legs n),
              )
              | inr s ↦
                  let (lg, hl) = s in
                  elim (close_leg_settles mv now o r quotes user_id pos_id leg_id why settle db p lg
                    a hp hl ha (ground (arith, e, hs))) [
                      | inl fails ↦ absurd (answered leg_id p fails.0)
                      | inr works ↦
                          let (
                            calm_here,
                            db',
                            entries,
                            run,
                            (a', ha', hled, hbal),
                            (p', hp', hopen, hstatus, hsource),
                          ) =
                            works in
                          (
                            true,
                            db',
                            p',
                            run,
                            (
                              hp',
                              ap is_live hsource ∙ hs,
                              hstatus ∙ ap (λ ls. not (is_empty ls)) (sym hopen),
                              a',
                              ha',
                            ),
                            hopen,
                          )
                    ]
            ]
      ]

  -- Closing what is left of the position leaves it without an open leg, whether it was open or not.
  pub close_position_step :
      (user_id pos_id : ℕ) (why : CloseReason) (db : Db W) (p : Position W)
      → Held user_id pos_id p db
      → is_opened p.status ≡ true
      → (db' : Db W) × (close_position mv now user_id pos_id why db ≡ done true db')
        × Shut user_id pos_id db'
  close_position_step user_id pos_id why db p (hp, hs, ho, a, ha) e =
      let (db', entries, run, settled, runs, shut, again) =
        close_position_settles mv now o r user_id pos_id why why db p a hp ha
          (ground (arith, e, hs)) in
      (db', run, shut)
