-- ===== src/Sim/Ticker/Exits.antt =====
-- A leg at its stop is no longer open after the tick's exit step.
use delta_paper_trader.Prelude.{
  ℕ, ◌==◌, ◌≡◌, refl, ap, ◌∙◌, Bool, true, false, not, none, some, List, [], ◌∷◌, map, In, In-map,
  In-filter_inv, inl, inr, arith, find, Bool-cases, if◌then◌else◌,
}
use delta_paper_trader.Float.{Float, ◌≼◌}
use delta_paper_trader.Float.Laws.{IsOrdered, IsRounded}
use delta_paper_trader.Types.{opened}
use delta_paper_trader.Models.{Leg, Position, CloseReason, is_opened, open_legs}
use delta_paper_trader.Money.{leg_pnl}
use delta_paper_trader.Exit.{ExitDecision, none_due, suspended, close_strategy, close_legs}
use delta_paper_trader.Exit.Spec.{Closes, Acts, stop_is_enforced}
use delta_paper_trader.Sim.{
  is_other_error, MarketView, Db, MarginReply, mark_of, get_position, get_account, is_position,
}
use delta_paper_trader.Sim.LegExit.{others}
use delta_paper_trader.Sim.Steps.{Held, close_leg_step, close_position_step}
use delta_paper_trader.Sim.Ticker.{
  exit_leg, evaluate_position_exit, grace_elapsed, close_all_legs, act, tick_exit, change_position,
  is_suspended, reason_text, db_of, and_then,
}

module _ {W : Type 0} ⦃f : Float W⦄ where
  -- The position is found, and none of its open legs has the key.
  abbrev pub IsOut : ℕ → ℕ → ℕ → Db W → Type 0
  IsOut user_id pos_id leg_id db =
      (p : Position W) × (get_position user_id pos_id db ≡ some p)
      × ((l : Leg W) → In l (open_legs p.legs) → (l.id == leg_id) ≡ false)

module _ {W : Type 0} ⦃f : Float W⦄ (mv : MarketView W) (now : ℕ) (o : IsOrdered W)
    (r : IsRounded W) (quotes : Position W → List (Leg W) → MarginReply W)
    (calm : (q : Position W) (legs : List (Leg W)) → is_other_error (quotes q legs) ≡ false) where
  close_all_legs-Held :
      (user_id pos_id : ℕ) (why : CloseReason) (ids : List ℕ) (db : Db W) (p : Position W)
      → Held user_id pos_id p db
      → (db' : Db W) × (p' : Position W) × (close_all_legs mv now quotes user_id pos_id why ids db
          ≡ some db')
        × Held user_id pos_id p' db'
        × ((l : Leg W)
            → In l (open_legs p'.legs)
            → In l (open_legs p.legs) × ((i : ℕ) → In i ids → (l.id == i) ≡ false))
  unfolding close_all_legs
  close_all_legs-Held user_id pos_id why [] db p h = (db, p, refl, h, λ l m. (m, λ i k. absurd k))
  close_all_legs-Held user_id pos_id why (id ∷ ids) db p h =
      let (b, db1, p1, run, held, left) =
        close_leg_step mv now o r quotes calm user_id pos_id id why none db p h in
      let (db', p', rest, held', kept) = close_all_legs-Held user_id pos_id why ids db1 p1 held in
      let back : (l : Leg W) → In l (open_legs p'.legs) → In l (others id p) =
        λ l m. rw left at ((kept l m).0) in
      (
        db',
        p',
        ap (λ x. and_then (db_of x) (close_all_legs mv now quotes user_id pos_id why ids)) run
            ∙ rest,
        held',
        λ l m.
            let (inside, ne) =
              In-filter_inv (λ (x : Leg W). not (x.id == id)) l (open_legs p.legs) (back l m) in
            (inside, λ i k. elim k [ inl e ↦ rw e (ground arith) | inr k' ↦ (kept l m).1 i k' ]),
      )

  act-IsOut :
      (p q : Position W) (i : ℕ) (d : ExitDecision) (db : Db W)
      → Held p.user_id p.id q db
      → is_opened q.status ≡ true
      → Closes i d
      → (db' : Db W) × (act mv now quotes p d db ≡ some db') × IsOut p.user_id p.id i db'
  act-IsOut p q i none_due db h e k = absurd k
  act-IsOut p q i suspended db h e k = absurd k
  act-IsOut p q i (close_strategy why) db h e k =
      let (db', run, (p', found, closed_, nil)) =
        close_position_step mv now o r quotes calm p.user_id p.id (reason_text why) db q h e in
      (db', ap db_of run, (p', found, λ l m. absurd (rw nil at m)))
  act-IsOut p q i (close_legs why ids) db h e k =
      let (db', p', run, held, kept) =
        close_all_legs-Held p.user_id p.id (reason_text why) ids db q h in
      (db', run, (p', held.0, λ l m. (kept l m).1 i k))

  find-change :
      (test : Position W → Bool) (g : Position W → Position W) (ps : List (Position W))
      (p : Position W)
      → ((a : Position W) → test (g a) ≡ test a)
      → find test ps ≡ some p
      → find test (map (λ (a : Position W). if test a then g a else a) ps) ≡ some (g p)
  find-change test g [] p same h = cc
  find-change test g (a ∷ ps) p same h = elim (Bool-cases (test a)) [
    | inl e ↦
        let k : some a ≡ some p = rw e at h in
        let k' : a ≡ p = cc in rw (e, same a, e) (ap (λ x. some (g x)) k')
    | inr e ↦ rw (e, e) (find-change test g ps p same (rw e at h))
  ]

  -- The flag that the tick sets leaves a position held.
  flag-Held :
      (p : Position W) (b : Bool) (db : Db W)
      → Held p.user_id p.id p db
      → Held p.user_id p.id
          (record p { auto_exit_suspended = b })
          (change_position p.user_id p.id
            (λ (q : Position W). record q { auto_exit_suspended = b })
            db)
  unfolding get_position get_account
  flag-Held p b db (hp, hs, ho, a, ha) = (
    find-change (is_position p.user_id p.id)
        (λ (q : Position W). record q { auto_exit_suspended = b }) db.positions p (λ a. refl) hp,
    hs,
    ho,
    a,
    ha,
  )

  -- Where the exit engine acts (the feed is fresh, or the position opted into the hard stop and the feed has been stale
  -- past the grace) and the margin quote raises nothing but `ValueError`, the exit step of a held open paper position ends without an exception; and an open leg of
  -- it with auto-exit whose P&L is at or below its stop is not among the open legs that the position is found
  -- with afterwards.
  pub tick_exit_closes_stopped :
      (p : Position W) (lg : Leg W) (s : W) (db : Db W)
      → Held p.user_id p.id p db
      → is_opened p.status ≡ true
      → In lg p.legs
      → lg.status ≡ opened
      → lg.auto_exit ≡ true
      → lg.stop_pnl ≡ some s
      → leg_pnl lg.side lg.qty lg.contract_value lg.entry (mark_of mv lg) ≼ s
      → Acts (not mv.fresh) p.stale_hard_stop (grace_elapsed mv.age)
      → (db' : Db W) × (tick_exit mv now quotes p db ≡ some db') × IsOut p.user_id p.id lg.id db'
  unfolding tick_exit
  tick_exit_closes_stopped p lg s db h e m opn auto st hit acts =
      let closes : Closes lg.id (evaluate_position_exit mv p) =
        unfold evaluate_position_exit exit_leg in
        stop_is_enforced (map (exit_leg mv) p.legs) (exit_leg mv lg) s _ _ _ _ _ _ _
          (In-map (exit_leg mv) lg p.legs m) opn auto st hit acts in
      act-IsOut p _ lg.id (evaluate_position_exit mv p) _
        (flag-Held p (is_suspended (evaluate_position_exit mv p)) db h) e closes
