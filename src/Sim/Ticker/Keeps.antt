-- ===== src/Sim/Ticker/Keeps.antt =====
-- Closing, sampling and marking in the tick leave the rows of live positions as they are.
use mathlib.Core.Path.{subst}
use delta_paper_trader.Prelude.{
  ℕ, ◌≡◌, refl, sym, Bool, true, false, not, ◌&&◌, Option, none, some, List, [], ◌∷◌, find, all,
  is_empty, or_default, Bool-cases, Option-cases, inl, inr, arith,
}
use delta_paper_trader.Float.{Float}
use delta_paper_trader.Models.{Leg, Position, CloseReason, is_opened, open_legs}
use delta_paper_trader.Exit.{ExitDecision, none_due, suspended, close_strategy, close_legs}
use delta_paper_trader.Sim.{
  other_error, MarketView, Db, MarginReply, quoted, value_error, get_position, is_position, is_live,
  close_position, close_leg,
}
use delta_paper_trader.Sim.Frame.{
  live_at, IsLiveRow, KeepsLive, IsChange-KeepsLive, change-IsLiveRow, close_position-IsChange,
  close_leg-IsChange,
}
use delta_paper_trader.Sim.Ticker.{
  Ticker, close_all_legs, act, tick_exit, own_exit, change_position, is_suspended,
  evaluate_position_exit, reason_text, record_sample, refresh_margin, margined, sampled, current,
  tick_positions,
}
use delta_paper_trader.Sim.Ticker.Rings.{after_exit_inv}
use delta_paper_trader.Sim.Ticker.Inversions.{and_then_inv, db_of_inv, find-all}

module _ {W : Type 0} ⦃f : Float W⦄ (mv : MarketView W) (now : ℕ)
    (quotes : Position W → List (Leg W) → MarginReply W) (v j : ℕ) (p : Position W) where
  -- The row under the key is `p`, and live.
  abbrev Has : Db W → Type 0
  Has db = IsLiveRow v j p db.positions

  pub close_position-Has :
      (u i : ℕ) (why : CloseReason) (db : Db W)
      → Has db
      → KeepsLive v j p (close_position mv now u i why db)
  close_position-Has u i why db h =
      IsChange-KeepsLive v j p u i db _ h (close_position-IsChange mv now quotes u i why db)

  pub close_leg-Has :
      (u i leg_id : ℕ) (why : CloseReason) (settle : Option W) (db : Db W)
      → Has db
      → KeepsLive v j p (close_leg mv now quotes u i leg_id why settle db)
  close_leg-Has u i leg_id why settle db h =
      IsChange-KeepsLive v j p u i db _ h
        (close_leg-IsChange mv now quotes u i leg_id why settle db)

  close_all_legs-Has :
      (u i : ℕ) (why : CloseReason) (ids : List ℕ) (db db' : Db W)
      → Has db
      → close_all_legs mv now quotes u i why ids db ≡ some db'
      → Has db'
  unfolding close_all_legs
  close_all_legs-Has u i why [] db db' h e =
      let same : db ≡ db' = cc in subst (λ (d : Db W). IsLiveRow v j p d.positions) same h
  close_all_legs-Has u i why (id ∷ ids) db db' h e =
      let (db1, run, rest) = and_then_inv _ (close_all_legs mv now quotes u i why ids) db' e in
      close_all_legs-Has u i why ids db1 db'
        (db_of_inv v j p _ db1 (close_leg-Has u i id why none db h) run) rest

  act-Has :
      (q : Position W) (d : ExitDecision) (db db' : Db W)
      → Has db
      → act mv now quotes q d db ≡ some db'
      → Has db'
  act-Has q none_due db db' h e =
      let same : db ≡ db' = cc in subst (λ (d : Db W). IsLiveRow v j p d.positions) same h
  act-Has q suspended db db' h e =
      let same : db ≡ db' = cc in subst (λ (d : Db W). IsLiveRow v j p d.positions) same h
  act-Has q (close_strategy why) db db' h e =
      db_of_inv v j p _ db' (close_position-Has q.user_id q.id (reason_text why) db h) e
  act-Has q (close_legs why ids) db db' h e =
      close_all_legs-Has q.user_id q.id (reason_text why) ids db db' h e

  -- A change under the key of a position that is not live.
  change_position-Has :
      (q : Position W) (g : Position W → Position W) (db : Db W)
      → ((a : Position W) → ((g a).id ≡ a.id) × ((g a).user_id ≡ a.user_id))
      → live_at v j q ≡ true
      → is_live q.source ≡ false
      → Has db
      → Has (change_position q.user_id q.id g db)
  change_position-Has q g db same at paper_ h =
      change-IsLiveRow q.user_id q.id v j g p db.positions (ground arith)
        (λ a t. let (x, y) = same a in rw (x, y) t) h

  own_exit-Has :
      (q : Position W) (db db' : Db W)
      → live_at v j q ≡ true
      → Has db
      → own_exit mv now quotes q db ≡ some db'
      → Has db'
  unfolding tick_exit
  own_exit-Has q db db' at h e = elim (Bool-cases (is_live q.source)) [
    | inl l ↦
        let k : some db ≡ some db' = rw l at e in
        let same : db ≡ db' = cc in subst (λ (d : Db W). IsLiveRow v j p d.positions) same h
    | inr l ↦
        let d = evaluate_position_exit mv q in
        act-Has q d _ db'
          (change_position-Has q
            (λ (a : Position W). record a { auto_exit_suspended = is_suspended d }) db
            (λ a. (refl, refl)) at l h)
          (rw l at e)
  ]

  current-live_at :
      (q : Position W) (db : Db W)
      → live_at v j q ≡ true
      → Has db
      → live_at v j (current q db) ≡ true
  unfolding get_position
  current-live_at q db at h = elim (Option-cases (find (is_position q.user_id q.id) db.positions)) [
    | inl n ↦ subst (λ x. live_at v j (or_default x q) ≡ true) (sym n) at
    | inr s ↦
        let (x, e) = s in
        subst (λ y. live_at v j (or_default y q) ≡ true) (sym e)
          (find-all (is_position q.user_id q.id) (live_at v j) db.positions x e h.2)
  ]

  margined-key :
      (reply : MarginReply W) (a : Position W)
      → ((margined mv now quotes reply a).id ≡ a.id)
        × ((margined mv now quotes reply a).user_id ≡ a.user_id)
  margined-key (quoted margin badge) a = (refl, refl)
  margined-key value_error a = (refl, refl)
  margined-key other_error a = (refl, refl)

  refresh_margin-Has :
      (refresh : Bool) (q : Position W) (st : Ticker W)
      → live_at v j q ≡ true
      → Has st.db
      → Has (refresh_margin mv now quotes refresh q st).db
  unfolding refresh_margin
  refresh_margin-Has refresh q st at h =
      elim (Bool-cases (refresh && not (is_live q.source) && not (is_empty (open_legs q.legs)))) [
        | inr e ↦ rw e h
        | inl e ↦ rw e (
            change_position-Has q (margined mv now quotes (quotes q (open_legs q.legs))) st.db
              (margined-key (quotes q (open_legs q.legs))) at (ground arith) h)
      ]

  record_sample-Has :
      (write_db : Bool) (q : Position W) (st : Ticker W)
      → Has st.db
      → Has (record_sample mv now quotes write_db q st).db
  unfolding record_sample
  record_sample-Has write_db q st h = elim (Bool-cases write_db) [ inl e ↦ rw e h | inr e ↦ rw e h ]

  sampled-Has :
      (write_db refresh : Bool) (q : Position W) (st : Ticker W)
      → live_at v j q ≡ true
      → Has st.db
      → Has (sampled mv now quotes write_db refresh q st).db
  sampled-Has write_db refresh q st at h = elim (Bool-cases (is_opened q.status)) [
    | inr e ↦ rw e h
    | inl e ↦ rw e (
        refresh_margin-Has refresh q (record_sample mv now quotes write_db q st) at
          (record_sample-Has write_db q st h))
  ]

  pub tick_positions-Has :
      (write_db refresh : Bool) (ps : List (Position W)) (st st' : Ticker W)
      → all (live_at v j) ps ≡ true
      → Has st.db
      → tick_positions mv now quotes write_db refresh ps st ≡ some st'
      → Has st'.db
  unfolding tick_positions
  tick_positions-Has write_db refresh [] st st' at h e =
      let same : st ≡ st' = cc in subst (λ (s : Ticker W). IsLiveRow v j p s.db.positions) same h
  tick_positions-Has write_db refresh (q ∷ ps) st st' at h e =
      let here : live_at v j q ≡ true = ground arith in
      let rest : all (live_at v j) ps ≡ true = ground arith in
      let (db, k, next) =
        after_exit_inv mv now quotes write_db refresh q
          (tick_positions mv now quotes write_db refresh ps) st st' (own_exit mv now quotes q st.db)
          e in
      let h1 = own_exit-Has q st.db db here h k in
      tick_positions-Has write_db refresh ps _ st' rest
        (sampled-Has write_db refresh (current q db) (record st { db = db })
          (current-live_at q db here h1) h1)
        next
