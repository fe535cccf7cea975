-- ===== src/Sim/Ticker/LiveRows.antt =====
-- The tick of the paper simulation leaves the rows of live positions as they are.
use mathlib.Core.Path.{subst}
use Prim.Native.String.{String}
use delta_paper_trader.Prelude.{
  ℕ, ◌==◌, ◌≡◌, refl, sym, ap, ◌∙◌, Bool, true, false, Option, none, some, List, [], ◌∷◌, filter,
  is_empty, if_true, if_false, Bool-cases, inl, inr,
}
use delta_paper_trader.Float.{Float, ◌⊖◌, ◌≤?◌}
use delta_paper_trader.Models.{Leg, Position, is_opened, settlement, expiry_close}
use delta_paper_trader.Sim.{MarketView, Db, MarginReply, get_position}
use delta_paper_trader.Sim.Frame.{live_at, IsLiveRow}
use delta_paper_trader.Sim.Settlement.{
  Product, Settling, settle_leg, settle_legs, close_survivors, any_open, settle_position,
  settle_all, settle_with, settle_expired_legs, settlement_price_of, expired_legs, affected,
}
use delta_paper_trader.Sim.Ticker.{Ticker, finish, finish_tick, settle_due, settled_db, tick}
use delta_paper_trader.Sim.Ticker.Keeps.{close_position-Has, close_leg-Has, tick_positions-Has}
use delta_paper_trader.Sim.Ticker.Inversions.{
  all-filter, then_settle_inv, counted_inv, after_close_inv,
}

module _ {W : Type 0} ⦃f : Float W⦄ (mv : MarketView W) (now : ℕ)
    (quotes : Position W → List (Leg W) → MarginReply W) (price_of : String → Option W) (v j : ℕ)
    (p : Position W) where
  -- The rows that a settlement carries have the live row.
  abbrev Carries : Settling W → Type 0
  Carries st = IsLiveRow v j p st.db.positions

  same-Carries : (st st' : Settling W) → Carries st → some st ≡ some st' → Carries st'
  same-Carries st st' h e =
      let same : st ≡ st' = cc in subst (λ (s : Settling W). IsLiveRow v j p s.db.positions) same h

  settle_leg-Carries :
      (q : Position W) (lg : Leg W) (o : Option W) (st st' : Settling W)
      → Carries st
      → settle_leg mv now quotes price_of q lg o st ≡ some st'
      → Carries st'
  settle_leg-Carries q lg none st st' h e = same-Carries (record st { deferred = true }) st' h e
  settle_leg-Carries q lg (some sp) st st' h e =
      counted_inv v j p st st' _
        (close_leg-Has mv now quotes v j p q.user_id q.id lg.id settlement (some sp) st.db h) e

  settle_legs-Carries :
      (q : Position W) (legs : List (Leg W)) (st st' : Settling W)
      → Carries st
      → settle_legs mv now quotes price_of q legs st ≡ some st'
      → Carries st'
  unfolding settle_legs
  settle_legs-Carries q [] st st' h e = same-Carries st st' h e
  settle_legs-Carries q (lg ∷ legs) st st' h e =
      let (st1, run, rest) =
        then_settle_inv (settle_leg mv now quotes price_of q lg (price_of lg.symbol) st)
          (settle_legs mv now quotes price_of q legs) st' e in
      settle_legs-Carries q legs st1 st' (settle_leg-Carries q lg _ st st1 h run) rest

  close_survivors-Carries :
      (q : Position W) (st st' : Settling W)
      → Carries st
      → close_survivors mv now quotes price_of q st ≡ some st'
      → Carries st'
  unfolding close_survivors
  close_survivors-Carries q st st' h e = elim (Bool-cases st.deferred) [
    | inl d ↦ same-Carries st st' h (sym (if_true _ _ d) ∙ e)
    | inr d ↦ elim (Bool-cases (any_open (get_position q.user_id q.id st.db))) [
      | inl k ↦
          after_close_inv v j p st st' _
            (close_position-Has mv now quotes v j p q.user_id q.id expiry_close st.db h)
            (sym (if_true _ _ k) ∙ sym (if_false _ _ d) ∙ e)
      | inr k ↦ same-Carries st st' h (sym (if_false _ _ k) ∙ sym (if_false _ _ d) ∙ e)
    ]
  ]

  settle_all-Carries :
      (qs : List (Position W)) (st st' : Settling W)
      → Carries st
      → settle_all mv now quotes price_of qs st ≡ some st'
      → Carries st'
  unfolding settle_all settle_position
  settle_all-Carries [] st st' h e = same-Carries st st' h e
  settle_all-Carries (q ∷ qs) st st' h e =
      let (st2, run, rest) =
        then_settle_inv (settle_position mv now quotes price_of q st)
          (settle_all mv now quotes price_of qs) st' e in
      let (st1, legs, survivors) =
        then_settle_inv
          (settle_legs mv now quotes price_of q (expired_legs now q)
            (record st { deferred = false }))
          (close_survivors mv now quotes price_of q) st2 run in
      let h1 =
        settle_legs-Carries q (expired_legs now q) (record st { deferred = false }) st1 h legs in
      settle_all-Carries qs st2 st' (close_survivors-Carries q st1 st2 h1 survivors) rest

module _ {W : Type 0} ⦃f : Float W⦄ (mv : MarketView W) (now : ℕ)
    (quotes : Position W → List (Leg W) → MarginReply W) (v j : ℕ) (p : Position W) where
  settled_db-Has :
      (db : Db W) (o : Option (Settling W))
      → IsLiveRow v j p db.positions
      → ((st : Settling W) → o ≡ some st → IsLiveRow v j p st.db.positions)
      → IsLiveRow v j p (settled_db db o).positions
  settled_db-Has db none h k = h
  settled_db-Has db (some st) h k = elim (Bool-cases (st.settled == 0)) [
    | inl e ↦ rw e h
    | inr e ↦ rw e (k st refl)
  ]

  settle_with-Carries :
      (qs : List (Position W)) (rows : Option (List (Product W))) (db : Db W) (st : Settling W)
      → IsLiveRow v j p db.positions
      → settle_with mv now quotes (some []) qs rows db ≡ some st
      → IsLiveRow v j p st.db.positions
  settle_with-Carries qs none db st h e = cc
  settle_with-Carries qs (some rows) db st h e =
      settle_all-Carries mv now quotes (settlement_price_of rows) v j p qs
        (record { db = db; settled = 0; deferred = false }) st h e

  settle_expired_legs-Carries :
      (products : Option (List (Product W))) (db : Db W) (st : Settling W)
      → IsLiveRow v j p db.positions
      → settle_expired_legs mv now quotes products db ≡ some st
      → IsLiveRow v j p st.db.positions
  unfolding settle_expired_legs
  settle_expired_legs-Carries products db st h e =
      elim (Bool-cases (is_empty (affected now db.positions))) [
        | inl k ↦
            same-Carries mv now quotes (λ _. none) v j p
              (record { db = db; settled = 0; deferred = false }) st h (sym (if_true _ _ k) ∙ e)
        | inr k ↦
            settle_with-Carries (affected now db.positions) products db st h
              (sym (if_false _ _ k) ∙ e)
      ]

  settle_due-Has :
      (products : Option (List (Product W))) (mono : W) (st : Ticker W)
      → IsLiveRow v j p st.db.positions
      → IsLiveRow v j p (settle_due mv now quotes products mono st).db.positions
  unfolding settle_due
  settle_due-Has products mono st h = elim (Bool-cases (f.lit 300 0 ≤? mono ⊖ st.last_settle)) [
    | inr e ↦ rw e h
    | inl e ↦ rw e (
        settled_db-Has st.db (settle_expired_legs mv now quotes products st.db) h
          (λ s k. settle_expired_legs-Carries products st.db s h k))
  ]

  finish_inv :
      (write_db refresh : Bool) (mono : W) (ps : List (Position W)) (r : Option (Ticker W))
      (st' : Ticker W)
      → finish mv now quotes write_db refresh mono ps r ≡ some st'
      → (st : Ticker W) × (r ≡ some st) × (st.db ≡ st'.db)
  unfolding finish_tick
  finish_inv write_db refresh mono ps none st' e = cc
  finish_inv write_db refresh mono ps (some st) st' e =
      let same : finish_tick mv now quotes write_db refresh mono ps st ≡ st' = cc in
      (st, refl, ap (λ (s : Ticker W). s.db) same)

  -- A tick that does not raise, settlement included, leaves the row that stands under a key as it is, where the rows
  -- under that key are live.
  pub tick-IsLiveRow :
      (products : Option (List (Product W))) (mono : W) (st st' : Ticker W)
      → IsLiveRow v j p st.db.positions
      → tick mv now quotes products mono st ≡ some st'
      → IsLiveRow v j p st'.db.positions
  unfolding tick
  tick-IsLiveRow products mono st st' h e =
      let st1 = settle_due mv now quotes products mono st in
      let h1 = settle_due-Has products mono st h in
      let (st2, run, same) = finish_inv _ _ mono _ _ st' e in
      subst (λ (d : Db W). IsLiveRow v j p d.positions) same
        (tick_positions-Has mv now quotes v j p _ _
          (filter (λ (q : Position W). is_opened q.status) st1.db.positions) st1 st2
          (all-filter (λ (q : Position W). is_opened q.status) (live_at v j) st1.db.positions h1.2)
          h1 run)
