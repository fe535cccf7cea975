-- ===== src/Sim/Ticker/Inversions.antt =====
-- What a step of the tick that succeeds has found on its way.
use mathlib.Core.Path.{subst}
use delta_paper_trader.Prelude.{
  ℕ, ◌≡◌, refl, Bool, true, Option, none, some, List, [], ◌∷◌, filter, find, all, Bool-cases, inl,
  inr, arith,
}
use delta_paper_trader.Models.{Position}
use delta_paper_trader.Sim.{quote_failed, Db, Outcome, done, no_account}
use delta_paper_trader.Sim.Frame.{IsLiveRow, KeepsLive}
use delta_paper_trader.Sim.Settlement.{Settling, count, counted, then_settle, after_close}
use delta_paper_trader.Sim.Ticker.{and_then, db_of}

pub and_then_inv :
    {A : Type 0} (o : Option A) (next : A → Option A) (b : A)
    → and_then o next ≡ some b
    → (a : A) × (o ≡ some a) × (next a ≡ some b)
and_then_inv none next b h = cc
and_then_inv (some a) next b h = (a, refl, h)

module _ {W : Type 0} where
  pub find-all :
      (t q : Position W → Bool) (ps : List (Position W)) (x : Position W)
      → find t ps ≡ some x
      → all q ps ≡ true
      → q x ≡ true
  find-all t q [] x h k = cc
  find-all t q (a ∷ ps) x h k = elim (Bool-cases (t a)) [
    | inl e ↦
        let s : some a ≡ some x = rw e at h in
        let s' : a ≡ x = cc in let here : q a ≡ true = ground arith in rw (← s') here
    | inr e ↦ let rest : all q ps ≡ true = ground arith in find-all t q ps x (rw e at h) rest
  ]

  pub all-filter :
      (t q : Position W → Bool) (ps : List (Position W))
      → all q ps ≡ true
      → all q (filter t ps) ≡ true
  all-filter t q [] k = refl
  all-filter t q (a ∷ ps) k =
      let here : q a ≡ true = ground arith in
      let rest : all q ps ≡ true = ground arith in
      elim (Bool-cases (t a)) [
        | inl e ↦ rw (e, here) (all-filter t q ps rest)
        | inr e ↦ rw e (all-filter t q ps rest)
      ]

  pub then_settle_inv :
      (o : Option (Settling W)) (next : Settling W → Option (Settling W)) (b : Settling W)
      → then_settle next o ≡ some b
      → (a : Settling W) × (o ≡ some a) × (next a ≡ some b)
  then_settle_inv none next b h = cc
  then_settle_inv (some a) next b h = (a, refl, h)

  pub db_of_inv :
      (v j : ℕ) (p : Position W) (out : Outcome W) (db : Db W)
      → KeepsLive v j p out
      → db_of out ≡ some db
      → IsLiveRow v j p db.positions
  db_of_inv v j p (done b db') db k h =
      let e : db' ≡ db = cc in subst (λ (d : Db W). IsLiveRow v j p d.positions) e k
  db_of_inv v j p no_account db k h = cc
  db_of_inv v j p quote_failed db k h = cc

  pub counted_inv :
      (v j : ℕ) (p : Position W) (st st' : Settling W) (out : Outcome W)
      → KeepsLive v j p out
      → counted st out ≡ some st'
      → IsLiveRow v j p st'.db.positions
  counted_inv v j p st st' (done b db') k h =
      let e : record st { db = db'; settled = count b st.settled } ≡ st' = cc in
      subst (λ (s : Settling W). IsLiveRow v j p s.db.positions) e k
  counted_inv v j p st st' no_account k h = cc
  counted_inv v j p st st' quote_failed k h = cc

  pub after_close_inv :
      (v j : ℕ) (p : Position W) (st st' : Settling W) (out : Outcome W)
      → KeepsLive v j p out
      → after_close st out ≡ some st'
      → IsLiveRow v j p st'.db.positions
  after_close_inv v j p st st' (done b db') k h =
      let e : record st { db = db' } ≡ st' = cc in
      subst (λ (s : Settling W). IsLiveRow v j p s.db.positions) e k
  after_close_inv v j p st st' no_account k h = cc
  after_close_inv v j p st st' quote_failed k h = cc
