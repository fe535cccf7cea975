-- ===== src/Sim/Placing/Settles.antt =====
-- What placing a strategy writes, when it succeeds, and that it can be closed.
use Prim.Native.String.{String}
use mathlib.Core.Path.{subst}
use delta_paper_trader.Prelude.{
  ℕ, suc, ◌==◌, ◌≡◌, refl, sym, ◌∙◌, if_true, if_false, true, Option, none, some, List, [], ◌∷◌,
  Bool-cases, inl, inr, arith,
}
use delta_paper_trader.Float.{Float, ◌⊖◌}
use delta_paper_trader.Float.Laws.{IsRounded}
use delta_paper_trader.Models.{Leg, Position, Account, Badge, open_legs, margin_reserve}
use delta_paper_trader.Sim.{
  other_error, MarketView, Db, MarginReply, quoted, value_error, get_account, get_position,
  entry_of, closable,
}
use delta_paper_trader.Sim.Closing.{Settled, find-map, find_holds}
use delta_paper_trader.Sim.Placing.{
  LegSpec, PlaceRequest, placed, refused, place_legs, placed_position, placing, place_strategy,
  with_legs, with_first, with_margin, with_account,
}
use delta_paper_trader.Sim.Placing.Filled.{AreFilled, place_legs-AreFilled, AreFilled-open}

module _ {W : Type 0} ⦃f : Float W⦄ (mv : MarketView W) (now user_id fresh : ℕ) where
  -- What the position holds once it is placed.
  abbrev pub IsPlaced : PlaceRequest W → ℕ → Position W → Db W → Type 0
  IsPlaced req id p db' =
      (get_position user_id id db' ≡ some p)
      × (closable p ≡ true)
      × (open_legs p.legs ≡ p.legs)
      × AreFilled mv req.legs p.legs

  -- How a strategy was placed: the margin quoted for it and the account that was debited.
  abbrev pub Debited :
      (String → List (LegSpec W) → MarginReply W)
      → PlaceRequest W
      → Db W
      → Db W
      → ℕ
      → LegSpec W
      → List (Leg W)
      → Type 0
  Debited quotes req db db' id first legs =
      (margin : W) × (badge : Badge) × (a : Account W) × (quotes first.underlying req.legs
        ≡ quoted margin badge)
      × (get_account user_id db ≡ some a)
      × (fresh ≡ id)
      × (placing mv now user_id fresh
            (placed_position mv now user_id fresh req first margin badge legs) a db
          ≡ db')

  with_account_inv :
      (pos : Position W) (o : Option (Account W)) (db db' : Db W) (id : ℕ)
      → with_account mv now user_id fresh pos o db ≡ placed id db'
      → (a : Account W) × (o ≡ some a)
        × (fresh ≡ id)
        × (placing mv now user_id fresh pos a db ≡ db')
  with_account_inv pos none db db' id h = cc
  with_account_inv pos (some a) db db' id h = (a, refl, cc, cc)

  with_margin_inv :
      (quotes : String → List (LegSpec W) → MarginReply W) (req : PlaceRequest W)
      (first : LegSpec W) (legs : List (Leg W)) (reply : MarginReply W) (db db' : Db W) (id : ℕ)
      → quotes first.underlying req.legs ≡ reply
      → with_margin mv now user_id fresh req first legs reply db ≡ placed id db'
      → Debited quotes req db db' id first legs
  with_margin_inv quotes req first legs value_error db db' id e h = cc
  with_margin_inv quotes req first legs other_error db db' id e h = cc
  with_margin_inv quotes req first legs (quoted margin badge) db db' id e h =
      let (a, ha, hi, hd) = with_account_inv _ (get_account user_id db) db db' id h in
      (margin, badge, a, e, ha, hi, hd)

  with_legs_inv :
      (quotes : String → List (LegSpec W) → MarginReply W) (req : PlaceRequest W)
      (first : LegSpec W) (o : Option (List (Leg W))) (db db' : Db W) (id : ℕ)
      → with_legs mv now user_id fresh quotes req first o db ≡ placed id db'
      → (legs : List (Leg W)) × (o ≡ some legs) × Debited quotes req db db' id first legs
  with_legs_inv quotes req first none db db' id h = cc
  with_legs_inv quotes req first (some legs) db db' id h =
      (legs, refl, with_margin_inv quotes req first legs _ db db' id refl h)

  with_first_inv :
      (quotes : String → List (LegSpec W) → MarginReply W) (req : PlaceRequest W)
      (specs : List (LegSpec W)) (db db' : Db W) (id : ℕ)
      → with_first mv now user_id fresh quotes req specs db ≡ placed id db'
      → (first : LegSpec W) × (legs : List (Leg W)) × (place_legs mv (suc fresh) req.legs
          ≡ some legs)
        × Debited quotes req db db' id first legs
  with_first_inv quotes req [] db db' id h = cc
  with_first_inv quotes req (first ∷ specs) db db' id h =
      let (legs, hl, d) = with_legs_inv quotes req first _ db db' id h in (first, legs, hl, d)

  pub placed_inv :
      (quotes : String → List (LegSpec W) → MarginReply W) (req : PlaceRequest W) (db db' : Db W)
      (id : ℕ)
      → place_strategy mv now user_id fresh quotes req db ≡ placed id db'
      → (mv.fresh ≡ true)
        × (first : LegSpec W) × (legs : List (Leg W)) × (place_legs mv (suc fresh) req.legs
            ≡ some legs)
        × Debited quotes req db db' id first legs
  unfolding place_strategy
  placed_inv quotes req db db' id h = elim (Bool-cases mv.fresh) [
    | inl e ↦
        let (first, legs, hl, d) =
          with_first_inv quotes req req.legs db db' id (sym (if_true _ _ e) ∙ h) in
        (e, first, legs, hl, d)
    | inr e ↦ let k : refused ≡ placed id db' = sym (if_false _ _ e) ∙ h in cc
  ]

  eq_self : (n : ℕ) → (n == n) ≡ true
  eq_self n = ground arith

  placing-account :
      (pos : Position W) (a : Account W) (db : Db W)
      → get_account user_id db ≡ some a
      → get_account user_id (placing mv now user_id fresh pos a db)
        ≡ some (record a { balance_usd = a.balance_usd ⊖ pos.margin })
  unfolding get_account placing
  placing-account pos a db h =
      find-map (λ (b : Account W). b.user_id == user_id) db.accounts a _ h
        (find_holds (λ (b : Account W). b.user_id == user_id) db.accounts a h)

  placing-position :
      (pos : Position W) (a : Account W) (db : Db W)
      → pos.user_id ≡ user_id
      → get_position user_id pos.id (placing mv now user_id fresh pos a db) ≡ some pos
  unfolding get_position placing
  placing-position pos a db h = rw (eq_self pos.id, h, eq_self user_id) refl

  -- The user's account pays the margin of the position under the key `id`, by one entry.
  abbrev pub HasPlaced : PlaceRequest W → ℕ → Db W → Db W → Type 0
  HasPlaced req id db db' =
      (a : Account W) × (p : Position W) × (get_account user_id db ≡ some a)
      × Settled user_id a
          (entry_of p now margin_reserve (f.neg p.margin) (a.balance_usd ⊖ p.margin) ∷ []) db db'
      × IsPlaced req id p db'

  placing-HasPlaced :
      (r : IsRounded W) (req : PlaceRequest W) (first : LegSpec W) (legs : List (Leg W))
      (margin : W) (badge : Badge) (a : Account W) (db : Db W)
      → get_account user_id db ≡ some a
      → AreFilled mv req.legs legs
      → HasPlaced req fresh db (
          placing mv now user_id fresh
            (placed_position mv now user_id fresh req first margin badge legs)
            a
            db)
  unfolding placing placed_position
  placing-HasPlaced r req first legs margin badge a db ha fills =
      let p = placed_position mv now user_id fresh req first margin badge legs in
      (
        a,
        p,
        ha,
        (_, placing-account p a db ha, refl, sym (r.add_neg a.balance_usd margin)),
        (placing-position p a db refl, refl, AreFilled-open mv req.legs legs fills, fills),
      )

  -- Where a strategy is placed, the feed is fresh and the user has an account; its new balance and ledger follow from
  -- the old ones by one entry, the reserved margin; the new position is found under the returned key, open
  -- and on paper, with that margin; and it has the legs asked for, one by one and all open, each filled from
  -- a quote that has a price.
  pub placed_settles :
      (r : IsRounded W) (quotes : String → List (LegSpec W) → MarginReply W) (req : PlaceRequest W)
      (db db' : Db W) (id : ℕ)
      → place_strategy mv now user_id fresh quotes req db ≡ placed id db'
      → (mv.fresh ≡ true) × HasPlaced req id db db'
  placed_settles r quotes req db db' id h =
      let (fr, first, legs, hl, (margin, badge, a, hq, ha, hi, hd)) =
        placed_inv quotes req db db' id h in
      let start =
        placing-HasPlaced r req first legs margin badge a db ha
          (place_legs-AreFilled mv (suc fresh) req.legs legs hl) in
      (fr, subst (λ i. HasPlaced req i db db') hi (subst (λ d. HasPlaced req fresh db d) hd start))
