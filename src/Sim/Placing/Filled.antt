-- ===== src/Sim/Placing/Filled.antt =====
-- The legs that placing a strategy makes, one for each leg asked for.
use delta_paper_trader.Prelude.{
  ℕ, suc, ◌≡◌, refl, true, Option, none, some, List, [], ◌∷◌, Bool-cases, inl, inr, All,
}
use delta_paper_trader.Float.{Float}
use delta_paper_trader.Models.{Leg, is_opened, open_legs}
use delta_paper_trader.Sim.{Quote, MarketView}
use delta_paper_trader.Sim.Placing.{
  LegSpec, has_price, fill_of, filled_leg, place_leg, place_legs, and_leg,
}

module _ {W : Type 0} ⦃f : Float W⦄ (mv : MarketView W) where
  -- The leg is open, of the size asked for, at the fill of a quote with a price.
  abbrev pub IsFilled : LegSpec W → Leg W → Type 0
  IsFilled spec lg =
      (q : Quote W) × (mv.quote spec.symbol ≡ some q)
      × (has_price q ≡ true)
      × (lg.entry ≡ fill_of spec.side q)
      × (lg.side ≡ spec.side)
      × (lg.qty ≡ spec.qty)
      × (is_opened lg.status ≡ true)

  -- The legs are those asked for, one by one.
  abbrev pub AreFilled : List (LegSpec W) → List (Leg W) → Type 0
  AreFilled [] [] = Unit
  AreFilled [] (lg ∷ legs) = ⊥
  AreFilled (spec ∷ specs) [] = ⊥
  AreFilled (spec ∷ specs) (lg ∷ legs) = IsFilled spec lg × AreFilled specs legs

  -- The feed has a quote with a price for the leg.
  abbrev pub IsQuoted : LegSpec W → Type 0
  IsQuoted spec = (q : Quote W) × (mv.quote spec.symbol ≡ some q) × (has_price q ≡ true)

  pub place_legs_total :
      (id : ℕ) (specs : List (LegSpec W))
      → All IsQuoted specs
      → (legs : List (Leg W)) × (place_legs mv id specs ≡ some legs)
  unfolding place_legs
  place_legs_total id [] h = ([], refl)
  place_legs_total id (spec ∷ specs) h =
      let (q, e, p) = h.0 in
      let (legs, k) = place_legs_total (suc id) specs h.1 in
      (filled_leg mv id spec q ∷ legs, rw (e, p, k) refl)

  place_leg-IsFilled :
      (id : ℕ) (spec : LegSpec W) (o : Option (Quote W)) (lg : Leg W)
      → mv.quote spec.symbol ≡ o
      → place_leg mv id spec o ≡ some lg
      → IsFilled spec lg
  unfolding filled_leg
  place_leg-IsFilled id spec none lg e h = cc
  place_leg-IsFilled id spec (some q) lg e h = elim (Bool-cases (has_price q)) [
    | inl p ↦
        let k : some (filled_leg mv id spec q) ≡ some lg = rw p at h in
        let same : filled_leg mv id spec q ≡ lg = cc in
        rw (← same) (q, e, p, refl, refl, refl, refl)
    | inr p ↦ let k : none ≡ some lg = rw p at h in cc
  ]

  and_leg_inv :
      (a : Option (Leg W)) (b : Option (List (Leg W))) (legs : List (Leg W))
      → and_leg mv a b ≡ some legs
      → (lg : Leg W) × (rest : List (Leg W)) × (a ≡ some lg) × (b ≡ some rest) × (lg ∷ rest ≡ legs)
  and_leg_inv none b legs h = cc
  and_leg_inv (some lg) none legs h = cc
  and_leg_inv (some lg) (some rest) legs h = (lg, rest, refl, refl, cc)

  pub place_legs-AreFilled :
      (id : ℕ) (specs : List (LegSpec W)) (legs : List (Leg W))
      → place_legs mv id specs ≡ some legs
      → AreFilled specs legs
  unfolding place_legs
  place_legs-AreFilled id [] legs h = let e : [] ≡ legs = cc in rw (← e) tt
  place_legs-AreFilled id (spec ∷ specs) legs h =
      let (lg, rest, a, b, e) = and_leg_inv _ _ legs h in
      rw (← e) (
        place_leg-IsFilled id spec (mv.quote spec.symbol) lg refl a,
        place_legs-AreFilled (suc id) specs rest b,
      )

  pub AreFilled-open :
      (specs : List (LegSpec W)) (legs : List (Leg W))
      → AreFilled specs legs
      → open_legs legs ≡ legs
  AreFilled-open [] [] h = refl
  AreFilled-open [] (lg ∷ legs) h = absurd h
  AreFilled-open (spec ∷ specs) [] h = absurd h
  AreFilled-open (spec ∷ specs) (lg ∷ legs) h =
      let (q, e, p, a, b, c, d) = h.0 in rw (d, AreFilled-open specs legs h.1) refl
