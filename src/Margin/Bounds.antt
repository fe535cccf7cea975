-- ===== src/Margin/Bounds.antt =====
-- The margin covers every scenario, the floor and the premium of the long options.
use delta_paper_trader.Prelude.{List, [], ◌∷◌, arith, In, inl, inr, map}
use delta_paper_trader.Float.{Float, ◌⊗◌, ◌≼◌, nought, one, min, max, sum}
use delta_paper_trader.Float.Laws.{
  IsOrdered, IsRounded, le-max_left, le-max_right, max-le, min-le_left,
}
use delta_paper_trader.Margin.{
  MarginLeg, MarginParams, Scenario, clip, scenarios, scenario_loss, worst_of, risk_margin,
  margin_floor, long_premium, compute_margin, price_shock_span, vol_down_span, vol_up_span, om_pct,
  leg_notional,
}

module _ {W : Type 0} ⦃f : Float W⦄ where
  abbrev pub notional_of : List (MarginLeg W) → W → W
  notional_of legs spot = sum (map (leg_notional spot) legs)

  abbrev pub scenarios_of : List (MarginLeg W) → W → MarginParams W → List (Scenario W)
  scenarios_of legs spot p = scenarios (price_shock_span (notional_of legs spot) p) p

module _ {W : Type 0} ⦃f : Float W⦄ (o : IsOrdered W) where
  clip_bounds : (x lo hi : W) → lo ≼ hi → (lo ≼ clip x lo hi) × (clip x lo hi ≼ hi)
  unfolding clip
  clip_bounds x lo hi h =
      (le-max_left o lo (min hi x), max-le o lo (min hi x) hi h (min-le_left o hi x))

  -- Where each base is at most its cap, the price shock span and the floor percentage stay between their
  -- base and their cap, for any notional.
  pub spans_bounded :
      (notional : W) (p : MarginParams W)
      → p.price_base ≼ p.price_cap
      → p.om_base ≼ p.om_cap
      → (p.price_base ≼ price_shock_span notional p)
        × (price_shock_span notional p ≼ p.price_cap)
        × (p.om_base ≼ om_pct notional p)
        × (om_pct notional p ≼ p.om_cap)
  unfolding price_shock_span om_pct
  spans_bounded notional p h k =
      let a = clip_bounds _ p.price_base p.price_cap h in
      let b = clip_bounds _ p.om_base p.om_cap k in (a.0, a.1, b.0, b.1)

  worst-le-worst_of :
      (loss : Scenario W → W) (worst : W) (scs : List (Scenario W))
      → worst ≼ worst_of loss worst scs
  unfolding worst_of
  worst-le-worst_of loss worst [] = o.le_refl worst
  worst-le-worst_of loss worst (sc ∷ scs) =
      o.le_trans worst (max worst (loss sc)) _ (le-max_left o worst (loss sc))
        (worst-le-worst_of loss (max worst (loss sc)) scs)

  loss-le-worst_of :
      (loss : Scenario W → W) (worst : W) (sc : Scenario W) (scs : List (Scenario W))
      → In sc scs
      → loss sc ≼ worst_of loss worst scs
  unfolding worst_of
  loss-le-worst_of loss worst sc [] m = absurd m
  loss-le-worst_of loss worst sc (x ∷ scs) m = elim m [
    | inl e ↦ rw e (
        o.le_trans (loss x) (max worst (loss x)) _ (le-max_right o worst (loss x))
          (worst-le-worst_of loss (max worst (loss x)) scs))
    | inr k ↦ loss-le-worst_of loss (max worst (loss x)) sc scs k
  ]

  -- With no unrealised cash flow and a maintenance factor of at most 1, the initial margin is at least the loss of
  -- each scenario, at least the margin floor, at least the premium of the long options, and never
  -- negative, and the maintenance margin is at most the initial margin.
  pub compute_margin_covers :
      (r : IsRounded W) (legs : List (MarginLeg W)) (spot : W) (p : MarginParams W)
      (sc : Scenario W)
      → In sc (scenarios_of legs spot p)
      → p.mm_factor ≼ one
      → (scenario_loss legs spot p
            (vol_down_span (notional_of legs spot) p)
            (vol_up_span (notional_of legs spot) p)
            sc
          ≼ (compute_margin legs spot p nought).initial_margin)
        × (margin_floor legs spot p (om_pct (notional_of legs spot) p)
            ≼ (compute_margin legs spot p nought).initial_margin)
        × (long_premium legs ≼ (compute_margin legs spot p nought).initial_margin)
        × (nought ≼ (compute_margin legs spot p nought).initial_margin)
        × ((compute_margin legs spot p nought).maintenance_margin
            ≼ (compute_margin legs spot p nought).initial_margin)
  unfolding compute_margin risk_margin
  compute_margin_covers r legs spot p sc m le1 =
      let n = notional_of legs spot in
      let vd = vol_down_span n p in
      let vu = vol_up_span n p in
      let risk = risk_margin legs spot p (price_shock_span n p) vd vu in
      let floor = margin_floor legs spot p (om_pct n p) in
      let lp = long_premium legs in
      let top = max (max risk floor) lp in
      let risk-le =
        o.le_trans risk (max risk floor) top (le-max_left o risk floor)
          (le-max_left o (max risk floor) lp) in
      let floor-le =
        o.le_trans floor (max risk floor) top (le-max_right o risk floor)
          (le-max_left o (max risk floor) lp) in
      let loss = scenario_loss legs spot p vd vu in
      let scs = scenarios (price_shock_span n p) p in
      let loss-le = o.le_trans (loss sc) risk top (loss-le-worst_of loss nought sc scs m) risk-le in
      let pos = o.le_trans nought risk top (worst-le-worst_of loss nought scs) risk-le in
      let mm : p.mm_factor ⊗ top ≼ top =
        ground (arith, r.mul_mono p.mm_factor one top pos le1, r.one_mul top) in
      simp (r.sub_nought, r.add_nought)
        (loss-le, floor-le, le-max_right o (max risk floor) lp, pos, mm)
