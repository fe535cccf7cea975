-- ===== src/Margin.antt =====
-- The local portfolio-margin engine, backend/app/engines/margin.py: 29 price and volatility scenarios, the
-- margin floor, and the initial and maintenance margin. (`defined_max_loss`, which nothing calls, works on
-- a numpy grid and is left out.)
mod BlackScholes
pub mod Bounds
pub mod ImpliedVol
unfoldable pub use BlackScholes.*
use delta_paper_trader.Prelude.{
  ℕ, zero, suc, Bool, true, false, not, ◌||◌, Option, none, some, List, [], ◌∷◌, ◌++◌, map, filter,
  if◌then◌else◌,
}
use delta_paper_trader.Float.{Float, ◌⊕◌, ◌⊖◌, ◌⊗◌, ◌⊘◌, ◌≤?◌, nought, one, min, max, sum}
use delta_paper_trader.Types.{OptType, call, put, future}

pub data MarginSide : Type 0 where
  long short : MarginSide

pub data VolState : Type 0 where
  base up down : VolState

-- `MarginParams`, the constants that calibration may tune.
pub record MarginParams (W : Type 0) : Type 0 where
  pub price_base : W
  pub price_slope : W
  pub price_knee : W
  pub price_cap : W
  pub voldn_base : W
  pub voldn_slope : W
  pub voldn_cap : W
  pub volup_base : W
  pub volup_slope : W
  pub volup_cap : W
  pub vol_knee : W
  pub om_base : W
  pub om_slope : W
  pub om_knee : W
  pub om_cap : W
  pub short_floor_pct : W
  pub iv_dte_ref : W
  pub iv_dte_exp : W
  pub dte_floor_days : W
  pub extreme_mult : W
  pub extreme_weight : W
  pub mm_factor : W
  pub sigma_floor : W
  pub risk_free : W

pub record Scenario (W : Type 0) : Type 0 where
  pub price_mult : W
  pub vol_state : VolState
  pub weight : W

pub record MarginLeg (W : Type 0) : Type 0 where
  pub option_type : OptType
  pub side : MarginSide
  pub qty : W
  pub strike : W
  pub dte_days : W
  pub iv : W
  pub contract_value : W
  pub mark : W

pub record MarginResult (W : Type 0) : Type 0 where
  pub risk_margin : W
  pub margin_floor : W
  pub initial_margin : W
  pub maintenance_margin : W
  pub notional : W
  pub price_span : W

module _ {W : Type 0} ⦃f : Float W⦄ where
  abbrev pub default_params : MarginParams W
  default_params = record {
    price_base = f.lit 1 2;
    price_slope = f.lit 4 8;
    price_knee = f.lit 100000 0;
    price_cap = f.lit 10 2;
    voldn_base = f.lit 6 2;
    voldn_slope = f.lit 12 8;
    voldn_cap = f.lit 30 2;
    volup_base = f.lit 9 2;
    volup_slope = f.lit 18 8;
    volup_cap = f.lit 45 2;
    vol_knee = f.lit 100000 0;
    om_base = f.lit 5 3;
    om_slope = f.lit 5 9;
    om_knee = f.lit 200000 0;
    om_cap = f.lit 2 2;
    short_floor_pct = f.lit 5 2;
    iv_dte_ref = f.lit 30 0;
    iv_dte_exp = f.lit 30 2;
    dte_floor_days = one ⊘ f.lit 24 0;
    extreme_mult = f.lit 3 0;
    extreme_weight = one ⊘ f.lit 3 0;
    mm_factor = f.lit 80 2;
    sigma_floor = f.lit 1 4;
    risk_free = nought;
  }

  unfoldable pub clip : W → W → W → W
  clip x lo hi = max lo (min hi x)

  unfoldable pub price_shock_span : W → MarginParams W → W
  price_shock_span notional p =
      clip (p.price_base ⊕ p.price_slope ⊗ (notional ⊖ p.price_knee)) p.price_base p.price_cap

  unfoldable pub vol_down_span : W → MarginParams W → W
  vol_down_span notional p =
      clip (p.voldn_base ⊕ p.voldn_slope ⊗ (notional ⊖ p.vol_knee)) p.voldn_base p.voldn_cap

  unfoldable pub vol_up_span : W → MarginParams W → W
  vol_up_span notional p =
      clip (p.volup_base ⊕ p.volup_slope ⊗ (notional ⊖ p.vol_knee)) p.volup_base p.volup_cap

  unfoldable pub om_pct : W → MarginParams W → W
  om_pct notional p = clip (p.om_base ⊕ p.om_slope ⊗ (notional ⊖ p.om_knee)) p.om_base p.om_cap

  unfoldable pub iv_shock : W → W → MarginParams W → W
  iv_shock span dte_days p =
      let dte = max dte_days p.dte_floor_days in span ⊗ f.pow (p.iv_dte_ref ⊘ dte) p.iv_dte_exp

  abbrev pub price_levels : List W
  price_levels =
      nought
      ∷ f.lit 33 2
      ∷ f.neg (f.lit 33 2)
      ∷ f.lit 50 2
      ∷ f.neg (f.lit 50 2)
      ∷ f.lit 67 2
      ∷ f.neg (f.lit 67 2)
      ∷ one
      ∷ f.neg one
      ∷ []

  -- The comprehension of `scenarios`, over the levels left.
  abbrev pub standard_scenarios : W → List W → List (Scenario W)
  standard_scenarios price_span [] = []
  standard_scenarios price_span (l ∷ ls) =
      record { price_mult = l ⊗ price_span; vol_state = base; weight = one }
      ∷ record { price_mult = l ⊗ price_span; vol_state = up; weight = one }
      ∷ record { price_mult = l ⊗ price_span; vol_state = down; weight = one }
      ∷ standard_scenarios price_span ls

  unfoldable pub scenarios : W → MarginParams W → List (Scenario W)
  scenarios price_span p =
      standard_scenarios price_span price_levels
      ++ record {
        price_mult = p.extreme_mult ⊗ price_span;
        vol_state = up;
        weight = p.extreme_weight;
      }
        ∷ record {
          price_mult = f.neg p.extreme_mult ⊗ price_span;
          vol_state = up;
          weight = p.extreme_weight;
        }
        ∷ []

  abbrev pub signed_qty : MarginLeg W → W
  signed_qty leg = elim leg.side [ long ↦ leg.qty | short ↦ f.neg leg.qty ]

  unfoldable pub leg_value : MarginLeg W → W → W → MarginParams W → W
  leg_value leg spot sigma p = elim leg.option_type [
    | future ↦ spot
    | call ↦ bs_price_at call spot leg.strike (leg.dte_days ⊘ f.lit 365 0) sigma p.risk_free
    | put ↦ bs_price_at put spot leg.strike (leg.dte_days ⊘ f.lit 365 0) sigma p.risk_free
  ]

  abbrev pub shocked_sigma : VolState → MarginLeg W → W → W → MarginParams W → W
  shocked_sigma base leg vd vu p = leg.iv
  shocked_sigma up leg vd vu p = leg.iv ⊕ iv_shock vu leg.dte_days p
  shocked_sigma down leg vd vu p = max (leg.iv ⊖ iv_shock vd leg.dte_days p) p.sigma_floor

  -- The inner loop of `_risk_margin`: the P&L of the legs under a scenario, from a running sum.
  unfoldable pub scenario_pnl : Scenario W → W → W → W → MarginParams W → W → List (MarginLeg W) → W
  scenario_pnl sc spot vd vu p pnl [] = pnl
  scenario_pnl sc spot vd vu p pnl (leg ∷ legs) =
      let s_shock = spot ⊗ (one ⊕ sc.price_mult) in
      let v = leg_value leg s_shock (shocked_sigma sc.vol_state leg vd vu p) p in
      let change = signed_qty leg ⊗ leg.contract_value ⊗ (v ⊖ leg_value leg spot leg.iv p) in
      scenario_pnl sc spot vd vu p (pnl ⊕ change) legs

  unfoldable pub scenario_loss : List (MarginLeg W) → W → MarginParams W → W → W → Scenario W → W
  scenario_loss legs spot p vd vu sc = f.neg (scenario_pnl sc spot vd vu p nought legs) ⊗ sc.weight

  -- The outer loop, with the worst loss so far.
  unfoldable pub worst_of : (Scenario W → W) → W → List (Scenario W) → W
  worst_of loss worst [] = worst
  worst_of loss worst (sc ∷ scs) = worst_of loss (max worst (loss sc)) scs

  unfoldable pub risk_margin : List (MarginLeg W) → W → MarginParams W → W → W → W → W
  risk_margin legs spot p price_span vd vu =
      worst_of (scenario_loss legs spot p vd vu) nought (scenarios price_span p)

  abbrev pub leg_notional : W → MarginLeg W → W
  leg_notional spot leg = leg.qty ⊗ leg.contract_value ⊗ spot

  abbrev pub premium : MarginLeg W → W
  premium leg = leg.qty ⊗ leg.contract_value ⊗ leg.mark

  abbrev pub option_floor : MarginSide → W → W → W
  option_floor short prem base_floor = base_floor
  option_floor long prem base_floor = min prem base_floor

  -- The loop of `_margin_floor`, with its three running sums: the floor, and the notionals of the long and of
  -- the short futures.
  unfoldable pub floor_from : W → W → MarginParams W → W → W → W → List (MarginLeg W) → W
  floor_from spot om p floor long_fut short_fut [] = floor ⊕ om ⊗ max long_fut short_fut
  floor_from spot om p floor long_fut short_fut (leg ∷ legs) =
      let n = leg_notional spot leg in
      let on_option =
        floor_from spot om p
          (floor
            ⊕ option_floor leg.side (premium leg) (max (p.short_floor_pct ⊗ premium leg) (om ⊗ n)))
          long_fut short_fut legs in
      let on_long = floor_from spot om p floor (long_fut ⊕ n) short_fut legs in
      let on_short = floor_from spot om p floor long_fut (short_fut ⊕ n) legs in
      elim leg.option_type [
        | future ↦ elim leg.side [ long ↦ on_long | short ↦ on_short ]
        | call ↦ on_option
        | put ↦ on_option
      ]

  unfoldable pub margin_floor : List (MarginLeg W) → W → MarginParams W → W → W
  margin_floor legs spot p om = floor_from spot om p nought nought nought legs

  abbrev pub is_long_option : MarginLeg W → Bool
  is_long_option leg = elim leg.option_type [
    | future ↦ false
    | call ↦ elim leg.side [ long ↦ true | short ↦ false ]
    | put ↦ elim leg.side [ long ↦ true | short ↦ false ]
  ]

  unfoldable pub long_premium : List (MarginLeg W) → W
  long_premium legs = sum (map premium (filter is_long_option legs))

  unfoldable pub compute_margin : List (MarginLeg W) → W → MarginParams W → W → MarginResult W
  compute_margin legs spot p ucf =
      let notional = sum (map (leg_notional spot) legs) in
      let pspan = price_shock_span notional p in
      let risk =
        risk_margin legs spot p pspan (vol_down_span notional p) (vol_up_span notional p) in
      let floor = margin_floor legs spot p (om_pct notional p) in
      let im = max (max risk floor) (long_premium legs) ⊖ ucf in
      record {
        risk_margin = risk;
        margin_floor = floor;
        initial_margin = im;
        maintenance_margin = p.mm_factor ⊗ (im ⊕ ucf) ⊖ ucf;
        notional = notional;
        price_span = pspan;
      }
