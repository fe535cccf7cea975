-- ===== src/Tests/Margins.antt =====
-- Examples of the margin engine (backend/app/engines/margin.py) and of the liquidation check.
use delta_paper_trader.Prelude.{ℕ, ◌≡◌, ◌<◌, arith, refl, inl, true, none, some, List, [], ◌∷◌}
use delta_paper_trader.Prelude.Int.{ℤ, pos}
use delta_paper_trader.Float.{◌⊕◌, ◌≼◌, ◌⊗◌, nought, one}
use delta_paper_trader.Float.Fixed.{
  fixed, cents, fixed-IsOrdered, fixed-IsRounded, fixed-HasMidpoints,
}
use delta_paper_trader.Types.{call, sell}
use delta_paper_trader.Margin.{
  half, MarginLeg, Scenario, default_params, bs_price_at, ncdf, intrinsic, short, long, base,
  scenario_loss, vol_down_span, vol_up_span, compute_margin, margin_floor, om_pct, long_premium,
  scenarios, price_shock_span, clip, implied_vol_in, implied_vol, risk_margin, worst_of,
  scenario_pnl, leg_value, floor_from, iv_shock,
}
use delta_paper_trader.Margin.Bounds.{compute_margin_covers, notional_of}
use delta_paper_trader.Margin.ImpliedVol.{Brackets, IsHalved, implied_vol_encloses}
use delta_paper_trader.Risk.{RiskLeg, sl_crossed}
use delta_paper_trader.Liquidation.{
  AtSpot, up, green, scan, look, marked, equity_now, is_liquidated, liq_buffer, one_way, walk,
  verdict_of, nearer, mm_of, iv_of, spot_at,
}
use delta_paper_trader.Liquidation.Green.{green_stop_is_first}

abbrev short_call : MarginLeg ℤ
short_call = record {
  option_type = call;
  side = short;
  qty = cents 100;
  strike = cents 6000000;
  dte_days = cents 500;
  iv = cents 50;
  contract_value = pos 10;
  mark = cents 10000;
}

abbrev calls : List (MarginLeg ℤ)
calls = short_call ∷ record short_call { side = long; strike = cents 6100000 } ∷ []

abbrev spot : ℤ
spot = cents 6000000

abbrev shocked : Scenario ℤ
shocked = record { price_mult = pos 0; vol_state = base; weight = one }

compute_margin_covers_example :
    (scenario_loss calls spot default_params
        (vol_down_span (notional_of calls spot) default_params)
        (vol_up_span (notional_of calls spot) default_params)
        shocked
      ≼ (compute_margin calls spot default_params nought).initial_margin)
    × (margin_floor calls spot default_params (om_pct (notional_of calls spot) default_params)
        ≼ (compute_margin calls spot default_params nought).initial_margin)
    × (long_premium calls ≼ (compute_margin calls spot default_params nought).initial_margin)
    × (nought ≼ (compute_margin calls spot default_params nought).initial_margin)
    × ((compute_margin calls spot default_params nought).maintenance_margin
        ≼ (compute_margin calls spot default_params nought).initial_margin)
unfolding scenarios price_shock_span clip
compute_margin_covers_example =
    compute_margin_covers fixed-IsOrdered fixed-IsRounded calls spot default_params shocked
      (inl refl) refl

-- The value of a call at the money for a volatility.
abbrev value : ℤ → ℤ
value sigma = bs_price_at call (cents 10000) (cents 10000) (cents 100) sigma nought

implied_vol_encloses_example :
    (a : ℤ) × (b : ℤ) × Brackets value (cents 10000) (cents 200) (cents 500) (a, b)
    × IsHalved 64 (cents 200) (cents 500) (a, b)
    × (implied_vol_in call
          (cents 10000)
          (cents 10000)
          (cents 100)
          (cents 10000)
          (cents 200)
          (cents 500)
        ≡ half ⊗ (a ⊕ b))
    × (a
        ≼ implied_vol_in call
            (cents 10000)
            (cents 10000)
            (cents 100)
            (cents 10000)
            (cents 200)
            (cents 500))
    × (implied_vol_in call
          (cents 10000)
          (cents 10000)
          (cents 100)
          (cents 10000)
          (cents 200)
          (cents 500)
        ≼ b)
unfolding bs_price_at ncdf intrinsic
implied_vol_encloses_example =
    implied_vol_encloses fixed-IsOrdered fixed-HasMidpoints call (cents 10000) (cents 10000)
      (cents 100) (cents 10000) (cents 200) (cents 500) refl refl refl refl refl refl refl

-- A sold call in the money with an SL above its mark, in an account without other positions.
abbrev protected : List (RiskLeg ℤ)
protected =
    record {
      type = call;
      side = sell;
      qty = cents 100;
      strike = cents 5000;
      dte_days = nought;
      cv = cents 100;
      entry = cents 5000;
      mark = cents 5000;
      sl_price = some (cents 5100);
      in_group = true;
    }
    ∷ []

abbrev seen_at : ℕ → AtSpot ℤ
seen_at i =
    look (marked (cents 10000) protected) (cents 10000) (equity_now protected (cents 930000)) none
      up i

is_green_now : (scan protected (cents 10000) (cents 930000) none).verdict ≡ green
unfolding scan one_way walk look verdict_of nearer mm_of iv_of spot_at sl_crossed implied_vol
    implied_vol_in bs_price_at ncdf intrinsic compute_margin risk_margin worst_of scenario_loss
    scenario_pnl leg_value scenarios margin_floor floor_from long_premium vol_down_span vol_up_span
    price_shock_span om_pct iv_shock clip
is_green_now = refl

is_liquidated_at_80 : is_liquidated (seen_at 80) ≡ true
unfolding look mm_of iv_of spot_at sl_crossed implied_vol implied_vol_in bs_price_at ncdf intrinsic
    compute_margin risk_margin worst_of scenario_loss scenario_pnl leg_value scenarios margin_floor
    floor_from long_premium vol_down_span vol_up_span price_shock_span om_pct iv_shock clip
is_liquidated_at_80 = refl

green_stop_is_first_example :
    (j : ℕ) × (j < 80)
    × ((seen_at j).is_hit ≡ true)
    × (liq_buffer ⊗ (seen_at j).mm ≼ (seen_at j).after_close)
green_stop_is_first_example =
    green_stop_is_first fixed-IsOrdered protected (cents 10000) (cents 930000) none up 80
      is_green_now (omega arith) (omega arith) is_liquidated_at_80
