-- ===== src/Money.antt =====
-- The paper-trading money model, backend/app/engines/money.py: fees, fills, P&L, net greeks.
pub mod Laws
use delta_paper_trader.Prelude.{
  ◌≡◌, Bool, true, false, Option, none, some, List, [], ◌∷◌, map, if◌then◌else◌,
}
use delta_paper_trader.Float.{
  Float, ◌⊕◌, ◌⊖◌, ◌⊗◌, nought, one, abs, min, max, or_else, opt_or, sum,
}
use delta_paper_trader.Types.{Side, buy, sell}

pub record FeeSchedule (W : Type 0) : Type 0 where
  pub notional_rate : W  -- fraction of notional
  pub premium_cap : W  -- max fraction of premium

module _ {W : Type 0} ⦃f : Float W⦄ where
  -- `FEE_SCHEDULES["standard"]`, 0.03% and 10%
  abbrev pub standard_fee : FeeSchedule W
  standard_fee = record { notional_rate = f.lit 3 4; premium_cap = f.lit 10 2 }

  -- `ACTIVE_FEE`, "options_carnival": 0.010% and 3.5%
  abbrev pub active_fee : FeeSchedule W
  active_fee = record { notional_rate = f.lit 1 4; premium_cap = f.lit 35 3 }

  abbrev pub gst : W
  gst = f.lit 18 2

  abbrev pub fee_discount : W
  fee_discount = f.lit 0 1

  abbrev pub leg_sign : Side → W
  leg_sign buy = one
  leg_sign sell = f.neg one

  unfoldable pub leg_fee_at : W → W → W → W → FeeSchedule W → W
  leg_fee_at price spot cv qty fee =
      let base = min (fee.notional_rate ⊗ spot ⊗ cv ⊗ qty) (fee.premium_cap ⊗ price ⊗ cv ⊗ qty) in
      base ⊗ (one ⊖ fee_discount) ⊗ (one ⊕ gst)

  -- `leg_fee` with its default schedule
  unfoldable pub leg_fee : W → W → W → W → W
  unfolding leg_fee_at
  leg_fee price spot cv qty = leg_fee_at price spot cv qty active_fee

  -- At placement a buy lifts the ask, a sell hits the bid; 0 means no quote.
  unfoldable pub entry_fill : Side → W → W → W → W
  entry_fill buy bid ask fallback = or_else ask fallback
  entry_fill sell bid ask fallback = or_else bid fallback

  -- At close a long is sold at the bid, a short is bought back at the ask.
  unfoldable pub exit_fill : Side → W → W → W → W
  exit_fill buy bid ask fallback = or_else bid fallback
  exit_fill sell bid ask fallback = or_else ask fallback

  unfoldable pub spread : W → W → W
  spread bid ask = max (ask ⊖ bid) nought

  unfoldable pub leg_pnl : Side → W → W → W → W → W
  leg_pnl side qty cv entry mark = leg_sign side ⊗ (mark ⊖ entry) ⊗ qty ⊗ cv

  unfoldable pub leg_entry_slippage : W → W → W → W → W
  leg_entry_slippage entry mark_at_entry qty cv = abs (entry ⊖ mark_at_entry) ⊗ qty ⊗ cv

  unfoldable pub leg_greek_contrib : Side → W → W → W → W
  leg_greek_contrib side qty cv per_option_greek = leg_sign side ⊗ qty ⊗ cv ⊗ per_option_greek

pub record LegQuote (W : Type 0) : Type 0 where
  pub side : Side
  pub qty : W
  pub cv : W
  pub entry : W
  pub mark : W

pub record LegGreeks (W : Type 0) : Type 0 where
  pub side : Side
  pub qty : W
  pub cv : W
  pub delta : W
  pub theta : W
  pub vega : W

pub record Greeks (W : Type 0) : Type 0 where
  pub delta : W
  pub theta : W
  pub vega : W

module _ {W : Type 0} ⦃f : Float W⦄ where
  unfoldable pub quote_pnl : LegQuote W → W
  unfolding leg_pnl
  quote_pnl l = leg_pnl l.side l.qty l.cv l.entry l.mark

  unfoldable pub net_pnl : List (LegQuote W) → W
  unfolding quote_pnl
  net_pnl legs = sum (map quote_pnl legs)

  -- The loop of `net_greeks`, with its three running sums.
  unfoldable pub add_greeks : Greeks W → List (LegGreeks W) → Greeks W
  add_greeks acc [] = acc
  add_greeks acc (l ∷ ls) =
      let k = leg_sign l.side ⊗ l.qty ⊗ l.cv in
      add_greeks
        (record {
          delta = acc.delta ⊕ k ⊗ l.delta;
          theta = acc.theta ⊕ k ⊗ l.theta;
          vega = acc.vega ⊕ k ⊗ l.vega;
        })
        ls

  unfoldable pub net_greeks : List (LegGreeks W) → Greeks W
  unfolding add_greeks
  net_greeks legs = add_greeks (record { delta = nought; theta = nought; vega = nought }) legs
