-- ===== src/Sim/Samples.antt =====
-- The valuation of a position and its samples: `position_pnl`, `leg_greeks`, `build_sample`, `MtmOhlc` and
-- `position_entry_slippage` of backend/app/sim/service.py.
use Prim.Native.String.{String}
use delta_paper_trader.Prelude.{
  ℕ, ◌&&◌, Option, none, some, List, [], ◌∷◌, map, any, same_text, if◌then◌else◌,
}
use delta_paper_trader.Float.{Float, ◌⊗◌, ◌⊘◌, ◌<?◌, nought, min, max, sum}
use delta_paper_trader.Models.{Leg, Position, open_legs}
use delta_paper_trader.Money.{
  LegQuote, LegGreeks, Greeks, leg_sign, leg_pnl, leg_entry_slippage, net_pnl, net_greeks,
}
use delta_paper_trader.Margin.{bs_greeks}
use delta_paper_trader.Sim.State.{Quote, MarketView, LegSample, mark_of}

pub record Sample (W : Type 0) : Type 0 where
  pub t : ℕ
  pub pnl : W
  pub pnl_open : W
  pub pnl_high : W
  pub pnl_low : W
  pub delta : W
  pub theta : W
  pub vega : W
  pub atm_iv : List (String × W)
  pub legs : List (LegSample W)

-- The candle of an `MtmOhlc`; one that has not started is `none`.
pub record Candle (W : Type 0) : Type 0 where
  pub open_ : W
  pub high : W
  pub low : W
  pub close : W

module _ {W : Type 0} ⦃f : Float W⦄ where
  -- `MtmOhlc.add`
  unfoldable pub add_mtm : Option (Candle W) → W → Candle W
  add_mtm none v = record { open_ = v; high = v; low = v; close = v }
  add_mtm (some c) v = record { open_ = c.open_; high = max c.high v; low = min c.low v; close = v }

  unfoldable pub marked : MarketView W → Leg W → LegQuote W
  marked mv lg = record {
    side = lg.side;
    qty = lg.qty;
    cv = lg.contract_value;
    entry = lg.entry;
    mark = mark_of mv lg;
  }

  unfoldable pub position_pnl : Position W → MarketView W → W
  position_pnl pos mv = net_pnl (map (marked mv) (open_legs pos.legs))

  -- The delta, theta and vega of one contract.
  unfoldable pub leg_greeks : Leg W → Option (Quote W) → W → Greeks W
  leg_greeks lg none spot = record { delta = nought; theta = nought; vega = nought }
  leg_greeks lg (some q) spot =
      let fed : Greeks W = record { delta = q.delta; theta = q.theta; vega = q.vega } in
      let g = bs_greeks lg.type spot lg.strike (lg.dte ⊘ f.lit 365 0) q.iv in
      if q.greeks_present
      then fed
      else if (nought <? q.iv) && (nought <? spot) && (nought <? lg.dte)
      then record { delta = g.delta; theta = g.theta; vega = g.vega }
      else fed

  abbrev pub leg_exposure : MarketView W → W → Leg W → LegGreeks W
  leg_exposure mv spot lg =
      let g = leg_greeks lg (mv.quote lg.symbol) spot in
      record {
        side = lg.side;
        qty = lg.qty;
        cv = lg.contract_value;
        delta = g.delta;
        theta = g.theta;
        vega = g.vega;
      }

  -- A number of the quote, 0 where there is none.
  abbrev pub quoted_or_0 : (Quote W → W) → Option (Quote W) → W
  quoted_or_0 field none = nought
  quoted_or_0 field (some q) = field q

  unfoldable pub leg_row : MarketView W → W → Leg W → LegSample W
  leg_row mv spot lg =
      let q = mv.quote lg.symbol in
      let g = leg_greeks lg q spot in
      let sgn = leg_sign lg.side ⊗ lg.qty ⊗ lg.contract_value in
      record {
        leg_id = lg.id;
        pnl = leg_pnl lg.side lg.qty lg.contract_value lg.entry (mark_of mv lg);
        iv = quoted_or_0 (λ x. x.iv) q;
        delta = sgn ⊗ g.delta;
        theta = sgn ⊗ g.theta;
        vega = sgn ⊗ g.vega;
        bid = quoted_or_0 (λ x. x.bid) q;
        ask = quoted_or_0 (λ x. x.ask) q;
      }

  -- The comprehension over the set of the legs' expiries.
  unfoldable pub atm_ivs : MarketView W → String → List (Leg W) → List (String × W)
  atm_ivs mv underlying [] = []
  atm_ivs mv underlying (lg ∷ legs) =
      let rest = atm_ivs mv underlying legs in
      if any (λ (p : String × W). same_text p.0 lg.expiry) rest
      then rest
      else (lg.expiry, mv.atm_iv underlying lg.expiry) ∷ rest

  unfoldable pub build_sample : Position W → MarketView W → ℕ → Sample W
  build_sample pos mv now =
      let legs = open_legs pos.legs in
      let spot = mv.spot pos.underlying in
      let ng = net_greeks (map (leg_exposure mv spot) legs) in
      let net = net_pnl (map (marked mv) legs) in
      record {
        t = now;
        pnl = net;
        pnl_open = net;
        pnl_high = net;
        pnl_low = net;
        delta = ng.delta;
        theta = ng.theta;
        vega = ng.vega;
        atm_iv = atm_ivs mv pos.underlying legs;
        legs = map (leg_row mv spot) legs;
      }

  unfoldable pub position_entry_slippage : Position W → W
  position_entry_slippage pos = sum (
      map (λ (lg : Leg W). leg_entry_slippage lg.entry lg.mark_at_entry lg.qty lg.contract_value)
        (open_legs pos.legs))
