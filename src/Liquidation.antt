-- ===== src/Liquidation.antt =====
-- The check of a group's stops against Delta's liquidation, backend/app/live/risk.py
-- (`check_sl_vs_liquidation` and `_scan`). The texts in `LiqCheck.reason` are left out.
pub mod Green
use delta_paper_trader.Prelude.{
  ℕ, zero, suc, ltb, Bool, true, false, ◌&&◌, ◌||◌, Option, none, some, List, [], ◌∷◌, map, filter,
  any, is_empty, is_some, if◌then◌else◌,
}
use delta_paper_trader.Float.{Float, ◌⊕◌, ◌⊖◌, ◌⊗◌, ◌⊘◌, ◌≤?◌, ◌<?◌, nought, one, abs, max, sum}
use delta_paper_trader.Types.{Side, buy, sell}
use delta_paper_trader.Money.{leg_sign}
use delta_paper_trader.Margin.{
  MarginLeg, MarginSide, long, short, bs_price_at, implied_vol, compute_margin, default_params,
}
use delta_paper_trader.Risk.{RiskLeg, sl_crossed}

pub data Verdict : Type 0 where
  green yellow red : Verdict

pub record LiqCheck (W : Type 0) : Type 0 where
  pub verdict : Verdict
  pub sl_spot : Option W
  pub liq_spot : Option W
  pub equity : W
  pub maintenance_margin : W
  pub usage : Option W
  pub max_scale : W

pub data Direction : Type 0 where
  up down : Direction

-- A leg with the volatility of today and the price that the scan gives it.
pub record Priced (W : Type 0) : Type 0 where
  pub lg : RiskLeg W
  pub iv : W
  pub price : W

-- What the scan sees at one spot: the equity, the maintenance margin, whether a stop is met, and the
-- equity less the slippage of the close.
pub record AtSpot (W : Type 0) : Type 0 where
  pub spot : W
  pub equity : W
  pub mm : W
  pub is_hit : Bool
  pub after_close : W

-- The variables of the scan in one direction.
pub record Pass (W : Type 0) : Type 0 where
  pub sl_spot : Option W
  pub liq_spot : Option W
  pub sl_eq : W
  pub sl_mm : W

-- `_rank`
abbrev pub rank : Verdict → ℕ
rank green = 0
rank yellow = 1
rank red = 2

abbrev pub is_green : Verdict → Bool
is_green green = true
is_green yellow = false
is_green red = false

abbrev pub margin_side : Side → MarginSide
margin_side buy = long
margin_side sell = short

-- 0.25% steps out to 50%
abbrev pub steps : ℕ
steps = 200

module _ {W : Type 0} ⦃f : Float W⦄ where
  -- `LIQ_BUFFER` and `SLIPPAGE_ALLOWANCE`
  abbrev pub liq_buffer : W
  liq_buffer = f.lit 125 2

  abbrev pub slippage_allowance : W
  slippage_allowance = f.lit 10 2

  -- `max(lg.dte_days, 1 / 24)`
  abbrev pub days_of : RiskLeg W → W
  days_of lg = max lg.dte_days (one ⊘ f.lit 24 0)

  -- `_iv`
  unfoldable pub iv_of : RiskLeg W → W → W
  iv_of lg spot =
      let iv = implied_vol lg.type spot lg.strike (days_of lg ⊘ f.lit 365 0) lg.mark in
      if nought <? iv then iv else f.lit 5 1

  abbrev pub margin_leg : Priced W → MarginLeg W
  margin_leg row = record {
    option_type = row.lg.type;
    side = margin_side row.lg.side;
    qty = row.lg.qty;
    strike = row.lg.strike;
    dte_days = days_of row.lg;
    iv = row.iv;
    contract_value = row.lg.cv;
    mark = row.price;
  }

  -- `_mm`
  unfoldable pub mm_of : List (Priced W) → W → W
  mm_of [] spot = nought
  mm_of (row ∷ rows) spot =
      (compute_margin (map margin_leg (row ∷ rows)) spot default_params nought).maintenance_margin

  abbrev pub signed_value : RiskLeg W → W → W
  signed_value lg price = leg_sign lg.side ⊗ lg.qty ⊗ lg.cv ⊗ price

  abbrev pub in_group : Priced W → Bool
  in_group row = row.lg.in_group

  -- The rows at today's marks.
  abbrev pub marked : W → List (RiskLeg W) → List (Priced W)
  marked spot legs =
      map (λ (lg : RiskLeg W). record { lg = lg; iv = iv_of lg spot; price = lg.mark }) legs

  abbrev pub repriced : W → Priced W → Priced W
  repriced s row = record row {
    price = bs_price_at row.lg.type s row.lg.strike (days_of row.lg ⊘ f.lit 365 0) row.iv nought;
  }

  abbrev pub direction_sign : Direction → W
  direction_sign up = one
  direction_sign down = f.neg one

  -- `spot * (1 + direction * 0.0025 * step)`
  unfoldable pub spot_at : W → Direction → ℕ → W
  spot_at spot d step = spot ⊗ (one ⊕ direction_sign d ⊗ f.lit 25 4 ⊗ f.of_ℕ step)

  abbrev pub floor_hit : Option W → W → Bool
  floor_hit none total = false
  floor_hit (some b) total = total ≤? f.neg (abs b)

  -- One step of the scan: the legs at the new spot.
  unfoldable pub look : List (Priced W) → W → W → Option W → Direction → ℕ → AtSpot W
  look rows spot equity basket_floor d step =
      let s = spot_at spot d step in
      let now = map (repriced s) rows in
      let group = filter in_group now in
      let eq =
        equity
        ⊕ sum (map (λ (row : Priced W). signed_value row.lg (row.price ⊖ row.lg.mark)) now) in
      let pnl =
        sum (map (λ (row : Priced W). signed_value row.lg (row.price ⊖ row.lg.entry)) group) in
      let slip =
        slippage_allowance
        ⊗ sum (map (λ (row : Priced W). row.lg.qty ⊗ row.lg.cv ⊗ row.price) group) in
      record {
        spot = s;
        equity = eq;
        mm = mm_of now s;
        is_hit =
            any (λ (row : Priced W). sl_crossed row.lg.side row.price row.lg.sl_price) group
            || floor_hit basket_floor pnl;
        after_close = eq ⊖ slip;
      }

  abbrev pub is_liquidated : AtSpot W → Bool
  is_liquidated v = v.equity ≤? v.mm

  abbrev pub see_liq : AtSpot W → Option W → Option W
  see_liq v (some s) = some s
  see_liq v none = if is_liquidated v then some v.spot else none

  abbrev pub see_stop : AtSpot W → Option W → Pass W → Pass W
  see_stop v (some s) p = p
  see_stop v none p =
      if v.is_hit
      then record p { sl_spot = some v.spot; sl_eq = v.after_close; sl_mm = v.mm }
      else p

  abbrev pub see : AtSpot W → Pass W → Pass W
  see v p = see_stop v p.sl_spot (record p { liq_spot = see_liq v p.liq_spot })

  -- The loop over the steps, from step `k` on, left at the first liquidation.
  unfoldable pub walk : (ℕ → AtSpot W) → ℕ → ℕ → Pass W → Pass W
  walk view zero k p = p
  walk view (suc n) k p =
      let q = see (view k) p in
      let rest = walk view n (suc k) q in if is_some q.liq_spot then q else rest

  abbrev pub nothing_seen : Pass W
  nothing_seen = record { sl_spot = none; liq_spot = none; sl_eq = nought; sl_mm = nought }

  unfoldable pub one_way : (ℕ → AtSpot W) → Pass W
  one_way view = walk view steps 1 nothing_seen

  -- `_nearer`
  unfoldable pub nearer : W → W → W → Bool
  nearer a b spot = abs (a ⊖ spot) ≤? abs (b ⊖ spot)

  abbrev pub liq_first : Option W → W → W → Bool
  liq_first none sl spot = false
  liq_first (some liq) sl spot = nearer liq sl spot

  abbrev pub judge : W → Option W → Pass W → Verdict
  judge spot none p = if is_some p.liq_spot then red else green
  judge spot (some sl) p =
      if liq_first p.liq_spot sl spot
      then red
      else if p.sl_eq <? liq_buffer ⊗ p.sl_mm
      then yellow
      else green

  unfoldable pub verdict_of : W → Pass W → Verdict
  verdict_of spot p = judge spot p.sl_spot p

  abbrev pub checked : W → W → W → Option W → Pass W → LiqCheck W
  checked spot equity mm usage p = record {
    verdict = verdict_of spot p;
    sl_spot = p.sl_spot;
    liq_spot = p.liq_spot;
    equity = equity;
    maintenance_margin = mm;
    usage = usage;
    max_scale = nought;
  }

  abbrev pub worse : LiqCheck W → LiqCheck W → LiqCheck W
  worse a b = if ltb (rank a.verdict) (rank b.verdict) then b else a

  abbrev pub equity_now : List (RiskLeg W) → W → W
  equity_now legs balance = balance ⊕ sum (map (λ (lg : RiskLeg W). signed_value lg lg.mark) legs)

  -- `_scan`
  unfoldable pub scan : List (RiskLeg W) → W → W → Option W → LiqCheck W
  scan legs spot balance basket_floor =
      let rows = marked spot legs in
      let equity = equity_now legs balance in
      let mm_now = mm_of rows spot in
      let usage = if nought <? equity then some (mm_now ⊘ equity) else none in
      let way = λ (d : Direction).
        checked spot equity mm_now usage (one_way (look rows spot equity basket_floor d)) in
      worse (way up) (way down)

  -- The group at `mid` times its size, and the value that the extra size adds at the marks.
  abbrev pub scaled : W → List (RiskLeg W) → List (RiskLeg W)
  scaled mid legs =
      map (λ (lg : RiskLeg W). if lg.in_group then record lg { qty = lg.qty ⊗ mid } else lg) legs

  abbrev pub added_value : W → List (RiskLeg W) → W
  added_value mid legs = sum (
      map (λ (lg : RiskLeg W). leg_sign lg.side ⊗ lg.qty ⊗ (mid ⊖ one) ⊗ lg.cv ⊗ lg.mark)
        (filter (λ (lg : RiskLeg W). lg.in_group) legs))

  -- The binary search for the largest green size.
  unfoldable pub search_scale : (W → Bool) → ℕ → W → W → W
  search_scale ok zero lo hi = lo
  search_scale ok (suc n) lo hi =
      let mid = (lo ⊕ hi) ⊘ f.lit 2 0 in
      let good = ok mid in search_scale ok n (if good then mid else lo) (if good then hi else mid)

  unfoldable pub check_sl_vs_liquidation : List (RiskLeg W) → W → W → Option W → LiqCheck W
  check_sl_vs_liquidation legs spot balance basket_floor =
      let res = scan legs spot balance basket_floor in
      let ok = λ (mid : W).
        is_green
          (scan (scaled mid legs) spot (balance ⊖ added_value mid legs) basket_floor).verdict in
      let lo = if is_green res.verdict then search_scale ok 12 nought (f.lit 20 0) else nought in
      if is_empty legs || (spot ≤? nought)
      then record {
        verdict = yellow;
        sl_spot = none;
        liq_spot = none;
        equity = balance;
        maintenance_margin = nought;
        usage = none;
        max_scale = nought;
      }
      else record res { max_scale = f.round_to 2 lo }
