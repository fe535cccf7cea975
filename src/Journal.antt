-- ===== src/Journal.antt =====
-- The live trade journal, backend/app/live/journal.py: the fills behind an entry or an exit, slippage, the
-- candle rows of a leg and the statistics of the P&L samples. Reading candles over HTTP, time stamps'
-- formats and the snapshot's JSON are left out; a time is a number.
pub mod Drawdown
pub mod Fills
use delta_paper_trader.Prelude.{
  ℕ, ◌==◌, leb, Bool, true, false, not, Option, none, some, List, [], ◌∷◌, map, if◌then◌else◌,
}
use delta_paper_trader.Float.{Float, ◌⊕◌, ◌⊖◌, ◌⊗◌, ◌⊘◌, ◌<?◌, nought, abs, sum, truthy}
use delta_paper_trader.Types.{Side, buy, sell}
use delta_paper_trader.Money.{leg_sign}

-- A fill as Delta reports it, with the time that `parse_ts` reads.
pub record Fill (W : Type 0) : Type 0 where
  pub product_id : ℕ
  pub side : Side
  pub size : W
  pub price : W
  pub commission : W
  pub created_at : Option ℕ
  pub order_id : ℕ

pub record FillSummary (W : Type 0) : Type 0 where
  pub price : W
  pub size : W
  pub fees : W
  pub first_at : Option ℕ
  pub last_at : Option ℕ

-- `Sample`: a bar of the net P&L
pub record Sample (W : Type 0) : Type 0 where
  pub t : ℕ
  pub opening : W
  pub high : W
  pub low : W
  pub close : W

-- A candle [t, o, h, l, c] has the same shape as a sample.
pub record CandleRow (W : Type 0) : Type 0 where
  pub mark : Sample W
  pub pnl : Sample W

pub record MtmStats (W : Type 0) : Type 0 where
  pub max_mtm : Option W
  pub max_mtm_at : Option ℕ
  pub min_mtm : Option W
  pub min_mtm_at : Option ℕ
  pub max_drawdown : W
  pub drawdown_peak_at : Option ℕ
  pub drawdown_trough_at : Option ℕ

-- The variables of the loop in `mtm_stats`.
pub record Running (W : Type 0) : Type 0 where
  pub peak : W
  pub peak_at : ℕ
  pub dd : W
  pub dd_peak_at : Option ℕ
  pub dd_trough_at : Option ℕ

abbrev pub same_side : Side → Side → Bool
same_side buy buy = true
same_side sell sell = true
same_side buy sell = false
same_side sell buy = false

abbrev pub earlier : ℕ → ℕ → ℕ
earlier a b = if leb a b then a else b

abbrev pub later : ℕ → ℕ → ℕ
later a b = if leb a b then b else a

-- `min(times)` and `max(times)`, `none` without any
abbrev pub pick : (ℕ → ℕ → ℕ) → List (Option ℕ) → Option ℕ
pick g [] = none
pick g (none ∷ ts) = pick g ts
pick g (some t ∷ ts) = elim (pick g ts) [ none ↦ some t | some u ↦ some (g t u) ]

module _ {W : Type 0} where
  unfoldable pub fill_run : List (Fill W) → ℕ → Side → List (Fill W)
  fill_run [] product_id side = []
  fill_run (x ∷ fills) product_id side =
      let run = fill_run fills product_id side in
      if not (x.product_id == product_id)
      then run
      else if not (same_side x.side side)
      then []
      else x ∷ run

module _ {W : Type 0} ⦃f : Float W⦄ where
  abbrev pub fill_price : Fill W → List (Fill W) → W → W
  fill_price x run size =
      if truthy size
      then sum (map (λ (y : Fill W). abs y.size ⊗ y.price) (x ∷ run)) ⊘ size
      else x.price

  unfoldable pub fill_summary : List (Fill W) → Option (FillSummary W)
  fill_summary [] = none
  fill_summary (x ∷ run) =
      let size = sum (map (λ (y : Fill W). abs y.size) (x ∷ run)) in
      let times = map (λ (y : Fill W). y.created_at) (x ∷ run) in
      some (record {
        price = fill_price x run size;
        size = size;
        fees = sum (map (λ (y : Fill W). y.commission) (x ∷ run));
        first_at = pick earlier times;
        last_at = pick later times;
      })

  abbrev pub per_unit : Side → W → W → W
  per_unit buy fill mark = fill ⊖ mark
  per_unit sell fill mark = mark ⊖ fill

  unfoldable pub slippage : Side → Option W → Option W → W → W → Option W
  slippage side none mark qty cv = none
  slippage side (some fill) none qty cv = none
  slippage side (some fill) (some mark) qty cv = some (per_unit side fill mark ⊗ qty ⊗ cv)

  -- `pnl` of `candle_rows`
  abbrev pub pnl_at : Side → W → W → W → W → W
  pnl_at side entry qty cv px = leg_sign side ⊗ (px ⊖ entry) ⊗ qty ⊗ cv

  abbrev pub pnl_bar : Side → (W → W) → Sample W → Sample W
  pnl_bar buy pnl k = record {
    t = k.t;
    opening = pnl k.opening;
    high = pnl k.high;
    low = pnl k.low;
    close = pnl k.close;
  }
  pnl_bar sell pnl k = record {
    t = k.t;
    opening = pnl k.opening;
    high = pnl k.low;
    low = pnl k.high;
    close = pnl k.close;
  }

  unfoldable pub candle_rows : Side → W → W → W → List (Sample W) → List (CandleRow W)
  candle_rows side entry qty cv candles =
      map (λ (k : Sample W). record { mark = k; pnl = pnl_bar side (pnl_at side entry qty cv) k })
        candles

  -- Python's `max` and `min` by a key keep the first of equal items.
  pub max_high : Sample W → List (Sample W) → Sample W
  max_high best [] = best
  max_high best (s ∷ samples) = max_high (if best.high <? s.high then s else best) samples

  pub min_low : Sample W → List (Sample W) → Sample W
  min_low best [] = best
  min_low best (s ∷ samples) = min_low (if s.low <? best.low then s else best) samples

  -- `if x > peak: peak, peak_at = x, t`
  abbrev pub raise_peak : W → ℕ → Running W → Running W
  raise_peak x t r = if r.peak <? x then record r { peak = x; peak_at = t } else r

  abbrev pub fall_to : W → ℕ → Running W → Running W
  fall_to low t r =
      if r.dd <? r.peak ⊖ low
      then record r { dd = r.peak ⊖ low; dd_peak_at = some r.peak_at; dd_trough_at = some t }
      else r

  unfoldable pub one_bar : Sample W → Running W → Running W
  one_bar s r = raise_peak s.high s.t (fall_to s.low s.t (raise_peak s.opening s.t r))

  unfoldable pub bars : List (Sample W) → Running W → Running W
  bars [] r = r
  bars (s ∷ samples) r = bars samples (one_bar s r)

  abbrev pub start_of : Sample W → Running W
  start_of s = record {
    peak = s.opening;
    peak_at = s.t;
    dd = nought;
    dd_peak_at = none;
    dd_trough_at = none;
  }

  unfoldable pub mtm_stats : List (Sample W) → MtmStats W
  mtm_stats [] = record {
    max_mtm = none;
    max_mtm_at = none;
    min_mtm = none;
    min_mtm_at = none;
    max_drawdown = nought;
    drawdown_peak_at = none;
    drawdown_trough_at = none;
  }
  mtm_stats (s ∷ samples) =
      let hi = max_high s samples in
      let lo = min_low s samples in
      let r = bars (s ∷ samples) (start_of s) in
      record {
        max_mtm = some hi.high;
        max_mtm_at = some hi.t;
        min_mtm = some lo.low;
        min_mtm_at = some lo.t;
        max_drawdown = r.dd;
        drawdown_peak_at = r.dd_peak_at;
        drawdown_trough_at = r.dd_trough_at;
      }
