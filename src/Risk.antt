-- ===== src/Risk.antt =====
-- The pure risk rules for live positions, backend/app/live/risk.py: trigger checks, tick rounding, the
-- widening close price and the margin alert levels.
pub mod Triggers
pub mod Prices
use delta_paper_trader.Prelude.{
  ℕ, ◌≡◌, Bool, true, false, not, ◌&&◌, Option, none, some, List, [], ◌∷◌, map, if◌then◌else◌,
}
use delta_paper_trader.Float.{
  Float, ◌⊕◌, ◌⊖◌, ◌⊗◌, ◌⊘◌, ◌≤?◌, ◌<?◌, nought, one, abs, min, max, sum,
}
use delta_paper_trader.Types.{Side, buy, sell, OptType}
use delta_paper_trader.Money.{leg_sign}

pub data TriggerKind : Type 0 where
  stop_loss target : TriggerKind

-- Why `check_trigger` refuses a trigger.
pub data TriggerProblem (W : Type 0) : Type 0 where
  not_positive : TriggerProblem W
  must_be_below must_be_above : W → TriggerProblem W

-- Ordered as `USAGE_LEVELS` names them.
pub data Level : Type 0 where
  info warning critical emergency : Level

pub record RiskLeg (W : Type 0) : Type 0 where
  pub type : OptType
  pub side : Side
  pub qty : W
  pub strike : W
  pub dte_days : W
  pub cv : W
  pub entry : W
  pub mark : W
  pub sl_price : Option W
  pub in_group : Bool

abbrev pub close_side : Side → Side
close_side sell = buy
close_side buy = sell

-- `(kind == "SL") == (side == "buy")`
abbrev pub is_below : TriggerKind → Side → Bool
is_below stop_loss buy = true
is_below stop_loss sell = false
is_below target buy = false
is_below target sell = true

module _ {W : Type 0} ⦃f : Float W⦄ where
  -- `CLOSE_BANDS`
  abbrev pub close_bands : List W
  close_bands = f.lit 5 2 ∷ f.lit 10 2 ∷ f.lit 20 2 ∷ f.lit 40 2 ∷ []

  unfoldable pub round_up : W → W → W
  round_up price tick =
      if tick ≤? nought then price else f.round_to 10 (f.ceil (price ⊘ tick ⊖ f.lit 1 9) ⊗ tick)

  unfoldable pub round_down : W → W → W
  round_down price tick =
      if tick ≤? nought then price else f.round_to 10 (f.floor (price ⊘ tick ⊕ f.lit 1 9) ⊗ tick)

  abbrev pub stop_at : Side → W → W → W → Option W
  stop_at sell entry per_unit tick = some (round_up (entry ⊕ per_unit) tick)
  stop_at buy entry per_unit tick =
      let price = entry ⊖ per_unit in if tick <? price then some (round_down price tick) else none

  unfoldable pub native_stop_price : Side → W → W → W → Option W → W → Option W
  native_stop_price side entry qty cv none tick = none
  native_stop_price side entry qty cv (some stop_pnl) tick =
      if qty ≤? nought
      then none
      else if cv ≤? nought
      then none
      else stop_at side entry (abs stop_pnl ⊘ (qty ⊗ cv)) tick

  unfoldable pub sl_crossed : Side → W → Option W → Bool
  sl_crossed side mark none = false
  sl_crossed buy mark (some sl) = mark ≤? sl
  sl_crossed sell mark (some sl) = sl ≤? mark

  unfoldable pub tp_crossed : Side → W → Option W → Bool
  tp_crossed side mark none = false
  tp_crossed buy mark (some tp) = tp ≤? mark
  tp_crossed sell mark (some tp) = mark ≤? tp

  unfoldable pub trigger_buffer : W → W → W
  trigger_buffer mark tick = max (f.lit 1 2 ⊗ mark) (f.lit 2 0 ⊗ tick)

  unfoldable pub check_trigger : Side → TriggerKind → W → W → W → Option (TriggerProblem W)
  check_trigger side kind price mark tick =
      let buf = trigger_buffer mark tick in
      let below = is_below kind side in
      if price ≤? nought
      then some not_positive
      else if below && (mark ⊖ buf <? price)
      then some (must_be_below buf)
      else if not below && (price <? mark ⊕ buf)
      then some (must_be_above buf)
      else none

  -- The tighter of two optional prices: the higher for a bought leg, the lower for a sold one.
  abbrev pub tighter : Side → Option W → Option W → Option W
  tighter side none none = none
  tighter side none (some b) = some b
  tighter side (some a) none = some a
  tighter buy (some a) (some b) = some (max a b)
  tighter sell (some a) (some b) = some (min a b)

  unfoldable pub bracket_sl_price : Side → W → W → W → Option W → Option W → W → Option W
  bracket_sl_price side entry qty cv sl_price basket_floor tick =
      tighter side sl_price (native_stop_price side entry qty cv basket_floor tick)

  unfoldable pub ioc_limit_price : Side → W → W → W → W
  ioc_limit_price buy mark band tick = round_up (max mark tick ⊗ (one ⊕ band)) tick
  ioc_limit_price sell mark band tick = max (round_down (mark ⊗ (one ⊖ band)) tick) tick

  unfoldable pub balance_after_fill : W → List (RiskLeg W) → W
  balance_after_fill balance new_legs =
      balance
      ⊖ sum (map (λ (lg : RiskLeg W). leg_sign lg.side ⊗ lg.qty ⊗ lg.cv ⊗ lg.entry) new_legs)

  -- The loop over `USAGE_LEVELS`: 90%, 80% and 60%.
  unfoldable pub margin_level : Option W → Option Level
  margin_level none = none
  margin_level (some usage) =
      if f.lit 90 2 ≤? usage
      then some emergency
      else if f.lit 80 2 ≤? usage
      then some critical
      else if f.lit 60 2 ≤? usage
      then some warning
      else none
