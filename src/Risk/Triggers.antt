-- ===== src/Risk/Triggers.antt =====
-- A trigger that passes the check has not fired, and the margin levels follow the usage.
use delta_paper_trader.Prelude.{ℕ, ◌≤◌, ◌≡◌, Bool, true, false, Option, none, some, arith}
use delta_paper_trader.Float.{Float, ◌⊕◌, ◌⊖◌, ◌≼◌, ◌≺◌, nought}
use delta_paper_trader.Float.Laws.{IsOrdered, IsRounded}
use delta_paper_trader.Types.{Side, buy, sell}
use delta_paper_trader.Money.{leg_pnl}
use delta_paper_trader.Money.Laws.{leg_pnl_mono}
use delta_paper_trader.Risk.{
  TriggerKind, stop_loss, target, Level, info, warning, critical, emergency, sl_crossed, tp_crossed,
  trigger_buffer, check_trigger, margin_level,
}

abbrev pub rank : Option Level → ℕ
rank none = 0
rank (some info) = 0
rank (some warning) = 1
rank (some critical) = 2
rank (some emergency) = 3

module _ {W : Type 0} ⦃f : Float W⦄ where
  -- The trigger of this kind fires at the mark.
  abbrev pub fires : TriggerKind → Side → W → W → Bool
  fires stop_loss side mark price = sl_crossed side mark (some price)
  fires target side mark price = tp_crossed side mark (some price)

  -- A trigger that `check_trigger` accepts is positive and does not fire at the present mark, for either
  -- kind and either side, as long as the buffer survives the rounding on both sides of the mark.
  pub accepted_trigger_is_quiet :
      (o : IsOrdered W) (side : Side) (kind : TriggerKind) (price mark tick : W)
      → mark ⊖ trigger_buffer mark tick ≺ mark
      → mark ≺ mark ⊕ trigger_buffer mark tick
      → check_trigger side kind price mark tick ≡ none
      → (nought ≺ price) × (fires kind side mark price ≡ false)
  unfolding check_trigger sl_crossed tp_crossed
  accepted_trigger_is_quiet o buy stop_loss price mark tick lo hi e =
      (ground arith, ground (arith, o.le_trans mark price (mark ⊖ trigger_buffer mark tick)))
  accepted_trigger_is_quiet o sell stop_loss price mark tick lo hi e =
      (ground arith, ground (arith, o.le_trans (mark ⊕ trigger_buffer mark tick) price mark))
  accepted_trigger_is_quiet o buy target price mark tick lo hi e =
      (ground arith, ground (arith, o.le_trans (mark ⊕ trigger_buffer mark tick) price mark))
  accepted_trigger_is_quiet o sell target price mark tick lo hi e =
      (ground arith, ground (arith, o.le_trans mark price (mark ⊖ trigger_buffer mark tick)))

  -- The margin level never falls as the usage grows; no usage has no level.
  pub margin_level_mono :
      (o : IsOrdered W) (u v : W)
      → u ≼ v
      → (rank (margin_level (some u)) ≤ rank (margin_level (some v)))
        × (margin_level {W = W} none ≡ none)
  unfolding margin_level
  margin_level_mono o u v h =
      ground (
        arith,
        o.le_trans (f.lit 90 2) u v,
        o.le_trans (f.lit 80 2) u v,
        o.le_trans (f.lit 60 2) u v,
      )

  -- When the mark has reached the SL price of a leg with a quantity and a contract value that are not
  -- negative, its P&L at the mark is at most its P&L at the SL price.
  pub crossed_sl_reaches_pnl :
      (o : IsOrdered W) (r : IsRounded W) (side : Side) (qty cv entry mark sl : W)
      → nought ≼ qty
      → nought ≼ cv
      → sl_crossed side mark (some sl) ≡ true
      → leg_pnl side qty cv entry mark ≼ leg_pnl side qty cv entry sl
  unfolding sl_crossed
  crossed_sl_reaches_pnl o r buy qty cv entry mark sl hq hc h =
      leg_pnl_mono o r buy qty cv entry mark sl hq hc h
  crossed_sl_reaches_pnl o r sell qty cv entry mark sl hq hc h =
      leg_pnl_mono o r sell qty cv entry mark sl hq hc h
