-- ===== src/Sync/Live.antt =====
-- The exit decision for a live group: `evaluate_live` of backend/app/live/sync.py, with the basket's stop and
-- target and the bracket of a leg.
use delta_paper_trader.Prelude.{
  Bool, true, false, not, ◌&&◌, Option, none, some, List, [], map, any, filter, if◌then◌else◌,
}
use delta_paper_trader.Float.{Float, ◌⊗◌, ◌⊘◌, ◌≤?◌, abs, sum}
use delta_paper_trader.Types.{strategy}
use delta_paper_trader.Models.{Leg, Position, open_legs}
use delta_paper_trader.Money.{leg_pnl}
use delta_paper_trader.Risk.{sl_crossed, bracket_sl_price}
use delta_paper_trader.Exit.{
  ExitLeg, CombinedStop, ExitDecision, none_due, suspended, close_strategy, close_legs, Reason,
  Cause, no_cause, combined_sl, leg_tp_sl, leg_sl, leg_target, basket_target, evaluate_exit,
  combined_floor, open_leg,
}

-- `d.reason.replace("leg TP/SL", …)`
abbrev pub renamed : Bool → Reason → Reason
renamed hit_sl r = record r { cause = if hit_sl then leg_sl else leg_target }

abbrev pub is_leg_cause : Cause → Bool
is_leg_cause leg_tp_sl = true
is_leg_cause no_cause = false
is_leg_cause combined_sl = false
is_leg_cause leg_sl = false
is_leg_cause leg_target = false
is_leg_cause basket_target = false

-- What is done with the engine's decision: a basket target where nothing is due, and the name of the cause.
abbrev pub settle : Bool → Bool → ExitDecision → ExitDecision
settle at_target hit_sl none_due =
    if at_target
    then close_strategy (record { cause = basket_target; tagged = false })
    else none_due
settle at_target hit_sl suspended = suspended
settle at_target hit_sl (close_strategy r) =
    close_strategy (if is_leg_cause r.cause then renamed hit_sl r else r)
settle at_target hit_sl (close_legs r ids) =
    if is_leg_cause r.cause then close_legs (renamed hit_sl r) [] else close_legs r ids

module _ {W : Type 0} ⦃f : Float W⦄ where
  abbrev pub combined_stop : Position W → CombinedStop W
  combined_stop pos = record {
    loss_amount = pos.stop_loss_amount;
    loss_pct_of_margin = pos.stop_loss_pct_of_margin;
  }

  unfoldable pub basket_floor : Position W → Option W
  basket_floor pos = combined_floor (some (combined_stop pos)) pos.margin

  -- `basket_target`: an amount, or a percentage of the margin.
  unfoldable pub target_of_basket : Position W → Option W
  target_of_basket pos = elim pos.target_pnl [
    | some t ↦ some (abs t)
    | none ↦ elim pos.target_pct_of_margin [
      | some p ↦ some (pos.margin ⊗ abs p ⊘ f.lit 100 0)
      | none ↦ none
    ]
  ]

  unfoldable pub desired_bracket : Position W → Leg W → W → Option W × Option W
  desired_bracket pos lg tick = (
    bracket_sl_price lg.side lg.entry lg.qty lg.contract_value lg.sl_price (basket_floor pos) tick,
    lg.tp_price,
  )

  -- `at`: the P&L of the leg at a price, if there is one.
  abbrev pub pnl_at_price : Leg W → Option W → Option W
  pnl_at_price lg none = none
  pnl_at_price lg (some price) = some (leg_pnl lg.side lg.qty lg.contract_value lg.entry price)

  abbrev pub live_leg : (Leg W → W) → Leg W → ExitLeg W
  live_leg mark_of lg = record {
    id = lg.id;
    pnl = leg_pnl lg.side lg.qty lg.contract_value lg.entry (mark_of lg);
    target_pnl = pnl_at_price lg lg.tp_price;
    stop_pnl = pnl_at_price lg lg.sl_price;
    auto_exit = true;
    close_scope = strategy;
    status = lg.status;
  }

  abbrev pub net_of : List (ExitLeg W) → W
  net_of legs = sum (map (λ (lg : ExitLeg W). lg.pnl) (filter open_leg legs))

  abbrev pub meets : Option W → W → Bool
  meets none net = false
  meets (some t) net = t ≤? net

  unfoldable pub evaluate_live : Position W → (Leg W → W) → Bool → Bool → ExitDecision
  evaluate_live pos mark_of stale grace =
      let legs = map (live_leg mark_of) pos.legs in
      let net = net_of legs in
      let d = evaluate_exit legs net pos.margin (some (combined_stop pos)) true stale true grace in
      let at_target = not stale && meets (target_of_basket pos) net in
      let hit_sl =
        any (λ (lg : Leg W). sl_crossed lg.side (mark_of lg) lg.sl_price) (open_legs pos.legs) in
      settle at_target hit_sl d
