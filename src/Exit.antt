-- ===== src/Exit.antt =====
-- The exit decision, backend/app/sim/exit_engine.py: what to auto-exit, given the legs' P&L, the stops
-- and whether the feed is stale.
pub mod Spec
pub mod Stale
use delta_paper_trader.Prelude.{
  ℕ, Bool, true, false, not, ◌&&◌, ◌||◌, Option, none, some, List, [], ◌∷◌, map, filter, any,
  is_empty, if◌then◌else◌,
}
use delta_paper_trader.Float.{Float, ◌⊗◌, ◌⊘◌, ◌≤?◌, abs}
use delta_paper_trader.Types.{Status, opened, closed, CloseScope, leg, strategy}

pub record ExitLeg (W : Type 0) : Type 0 where
  pub id : ℕ
  pub pnl : W
  pub target_pnl : Option W
  pub stop_pnl : Option W
  pub auto_exit : Bool
  pub close_scope : CloseScope
  pub status : Status

pub record CombinedStop (W : Type 0) : Type 0 where
  pub loss_amount : Option W
  pub loss_pct_of_margin : Option W

-- The texts that `ExitDecision.reason` takes here and in `evaluate_live`.
pub data Cause : Type 0 where
  no_cause combined_sl leg_tp_sl leg_sl leg_target basket_target : Cause

-- A cause with the tag " (stale hard-stop)" or without it.
pub record Reason : Type 0 where
  pub cause : Cause
  pub tagged : Bool

pub data ExitDecision : Type 0 where
  none_due : ExitDecision
  suspended : ExitDecision
  close_strategy : Reason → ExitDecision
  close_legs : Reason → List ℕ → ExitDecision

abbrev pub is_open : Status → Bool
is_open opened = true
is_open closed = false

abbrev pub is_strategy : CloseScope → Bool
is_strategy leg = false
is_strategy strategy = true

module _ {W : Type 0} ⦃f : Float W⦄ where
  -- Percentages are of a hundred.
  unfoldable pub stop_floor : CombinedStop W → W → Option W
  stop_floor stop margin = elim stop.loss_amount [
    | some a ↦ some (f.neg (abs a))
    | none ↦ elim stop.loss_pct_of_margin [
      | some p ↦ some (f.neg (margin ⊗ abs p) ⊘ f.lit 100 0)
      | none ↦ none
    ]
  ]

  unfoldable pub combined_floor : Option (CombinedStop W) → W → Option W
  unfolding stop_floor
  combined_floor none margin = none
  combined_floor (some stop) margin = stop_floor stop margin

  abbrev pub reached_target : Option W → W → Bool
  reached_target none pnl = false
  reached_target (some t) pnl = t ≤? pnl

  abbrev pub reached_stop : Option W → W → Bool
  reached_stop none pnl = false
  reached_stop (some s) pnl = pnl ≤? s

  abbrev pub open_leg : ExitLeg W → Bool
  open_leg lg = is_open lg.status

  -- The condition of the comprehension `triggered`.
  unfoldable pub is_triggered : Bool → ExitLeg W → Bool
  is_triggered check_targets lg =
      lg.auto_exit
      && ((check_targets && reached_target lg.target_pnl lg.pnl) || reached_stop lg.stop_pnl lg.pnl)

  -- Step 3, on the open legs.
  unfoldable pub leg_decision : Bool → List (ExitLeg W) → ExitDecision
  leg_decision hard open_legs =
      let triggered = filter (is_triggered (not hard)) open_legs in
      let reason : Reason = record { cause = leg_tp_sl; tagged = hard } in
      if is_empty triggered
      then none_due
      else if any (λ lg. is_strategy lg.close_scope) triggered
      then close_strategy reason
      else close_legs reason (map (λ lg. lg.id) triggered)

  unfoldable pub evaluate_exit :
      List (ExitLeg W) → W → W → Option (CombinedStop W) → Bool → Bool → Bool → Bool → ExitDecision
  evaluate_exit legs net_pnl margin combined_stop combined_auto_exit stale stale_hard_stop
        stale_grace_elapsed =
      let open_legs = filter open_leg legs in
      let hard = stale && (stale_hard_stop && stale_grace_elapsed) in
      let due = combined_auto_exit && reached_stop (combined_floor combined_stop margin) net_pnl in
      if is_empty open_legs
      then none_due
      else if stale && not hard
      then suspended
      else if due
      then close_strategy (record { cause = combined_sl; tagged = hard })
      else leg_decision hard open_legs
