-- ===== src/Exit/Stale.antt =====
-- What the engine does on a stale feed under the hard stop: it enforces the stops alone.
use delta_paper_trader.Prelude.{
  ◌≡◌, refl, Bool, true, false, Option, none, List, [], ◌∷◌, map, filter, any, is_empty, arith,
}
use delta_paper_trader.Float.{Float}
use delta_paper_trader.Exit.{
  ExitLeg, CombinedStop, ExitDecision, none_due, suspended, close_strategy, close_legs, open_leg,
  is_strategy, is_triggered, leg_decision, evaluate_exit,
}

-- The decision without the tag of its reason.
abbrev pub untagged : ExitDecision → ExitDecision
untagged none_due = none_due
untagged suspended = suspended
untagged (close_strategy r) = close_strategy (record { cause = r.cause; tagged = false })
untagged (close_legs r ids) = close_legs (record { cause = r.cause; tagged = false }) ids

module _ {W : Type 0} ⦃f : Float W⦄ where
  abbrev pub without_target : ExitLeg W → ExitLeg W
  without_target lg = record lg { target_pnl = none }

  filter_open-without_target :
      (legs : List (ExitLeg W))
      → filter open_leg (map without_target legs) ≡ map without_target (filter open_leg legs)
  filter_open-without_target [] = refl
  filter_open-without_target (lg ∷ legs) = ground (arith, filter_open-without_target legs)

  is_triggered-without_target :
      (lg : ExitLeg W) → is_triggered true (without_target lg) ≡ is_triggered false lg
  unfolding is_triggered
  is_triggered-without_target lg = ground arith

  filter_triggered-without_target :
      (legs : List (ExitLeg W))
      → filter (is_triggered true) (map without_target legs)
        ≡ map without_target (filter (is_triggered false) legs)
  filter_triggered-without_target [] = refl
  filter_triggered-without_target (lg ∷ legs) =
      ground (arith, filter_triggered-without_target legs, is_triggered-without_target lg)

  any_strategy-without_target :
      (legs : List (ExitLeg W))
      → any (λ (l : ExitLeg W). is_strategy l.close_scope) (map without_target legs)
        ≡ any (λ (l : ExitLeg W). is_strategy l.close_scope) legs
  any_strategy-without_target [] = refl
  any_strategy-without_target (lg ∷ legs) = ground (arith, any_strategy-without_target legs)

  ids-without_target :
      (legs : List (ExitLeg W))
      → map (λ (l : ExitLeg W). l.id) (map without_target legs) ≡ map (λ (l : ExitLeg W). l.id) legs
  ids-without_target [] = refl
  ids-without_target (lg ∷ legs) = rw (ids-without_target legs)

  is_empty-without_target :
      (legs : List (ExitLeg W)) → is_empty (map without_target legs) ≡ is_empty legs
  is_empty-without_target [] = refl
  is_empty-without_target (lg ∷ legs) = refl

  leg_decision-without_target :
      (legs : List (ExitLeg W))
      → untagged (leg_decision true legs) ≡ leg_decision false (map without_target legs)
  unfolding leg_decision
  leg_decision-without_target legs =
      let ts = filter (is_triggered false) legs in
      rw
        (
          filter_triggered-without_target legs,
          is_empty-without_target ts,
          any_strategy-without_target ts,
          ids-without_target ts,
        )
        (ground arith)

  -- Past the grace, the hard stop decides on the frozen prices as the engine does on a fresh feed for the
  -- same legs without their targets: stops fire, no profit is taken. Only the reason's tag differs.
  pub hard_stop_drops_targets :
      (legs : List (ExitLeg W)) (net margin : W) (stop : Option (CombinedStop W))
      (combined opted grace : Bool)
      → untagged (evaluate_exit legs net margin stop combined true true true)
        ≡ evaluate_exit (map without_target legs) net margin stop combined false opted grace
  unfolding evaluate_exit
  hard_stop_drops_targets legs net margin stop combined opted grace =
      rw (filter_open-without_target legs, is_empty-without_target (filter open_leg legs))
        (ground (arith, leg_decision-without_target (filter open_leg legs)))
