-- ===== src/Tests/Exits.antt =====
-- Examples of the exit decision (backend/app/sim/exit_engine.py).
use delta_paper_trader.Prelude.{
  ℕ, ◌≡◌, refl, inl, true, false, Option, none, some, List, [], ◌∷◌, In, map,
}
use delta_paper_trader.Prelude.Int.{ℤ, negsuc}
use delta_paper_trader.Float.Fixed.{fixed, cents}
use delta_paper_trader.Types.{opened, leg}
use delta_paper_trader.Exit.{
  ExitLeg, CombinedStop, evaluate_exit, is_triggered, leg_decision, combined_floor, stop_floor,
}
use delta_paper_trader.Exit.Spec.{Acts, Closes, stop_is_enforced, close_legs_justified, IsDue}
use delta_paper_trader.Exit.Stale.{untagged, without_target, hard_stop_drops_targets}

-- A leg at a loss of 5 with a stop at -4, and one in profit with a target of 10.
abbrev losing : ExitLeg ℤ
losing = record {
  id = 1;
  pnl = negsuc 49999;
  target_pnl = none;
  stop_pnl = some (negsuc 39999);
  auto_exit = true;
  close_scope = leg;
  status = opened;
}

abbrev winning : ExitLeg ℤ
winning = record {
  id = 2;
  pnl = cents 1200;
  target_pnl = some (cents 1000);
  stop_pnl = none;
  auto_exit = true;
  close_scope = leg;
  status = opened;
}

abbrev two_legs : List (ExitLeg ℤ)
two_legs = losing ∷ winning ∷ []

abbrev basket : Option (CombinedStop ℤ)
basket = some (record { loss_amount = some (cents 5000); loss_pct_of_margin = none })

stop_is_enforced_example :
    Closes 1 (evaluate_exit two_legs (cents 700) (cents 10000) basket true false false false)
stop_is_enforced_example =
    stop_is_enforced two_legs losing (negsuc 39999) (cents 700) (cents 10000) basket true false
      false false (inl refl) refl refl refl refl (inl refl)

abbrev due_ids : List ℕ
due_ids = 1 ∷ 2 ∷ []

close_legs_justified_example :
    ((i : ℕ)
      → In i due_ids
      → (lg : ExitLeg ℤ) × In lg two_legs × (lg.id ≡ i) × (lg.status ≡ opened) × IsDue false lg)
    × ((lg : ExitLeg ℤ)
        → In lg two_legs
        → lg.status ≡ opened
        → IsDue false lg
        → In lg.id due_ids × (lg.close_scope ≡ leg))
    × Acts false false false
unfolding evaluate_exit is_triggered leg_decision combined_floor stop_floor
close_legs_justified_example =
    close_legs_justified two_legs (cents 700) (cents 10000) basket true false false false _ due_ids
      refl

hard_stop_drops_targets_example :
    untagged (evaluate_exit two_legs (cents 700) (cents 10000) basket true true true true)
    ≡ evaluate_exit
        (map without_target two_legs)
        (cents 700)
        (cents 10000)
        basket
        true
        false
        false
        false
hard_stop_drops_targets_example =
    hard_stop_drops_targets two_legs (cents 700) (cents 10000) basket true false false
