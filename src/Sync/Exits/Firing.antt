-- ===== src/Sync/Exits/Firing.antt =====
-- A trigger and an exit by hand keep the marks of exits.
use Prim.Native.String.{String}
use delta_paper_trader.Prelude.{
  ℕ, ◌≡◌, refl, true, not, ◌||◌, Option, none, some, Bool-cases, inl, inr, arith,
}
use delta_paper_trader.Float.{Float}
use delta_paper_trader.Models.{Position, is_opened}
use delta_paper_trader.Exit.{ExitDecision, none_due, suspended, close_strategy, close_legs}
use delta_paper_trader.Sim.{MarketView}
use delta_paper_trader.Sync.Exits.{decided, LiveState, maybe_trigger, on_decision, exit_found}
use delta_paper_trader.Sync.Exits.Marks.{is_exiting, change_group-exiting, start_exit-exiting}

module _ {W : Type 0} ⦃f : Float W⦄ (mv : MarketView W) (mark_age : String → Option W)
    (tick_of : String → W) where
  on_decision-exiting :
      (pid : ℕ) (p : Position W) (d : ExitDecision) (st : LiveState W)
      → is_exiting pid st ≡ true
      → is_exiting pid (on_decision mv mark_age tick_of p d st) ≡ true
  on_decision-exiting pid p none_due st h = h
  on_decision-exiting pid p suspended st h = h
  on_decision-exiting pid p (close_strategy why) st h =
      start_exit-exiting tick_of pid p (decided why) st h
  on_decision-exiting pid p (close_legs why ids) st h =
      start_exit-exiting tick_of pid p (decided why) st h

  pub maybe_trigger-exiting :
      (pid : ℕ) (p : Position W) (st : LiveState W)
      → is_exiting pid st ≡ true
      → is_exiting pid (maybe_trigger mv mark_age tick_of p st) ≡ true
  unfolding maybe_trigger
  maybe_trigger-exiting pid p st h = elim (Bool-cases (not p.auto_exit || p.exiting)) [
    | inl e ↦ rw e h
    | inr e ↦ rw e (
        on_decision-exiting pid p _ _
          (change_group-exiting pid p.id _ st (λ q. (refl, ground arith)) h))
  ]

  pub exit_found-exiting :
      (pid : ℕ) (o : Option (Position W)) (st : LiveState W)
      → is_exiting pid st ≡ true
      → is_exiting pid (exit_found mv mark_age tick_of o st).1 ≡ true
  exit_found-exiting pid none st h = h
  exit_found-exiting pid (some p) st h = elim (Bool-cases (is_opened p.status)) [
    | inl e ↦ rw e (start_exit-exiting tick_of pid p _ st h)
    | inr e ↦ rw e h
  ]
