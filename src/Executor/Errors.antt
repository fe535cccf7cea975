-- ===== src/Executor/Errors.antt =====
-- The errors that end an exit.
use Prim.Native.String.{String}
use delta_paper_trader.Prelude.{◌≡◌}
use delta_paper_trader.Float.{Float}
use delta_paper_trader.Client.{
  Result, ok, raised, order_refused, delta_error, http_error, malformed, Transport, positions,
}
use delta_paper_trader.Executor.{Round, swept, stopped, crashed, Ended, finished, failed}

-- The call did not raise `DeltaError`.
abbrev pub IsHandled : {E : Type 0} → Result (Unit {0}) × E → Type 0
IsHandled (ok u, e) = Unit
IsHandled (raised (order_refused w), e) = Unit
IsHandled (raised (delta_error c), e) = ⊥
IsHandled (raised http_error, e) = Unit
IsHandled (raised malformed, e) = Unit

abbrev IsHandledRound : {E : Type 0} → Round × E → Type 0
IsHandledRound (swept tries n, e) = Unit
IsHandledRound (stopped w n, e) = Unit
IsHandledRound (crashed (order_refused w), e) = Unit
IsHandledRound (crashed (delta_error c), e) = ⊥
IsHandledRound (crashed http_error, e) = Unit
IsHandledRound (crashed malformed, e) = Unit

module _ {W : Type 0} {E : Type 0} ⦃f : Float W⦄ (send : Transport W E) where
  -- Where this is a `DeltaError`, a read of the positions has raised it, and left this state.
  abbrev IsOfRead : Ended × E → Type 0
  IsOfRead (finished res, e) = Unit
  IsOfRead (failed (order_refused w), e) = Unit
  IsOfRead (failed (delta_error c), e) =
      (e₀ : E) × (positions send e₀ ≡ (raised (delta_error c), e))
  IsOfRead (failed http_error, e) = Unit
  IsOfRead (failed malformed, e) = Unit
