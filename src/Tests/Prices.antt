-- ===== src/Tests/Prices.antt =====
-- Examples of the price rules (backend/app/live/risk.py) and of the fills (backend/app/engines/slippage.py).
use delta_paper_trader.Prelude.{◌≡◌, refl, false, none, some, List, [], ◌∷◌}
use delta_paper_trader.Prelude.Int.{ℤ}
use delta_paper_trader.Float.{◌≼◌, ◌≺◌, nought}
use delta_paper_trader.Float.Fixed.{fixed, cents, fixed-IsOrdered, fixed-IsRounded}
use delta_paper_trader.Types.{buy, sell}
use delta_paper_trader.Risk.{stop_loss, trigger_buffer, check_trigger, ioc_limit_price}
use delta_paper_trader.Risk.Triggers.{fires, accepted_trigger_is_quiet}
use delta_paper_trader.Risk.Prices.{Widens, ioc_limit_price-Widens}
use delta_paper_trader.Slippage.{BookLevel, OrderBook, FillParams, compute_fill}
use delta_paper_trader.Slippage.Bounds.{Bounded, compute_fill-Bounded}

-- An SL of 80 on a bought leg with a mark of 100, in ticks of 0.10.
accepted_trigger_is_quiet_example :
    (nought ≺ cents 8000) × (fires stop_loss buy (cents 10000) (cents 8000) ≡ false)
unfolding check_trigger trigger_buffer
accepted_trigger_is_quiet_example =
    accepted_trigger_is_quiet fixed-IsOrdered buy stop_loss (cents 8000) (cents 10000) (cents 10)
      refl refl refl

ioc_limit_price-Widens_example :
    Widens buy
      (ioc_limit_price buy (cents 10000) (cents 5) (cents 10))
      (ioc_limit_price buy (cents 10000) (cents 10) (cents 10))
    × (cents 10 ≼ ioc_limit_price sell (cents 10000) (cents 5) (cents 10))
ioc_limit_price-Widens_example =
    ioc_limit_price-Widens fixed-IsOrdered fixed-IsRounded buy (cents 10000) (cents 5) (cents 10)
      (cents 10) refl refl

abbrev asks : List (BookLevel ℤ)
asks =
    record { price = cents 10200; size = cents 300 }
    ∷ record { price = cents 10100; size = cents 100 }
    ∷ record { price = cents 20000; size = cents 900 }
    ∷ []

abbrev book : OrderBook ℤ
book = record { bids = []; asks = asks }

abbrev params : FillParams ℤ
params = record {
  mark = cents 10000;
  tick_size = cents 10;
  band = some (cents 11000);
  slippage_ticks = cents 100;
  contract_value = cents 100;
  vol_24h = none;
  k = cents 1;
  illiquid_floor = cents 5;
}

compute_fill-Bounded_example :
    Bounded buy (cents 350) (some (cents 11000)) (compute_fill buy (cents 350) book params)
compute_fill-Bounded_example =
    compute_fill-Bounded fixed-IsOrdered fixed-IsRounded buy (cents 350) book params
      (refl, (refl, (refl, tt))) refl
