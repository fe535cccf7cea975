-- ===== src/Tests/Paper.antt =====
-- Examples of closing in the paper simulation (backend/app/sim/service.py).
use delta_paper_trader.Prelude.{◌⊎◌, ◌≡◌, refl, true, false, none, some, List, [], ◌∷◌}
use delta_paper_trader.Prelude.Int.{ℤ, pos}
use delta_paper_trader.Float.Fixed.{fixed, cents, fixed-IsOrdered, fixed-IsRounded}
use delta_paper_trader.Types.{sell, call, opened, leg}
use delta_paper_trader.Models.{Leg, Position, Account, LedgerEntry, manual, est, paper}
use delta_paper_trader.Sim.{
  quote_failed, MarketView, Db, done, MarginReply, quoted, get_position, get_account,
  close_position, close_leg,
}
use delta_paper_trader.Sim.Closing.{Settled, Runs, Shut, close_position_settles}
use delta_paper_trader.Sim.LegExit.{quote_fails, Reduced, close_leg_settles}

-- The market: a mark of 120 for every symbol, and a spot of 60000.
abbrev pub market : MarketView ℤ
market = record {
  quote = λ symbol. some (record {
    mark = some (cents 12000);
    bid = cents 11900;
    ask = cents 12100;
    iv = cents 50;
    delta = cents 50;
    gamma = pos 0;
    theta = pos 0;
    vega = pos 0;
    greeks_present = true;
  });
  spot = λ underlying. cents 6000000;
  atm_iv = λ underlying expiry. cents 50;
  fresh = true;
  age = some (pos 0);
}

abbrev pub sold_call : Leg ℤ
sold_call = record {
  id = 1;
  symbol = "C-BTC-60000-010126";
  product_id = 7;
  underlying = "BTC";
  type = call;
  strike = cents 6000000;
  contract_value = pos 10;
  expiry = "2026-01-01";
  dte = cents 500;
  side = sell;
  qty = cents 1000;
  entry = cents 10000;
  mark_at_entry = cents 10000;
  spot_at_entry = cents 6000000;
  target_pnl = none;
  stop_pnl = none;
  auto_exit = true;
  close_scope = leg;
  status = opened;
  exit_price = none;
  exit_at = none;
  exit_reason = none;
  exit_gross = none;
  exit_fees = none;
  sl_price = none;
  tp_price = none;
  stop_order_id = none;
  stop_price = none;
  tp_order_id = none;
  entry_at = none;
  entry_fees = none;
  entry_margin = none;
  last_margin = none;
  mark_at_exit = none;
}

abbrev pub straddle : Position ℤ
straddle = record {
  id = 4;
  user_id = 9;
  name = "two calls";
  underlying = "BTC";
  expiry = "2026-01-01";
  margin = cents 5000;
  entry_margin = cents 5000;
  margin_badge = est;
  opened_at = 0;
  status = opened;
  target_pnl = none;
  stop_loss_amount = none;
  stop_loss_pct_of_margin = none;
  target_pct_of_margin = none;
  auto_exit = false;
  auto_exit_suspended = false;
  stale_hard_stop = true;
  closed_at = none;
  close_reason = none;
  source = paper;
  exiting = false;
  legs = sold_call ∷ record sold_call { id = 2 } ∷ [];
}

abbrev pub funds : Account ℤ
funds = record { user_id = 9; balance_usd = cents 100000; start_balance_usd = cents 100000 }

abbrev pub rows : Db ℤ
rows = record { accounts = funds ∷ []; positions = straddle ∷ []; ledger = []; series = [] }

close_position_settles_example :
    (db' : Db ℤ) × (entries : List (LedgerEntry ℤ)) × (close_position market 5 9 4 manual rows
      ≡ done true db')
    × Settled 9 funds entries rows db'
    × Runs (cents 100000) entries
    × Shut 9 4 db'
    × (close_position market 5 9 4 manual db' ≡ done false db')
unfolding get_position get_account
close_position_settles_example =
    close_position_settles market 5 fixed-IsOrdered fixed-IsRounded 9 4 manual manual rows straddle
      funds refl refl refl

-- The quote for the legs that remain.
abbrev pub halved : Position ℤ → List (Leg ℤ) → MarginReply ℤ
halved p legs = quoted (cents 2500) est

close_leg_settles_example :
    ((quote_fails halved 2 straddle ≡ true)
      × (close_leg market 5 halved 9 4 2 manual none rows ≡ quote_failed))
    ⊎ ((quote_fails halved 2 straddle ≡ false)
        × (db' : Db ℤ) × (entries : List (LedgerEntry ℤ)) × (close_leg market 5 halved 9 4 2 manual
              none rows
            ≡ done true db')
        × Settled 9 funds entries rows db'
        × Reduced 9 4 2 straddle db')
unfolding get_position get_account
close_leg_settles_example =
    close_leg_settles market 5 fixed-IsOrdered fixed-IsRounded halved 9 4 2 manual none rows
      straddle (record sold_call { id = 2 }) funds refl refl refl refl
