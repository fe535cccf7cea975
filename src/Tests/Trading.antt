-- ===== src/Tests/Trading.antt =====
-- Examples of placing, settling and ticking in the paper simulation.
use Prim.Native.String.{String}
use delta_paper_trader.Prelude.{
  ◌≡◌, refl, inl, true, false, none, some, List, [], ◌∷◌, Option, ℕ, arith,
}
use delta_paper_trader.Prelude.Int.{ℤ, pos}
use delta_paper_trader.Float.Fixed.{fixed, cents, fixed-IsOrdered, fixed-IsRounded}
use delta_paper_trader.Types.{sell, call}
use delta_paper_trader.Models.{Leg, Position, est, live}
use delta_paper_trader.Money.{leg_pnl}
use delta_paper_trader.Sim.{Db, MarginReply, quoted, get_position, get_account, mark_of}
use delta_paper_trader.Sim.Frame.{IsLiveRow}
use delta_paper_trader.Sim.Samples.{Candle}
use delta_paper_trader.Sim.Placing.{LegSpec, PlaceRequest, placed, place_strategy, place_legs}
use delta_paper_trader.Sim.Placing.Settles.{HasPlaced, placed_settles}
use delta_paper_trader.Sim.Settlement.{Settling}
use delta_paper_trader.Sim.Ticker.{
  Ticker, tick, tick_exit, tick_positions, settle_due, evaluate_position_exit, exit_leg,
}
use delta_paper_trader.Exit.{evaluate_exit, leg_decision, is_triggered}
use delta_paper_trader.Sim.Ticker.Exits.{IsOut, tick_exit_closes_stopped}
use delta_paper_trader.Sim.Ticker.LiveRows.{tick-IsLiveRow}
use delta_paper_trader.Sim.Ticker.Rings.{IsShort, Ranges, window, window-covers, tick-IsShort}
use delta_paper_trader.Prelude.{All}
use delta_paper_trader.Tests.Paper.{market, sold_call, straddle, funds, rows, halved}

abbrev spec : LegSpec ℤ
spec = record {
  symbol = "C-BTC-60000-010126";
  product_id = 7;
  underlying = "BTC";
  type = call;
  strike = cents 6000000;
  contract_value = pos 10;
  expiry = "2026-01-01";
  dte = cents 500;
  side = sell;
  qty = cents 1000;
}

abbrev request : PlaceRequest ℤ
request = record {
  name = "two calls";
  legs = spec ∷ spec ∷ [];
  target_pnl = none;
  stop_loss_amount = some (cents 2000);
  stop_loss_pct_of_margin = none;
  auto_exit = true;
}

abbrev pub basket : String → List (LegSpec ℤ) → MarginReply ℤ
basket underlying legs = quoted (cents 5000) est

abbrev empty_book : Db ℤ
empty_book = record { accounts = funds ∷ []; positions = []; ledger = []; series = [] }

abbrev booked : Db ℤ
booked = elim (place_strategy market 5 9 20 basket request empty_book) [
  | placed id db ↦ db
  | _ ↦ empty_book
]

placed_settles_example :
    (market.fresh ≡ true) × HasPlaced market 5 9 20 request 20 empty_book booked
unfolding place_strategy place_legs get_account
placed_settles_example =
    placed_settles market 5 9 20 fixed-IsRounded basket request empty_book booked 20 refl

abbrev start : Settling ℤ
start = record { db = rows; settled = 0; deferred = false }

-- The settlement price is not there yet.
abbrev no_price : String → Option ℤ
no_price symbol = none

-- The first of January 2026, in the evening.
abbrev new_year : ℕ
new_year = 1767290000000

-- A leg whose stop is at a loss of 0.1; its mark is 120 against an entry of 100.
abbrev stopped_call : Leg ℤ
stopped_call = record sold_call { stop_pnl = some (fixed.neg (cents 10)) }

abbrev guarded : Position ℤ
guarded = record straddle { legs = stopped_call ∷ record sold_call { id = 2 } ∷ [] }

abbrev guarded_rows : Db ℤ
guarded_rows = record rows { positions = guarded ∷ [] }

tick_exit_closes_stopped_example :
    (db' : Db ℤ) × (tick_exit market 5 halved guarded guarded_rows ≡ some db') × IsOut 9 4 1 db'
unfolding get_position get_account leg_pnl mark_of
tick_exit_closes_stopped_example =
    tick_exit_closes_stopped market 5 fixed-IsOrdered fixed-IsRounded halved (λ q legs. refl)
      guarded stopped_call (fixed.neg (cents 10)) guarded_rows (refl, refl, refl, funds, refl) refl
      (inl refl) refl refl refl refl (inl refl)

-- A live position of another user stands beside the paper position.
abbrev live_straddle : Position ℤ
live_straddle = record straddle { id = 6; user_id = 3; source = live }

abbrev clock : Ticker ℤ
clock = record {
  db = record rows { positions = straddle ∷ live_straddle ∷ [] };
  series = (6, []) ∷ [];
  ohlc = [];
  last_db = pos 0;
  last_margin = pos 0;
  last_settle = pos 0;
}

abbrev or_clock : Option (Ticker ℤ) → Ticker ℤ
or_clock none = clock
or_clock (some st) = st

abbrev ticked : Ticker ℤ
ticked = or_clock (tick market 5 halved (some []) (cents 6000) clock)

tick-IsLiveRow_example : IsLiveRow 3 6 live_straddle ticked.db.positions
unfolding tick tick_positions settle_due tick_exit evaluate_position_exit evaluate_exit exit_leg
    leg_decision is_triggered
tick-IsLiveRow_example =
    tick-IsLiveRow market 5 halved 3 6 live_straddle (some []) (cents 6000) clock ticked
      (refl, refl, refl) refl

tick-IsShort_example : IsShort ticked.series
unfolding tick tick_positions settle_due tick_exit evaluate_position_exit evaluate_exit exit_leg
    leg_decision is_triggered
tick-IsShort_example =
    tick-IsShort market 5 halved (some []) (cents 6000) clock ticked (omega arith, tt) refl

window-covers_example :
    (d : Candle ℤ) × (window fixed-IsOrdered none (cents 5 ∷ cents 9 ∷ cents 2 ∷ []) ≡ some d)
    × (d.open_ ≡ cents 5)
    × All (Ranges fixed-IsOrdered d) (cents 5 ∷ cents 9 ∷ cents 2 ∷ [])
window-covers_example = window-covers fixed-IsOrdered (cents 5) (cents 9 ∷ cents 2 ∷ [])
