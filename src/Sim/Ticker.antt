-- ===== src/Sim/Ticker.antt =====
-- The simulation's tick, backend/app/sim/ticker.py, with `exit_legs_of` and `evaluate_position_exit` of
-- backend/app/sim/service.py. The monotonic clock is a number. Positions are read again by their keys where
-- the session's objects have changed. `none` is an exception, after which nothing is committed.
pub mod Exits
pub mod Rings
pub mod Keeps
pub mod Inversions
pub mod LiveRows
use Prim.Native.String.{String}
use delta_paper_trader.Prelude.{
  ℕ, zero, suc, ◌-◌, ◌==◌, Bool, true, false, not, ◌&&◌, ◌||◌, Option, none, some, List, [], ◌∷◌,
  ◌++◌, map, any, filter, find, length, is_empty, leb, or_default, if◌then◌else◌,
}
use delta_paper_trader.Float.{Float, ◌⊖◌, ◌≤?◌, ◌<?◌}
use delta_paper_trader.Models.{Leg, Position, CloseReason, given, is_opened, open_legs}
use delta_paper_trader.Money.{leg_pnl}
use delta_paper_trader.Exit.{
  ExitLeg, ExitDecision, none_due, suspended, close_strategy, close_legs, Reason, Cause, no_cause,
  combined_sl, leg_tp_sl, leg_sl, leg_target, basket_target, evaluate_exit,
}
use delta_paper_trader.Sim.{
  other_error, quote_failed, MarketView, Db, Outcome, done, no_account, MarginReply, quoted,
  value_error, SeriesRow, mark_of, is_live, is_position, get_position, close_position, close_leg,
}
use delta_paper_trader.Sim.Samples.{Sample, Candle, add_mtm, position_pnl, build_sample}
use delta_paper_trader.Sim.Settlement.{Product, Settling, settle_expired_legs}

-- `RING_MAXLEN`
abbrev pub ring_maxlen : ℕ
ring_maxlen = 900

-- `deque(maxlen=RING_MAXLEN).append`, oldest first
abbrev pub drop_oldest {ℓ} : {A : Type ℓ} → List A → List A
drop_oldest [] = []
drop_oldest (x ∷ xs) = xs

unfoldable pub push {ℓ} : {A : Type ℓ} → List A → A → List A
push ring x = (if leb ring_maxlen (length ring) then drop_oldest ring else ring) ++ (x ∷ [])

-- The dictionaries `series` and `_ohlc`, by position: a missing key is `none`.
abbrev pub get {ℓ} : {A : Type ℓ} → ℕ → List (ℕ × A) → Option A
get k [] = none
get k (e ∷ es) = if e.0 == k then some e.1 else get k es

unfoldable pub put {ℓ} : {A : Type ℓ} → ℕ → A → List (ℕ × A) → List (ℕ × A)
put k a [] = (k, a) ∷ []
put k a (e ∷ es) = let rest = put k a es in if e.0 == k then (k, a) ∷ es else e ∷ rest

-- The texts of `ExitDecision.reason`.
abbrev pub cause_text : Cause → Bool → CloseReason
cause_text no_cause tagged = given ""
cause_text combined_sl true = given "combined SL (stale hard-stop)"
cause_text combined_sl false = given "combined SL"
cause_text leg_tp_sl true = given "leg TP/SL (stale hard-stop)"
cause_text leg_tp_sl false = given "leg TP/SL"
cause_text leg_sl true = given "leg SL (stale hard-stop)"
cause_text leg_sl false = given "leg SL"
cause_text leg_target true = given "leg target (stale hard-stop)"
cause_text leg_target false = given "leg target"
cause_text basket_target true = given "basket target (stale hard-stop)"
cause_text basket_target false = given "basket target"

abbrev pub reason_text : Reason → CloseReason
reason_text why = cause_text why.cause why.tagged

abbrev pub and_then {ℓ} : {A : Type ℓ} → Option A → (A → Option A) → Option A
and_then none next = none
and_then (some a) next = next a

abbrev pub is_suspended : ExitDecision → Bool
is_suspended none_due = false
is_suspended suspended = true
is_suspended (close_strategy why) = false
is_suspended (close_legs why ids) = false

-- `SimTicker`, with the rows that it reads and writes.
pub record Ticker (W : Type 0) : Type 0 where
  pub db : Db W
  pub series : List (ℕ × List (Sample W))
  pub ohlc : List (ℕ × Option (Candle W))
  pub last_db : W
  pub last_margin : W
  pub last_settle : W

module _ {W : Type 0} where
  abbrev pub change_position : ℕ → ℕ → (Position W → Position W) → Db W → Db W
  change_position user_id pos_id g db = record db {
    positions =
        map (λ (p : Position W). if is_position user_id pos_id p then g p else p) db.positions;
  }

  abbrev pub db_of : Outcome W → Option (Db W)
  db_of (done b db) = some db
  db_of no_account = none
  db_of quote_failed = none

  abbrev pub ring_of : Option (List (Sample W)) → List (Sample W)
  ring_of none = []
  ring_of (some ring) = ring

  abbrev pub candle_of : Option (Option (Candle W)) → Option (Candle W)
  candle_of none = none
  candle_of (some c) = c

  abbrev pub current : Position W → Db W → Position W
  current p db = or_default (get_position p.user_id p.id db) p

  abbrev pub is_alive : List (Position W) → Db W → ℕ → Bool
  is_alive ps db k = any (λ (p : Position W). (p.id == k) && is_opened (current p db).status) ps

  abbrev pub settled_db : Db W → Option (Settling W) → Db W
  settled_db db none = db
  settled_db db (some st) = if st.settled == 0 then db else st.db

module _ {W : Type 0} ⦃f : Float W⦄ where
  -- `age > STALE_HARD_STOP_GRACE_S`, for a number
  abbrev pub grace_elapsed : Option W → Bool
  grace_elapsed none = false
  grace_elapsed (some age) = f.lit 30 0 <? age

module _ {W : Type 0} ⦃f : Float W⦄ (mv : MarketView W) where
  unfoldable pub exit_leg : Leg W → ExitLeg W
  exit_leg lg = record {
    id = lg.id;
    pnl = leg_pnl lg.side lg.qty lg.contract_value lg.entry (mark_of mv lg);
    target_pnl = lg.target_pnl;
    stop_pnl = lg.stop_pnl;
    auto_exit = lg.auto_exit;
    close_scope = lg.close_scope;
    status = lg.status;
  }

  unfoldable pub evaluate_position_exit : Position W → ExitDecision
  evaluate_position_exit pos =
      evaluate_exit (map exit_leg pos.legs) (position_pnl pos mv) pos.margin
        (some (record {
          loss_amount = pos.stop_loss_amount;
          loss_pct_of_margin = pos.stop_loss_pct_of_margin;
        }))
        pos.auto_exit (not mv.fresh) pos.stale_hard_stop (grace_elapsed mv.age)

-- `quotes` answers for `quote_margin`.
module _ {W : Type 0} ⦃f : Float W⦄ (mv : MarketView W) (now : ℕ)
    (quotes : Position W → List (Leg W) → MarginReply W) where
  unfoldable pub close_all_legs : ℕ → ℕ → CloseReason → List ℕ → Db W → Option (Db W)
  close_all_legs user_id pos_id why [] db = some db
  close_all_legs user_id pos_id why (id ∷ ids) db =
      and_then (db_of (close_leg mv now quotes user_id pos_id id why none db))
        (close_all_legs user_id pos_id why ids)

  abbrev pub act : Position W → ExitDecision → Db W → Option (Db W)
  act p none_due db = some db
  act p suspended db = some db
  act p (close_strategy why) db = db_of (close_position mv now p.user_id p.id (reason_text why) db)
  act p (close_legs why ids) db = close_all_legs p.user_id p.id (reason_text why) ids db

  -- What is done for a position that is not live: the flag, and the decision.
  unfoldable pub tick_exit : Position W → Db W → Option (Db W)
  tick_exit p db =
      let decision = evaluate_position_exit mv p in
      act p decision (
        change_position p.user_id p.id
          (λ (q : Position W). record q { auto_exit_suspended = is_suspended decision }) db)

  abbrev pub own_exit : Position W → Db W → Option (Db W)
  own_exit p db = if is_live p.source then some db else tick_exit p db

  -- The row of the chart for the window that ends here.
  unfoldable pub series_row : Position W → Sample W → Candle W → SeriesRow W
  series_row p sample o = record {
    time = now;
    position_id = p.id;
    user_id = p.user_id;
    pnl = o.close;
    pnl_open = some o.open_;
    pnl_high = some o.high;
    pnl_low = some o.low;
    delta = sample.delta;
    theta = sample.theta;
    vega = sample.vega;
    atm_iv = sample.atm_iv;
    legs = sample.legs;
  }

  -- The sample of a position that is open: into its ring, into its window, and into a row when one is due.
  unfoldable pub record_sample : Bool → Position W → Ticker W → Ticker W
  record_sample write_db p st =
      let sample = build_sample p mv now in
      let candle = add_mtm (candle_of (get p.id st.ohlc)) sample.pnl in
      record st {
        db =
            if write_db
            then record st.db { series = series_row p sample candle ∷ st.db.series }
            else st.db;
        series = put p.id (push (ring_of (get p.id st.series)) sample) st.series;
        ohlc = put p.id (if write_db then none else some candle) st.ohlc;
      }

  abbrev pub margined : MarginReply W → Position W → Position W
  margined value_error p = p
  margined other_error p = p
  margined (quoted margin badge) p = record p { margin = margin; margin_badge = badge }

  unfoldable pub refresh_margin : Bool → Position W → Ticker W → Ticker W
  refresh_margin refresh p st =
      let legs = open_legs p.legs in
      if refresh && not (is_live p.source) && not (is_empty legs)
      then record st { db = change_position p.user_id p.id (margined (quotes p legs)) st.db }
      else st

  abbrev pub sampled : Bool → Bool → Position W → Ticker W → Ticker W
  sampled write_db refresh p st =
      if is_opened p.status then refresh_margin refresh p (record_sample write_db p st) else st

  abbrev pub after_exit : Bool → Bool → Position W → Ticker W → Option (Db W) → Option (Ticker W)
  after_exit write_db refresh p st none = none
  after_exit write_db refresh p st (some db) =
      some (sampled write_db refresh (current p db) (record st { db = db }))

  -- The body of the loop over the open positions.
  abbrev pub tick_position : Bool → Bool → Position W → Ticker W → Option (Ticker W)
  tick_position write_db refresh p st = after_exit write_db refresh p st (own_exit p st.db)

  unfoldable pub tick_positions : Bool → Bool → List (Position W) → Ticker W → Option (Ticker W)
  tick_positions write_db refresh [] st = some st
  tick_positions write_db refresh (p ∷ ps) st =
      and_then (tick_position write_db refresh p st) (tick_positions write_db refresh ps)

  -- The rings of positions that are no longer open are dropped, and the clocks are set.
  unfoldable pub finish_tick : Bool → Bool → W → List (Position W) → Ticker W → Ticker W
  finish_tick write_db refresh mono ps st = record st {
    series = filter (λ (e : ℕ × List (Sample W)). is_alive ps st.db e.0) st.series;
    ohlc =
        filter
          (λ (e : ℕ × Option (Candle W)).
            is_alive ps st.db e.0 || not (any (λ (x : ℕ × List (Sample W)). x.0 == e.0) st.series))
          st.ohlc;
    last_db = if write_db then mono else st.last_db;
    last_margin = if refresh then mono else st.last_margin;
  }

  -- The settlement in its own session, when it is due; what it raises is logged, and without a settled leg
  -- nothing is committed.
  unfoldable pub settle_due : Option (List (Product W)) → W → Ticker W → Ticker W
  settle_due products mono st =
      if f.lit 300 0 ≤? mono ⊖ st.last_settle
      then record st {
        db = settled_db st.db (settle_expired_legs mv now quotes products st.db);
        last_settle = mono;
      }
      else st

  abbrev pub finish : Bool → Bool → W → List (Position W) → Option (Ticker W) → Option (Ticker W)
  finish write_db refresh mono ps none = none
  finish write_db refresh mono ps (some st) = some (finish_tick write_db refresh mono ps st)

  unfoldable pub tick : Option (List (Product W)) → W → Ticker W → Option (Ticker W)
  tick products mono st =
      let write_db = f.lit 10 0 ≤? mono ⊖ st.last_db in
      let refresh = f.lit 30 0 ≤? mono ⊖ st.last_margin in
      let st1 = settle_due products mono st in
      let ps = filter (λ (p : Position W). is_opened p.status) st1.db.positions in
      finish write_db refresh mono ps (tick_positions write_db refresh ps st1)
