-- ===== src/Lib.antt =====
-- The verification of the paper-trading and live-protection backend (backend/app).
--
-- The program tracks option strategies on Delta Exchange. A paper account is simulated: orders fill
-- against the order book, margin is reserved, and positions are marked, closed and settled. A user's
-- real positions are mirrored into live groups and protected: stops are watched on live marks, and a
-- stop that fires closes the whole group with reduce-only orders.
--
-- How the parts interact, in paper: the endpoints of backend/app/api/sim.py find the user's rows and
-- call backend/app/sim/service.py, which fills with backend/app/engines/slippage.py, does sums with
-- backend/app/engines/money.py and asks for margin (backend/app/engines/margin.py);
-- backend/app/sim/ticker.py settles the expired positions, samples the open ones and closes those for
-- which the exit engine (backend/app/sim/exit_engine.py) decides so.
--
-- How the parts interact, live: backend/app/live/sync.py mirrors Delta's positions (reconcile), asks
-- the exit engine for a decision, and starts one exit for each group that fires; the exit runs
-- backend/app/live/executor.py, which sends orders through backend/app/live/client.py with the prices
-- of backend/app/live/risk.py; the reconcile after it closes the group. The endpoints of
-- backend/app/api/live.py arm and edit the groups. backend/app/live/alerts.py holds the alerts and
-- backend/app/live/journal.py the record of a live trade.
--
-- The files and the code that each is about:
--   Prelude: names that all modules share, lists and signed integers over native numbers.
--   Float: the numbers. Python's float and Decimal are a type with operations, taken as a parameter;
--     Float/Laws names what the theorems assume of them (an order; monotone, commutative, correctly
--     rounded operations; midpoints), and Float/Fixed gives an arithmetic of four decimals with those
--     laws, on which the examples run. The builtin sum is an operation of its own, without laws, since it
--     compensates rounding.
--   Types, Models: the literal types and the rows of backend/app/db/models.py.
--   Money: backend/app/engines/money.py. Slippage: backend/app/engines/slippage.py (compute_fill, _walk,
--     _build). Margin: backend/app/engines/margin.py (bs_price, implied_vol, scenarios, compute_margin).
--   Exit: backend/app/sim/exit_engine.py (evaluate_exit, combined_floor).
--   Risk: the price rules of backend/app/live/risk.py. Liquidation: check_sl_vs_liquidation and _scan of
--     backend/app/live/risk.py.
--   Client: backend/app/live/client.py; a method is a function on a result and the state behind the HTTP
--     transport, which is a parameter, and exceptions are values.
--   Executor: backend/app/live/executor.py (real_sizes, exit_group); the loop body is split into one
--     function for each branch.
--   Chain: the expiries of backend/app/services/chain.py (parse_expiry_from_symbol, list_expiries,
--     default_expiry, expiry_settlement); Chain/Calendar has the dates of Python's datetime that it uses,
--     and Chain/Symbols the round trip of a symbol.
--   Sim: backend/app/sim/service.py on the rows of the session: Sim closes positions and legs,
--     Sim/Placing places strategies, Sim/Settlement settles expired positions, Sim/Edits changes stops and
--     targets, Sim/Samples takes the samples of the series; Sim/State has the rows. The market view and
--     the margin quote, which may fail, are parameters. Sim/Ticker is one pass of
--     backend/app/sim/ticker.py. Sim/Frame and Sim/Steps prove what operations leave alone, for the proofs
--     about the ticker.
--   Api: the endpoints of backend/app/api/sim.py that change state, the new user of
--     backend/app/sim/user.py, and commit and rollback of backend/app/db/session.py.
--   Sync: reconcile and (Sync/Live) evaluate_live of backend/app/live/sync.py; the feed's contracts and
--     spots are parameters, rows are found by their keys. Sync/Exits has the exits: manual_exit, the
--     trigger, the run of an exit, and the steps that interleave them; a start of an exit has two parts,
--     with the waits between them.
--   RateLimit: backend/app/ratelimit.py.
--   LiveApi: arming and editing live groups, of backend/app/api/live.py.
--   Alerts: AlertBook of backend/app/live/alerts.py for one user. Journal: fill_run, fill_summary,
--     slippage, candle_rows and mtm_stats of backend/app/live/journal.py.
--   Tests: the theorems at concrete inputs.
--
-- Bounds and fuel: every loop is structural. The executor's loop counts its 30 rounds (MAX_ROUNDS),
-- the bisection of implied_vol its 64 rounds, the scan its 200 steps, and the search for the largest
-- size its 12 rounds, as the source does, so no fuel is added and each function is total.
--
-- What is not modelled: authentication, the feed of market data, the brackets that the sync pushes to
-- Delta, the option chain's rows, the margin quote's calibration, the endpoints that only read, the
-- scripts and the user interface; texts of messages, pauses, order ids and signatures. Numbers that
-- are not a number (NaN) are left aside by the laws of Float.
pub mod Chain
pub mod Prelude
pub mod Float
pub mod Types
pub mod Models
pub mod Money
pub mod Exit
pub mod RateLimit
pub mod Risk
pub mod Client
pub mod Executor
pub mod Slippage
pub mod Margin
pub mod Sim
pub mod Api
pub mod Journal
pub mod Alerts
pub mod Sync
pub mod Liquidation
pub mod LiveApi
pub mod Tests
