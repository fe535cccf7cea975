-- ===== src/Executor.antt =====
-- Closing a whole live group, backend/app/live/executor.py: re-read the real sizes, send reduce-only
-- closes, shorts first, each leg with a wider band than the time before and then at the market, until
-- every leg is flat or 30 rounds have passed.
pub mod Protocol
pub mod Outcome
pub mod Errors
pub mod Orders
use Prim.Native.String.{String}
use delta_paper_trader.Prelude.{
  ℕ, zero, suc, ◌+◌, ◌≡◌, Bool, true, false, not, Option, none, some, List, [], ◌∷◌, ◌++◌, map,
  filter, is_empty, leb, ◌==◌, ◌||◌, if◌then◌else◌,
}
use delta_paper_trader.Prelude.Int.{ℤ, pos, magnitude, is_zero, is_negative}
use delta_paper_trader.Types.{Side, buy, sell}
use delta_paper_trader.Float.{Float}
use delta_paper_trader.Risk.{Level, info, warning, critical, ioc_limit_price, close_bands}
use delta_paper_trader.Client.{
  M, Result, ok, raised, Raised, order_refused, delta_error, http_error, malformed, Refusal,
  PositionRow, Transport, ◌>>=◌, ◌>>◌, positions, close_ioc, close_market, cancel,
}

abbrev pub max_rounds : ℕ
max_rounds = 30

pub record ExitTarget (W : Type 0) : Type 0 where
  pub product_id : ℕ
  pub symbol : String
  pub tick : W
  pub stop_order_id : Option ℕ
  pub tp_order_id : Option ℕ

pub record ExitResult : Type 0 where
  pub flat : Bool
  pub refused : Option Refusal
  pub orders : ℕ

-- How a leg is to be closed: at the market, or by an IOC order with this band.
pub data Plan (W : Type 0) : Type 0 where
  at_market : Plan W
  within : W → Plan W

-- `tries`
abbrev pub Tries : Type 0
Tries = ℕ → ℕ

abbrev pub bump : ℕ → Tries → Tries
bump p tries q = if q == p then suc (tries q) else tries q

-- `{int(p["product_id"]): int(p.get("size") or 0) for p in …}.get(pid)`: the last row of a product counts.
unfoldable pub find_size : ℕ → List PositionRow → Option ℤ
find_size pid [] = none
find_size pid (row ∷ rows) = elim (find_size pid rows) [
  | some s ↦ some s
  | none ↦ if row.product_id == pid then some row.size else none
]

-- `sizes.get(pid, 0)`
unfoldable pub size_of : List PositionRow → ℕ → ℤ
size_of rows pid = elim (find_size pid rows) [ some s ↦ s | none ↦ pos 0 ]

-- "buy" to close a short, "sell" to close a long
abbrev pub closing_side : ℤ → Side
closing_side size = if is_negative size then buy else sell

-- `still.sort(key=lambda t: sizes[t.product_id] > 0)`: a stable sort by a Boolean key, `false` first.
abbrev pub shorts_first : {A : Type 0} → (A → Bool) → List A → List A
shorts_first short ts = filter short ts ++ filter (λ t. not (short t)) ts

-- What the loop over a round's targets leaves: the tries and the order count, a refusal, or an exception.
pub data Round : Type 0 where
  swept : Tries → ℕ → Round
  stopped : Refusal → ℕ → Round
  crashed : Raised → Round

pub data Ended : Type 0 where
  finished : ExitResult → Ended
  failed : Raised → Ended

module _ {W : Type 0} {E : Type 0} ⦃f : Float W⦄ (send : Transport W E) (enabled : Bool)
    (mark_of : String → W) (note : Level → M E (Unit {0})) (emergency : Bool) where
  -- The branch of the inner loop, on the number of earlier attempts for the leg.
  abbrev pub nth_band : List W → ℕ → Plan W
  nth_band [] n = at_market
  nth_band (b ∷ bs) zero = within b
  nth_band (b ∷ bs) (suc n) = nth_band bs n

  unfoldable pub plan : ℕ → Plan W
  plan n = if emergency then at_market else nth_band close_bands n

  unfoldable pub close_by : Plan W → ExitTarget W → ℤ → M E (Unit {0})
  close_by at_market t size = do
    close_market send enabled t.product_id (closing_side size) (magnitude size)
    note warning
  close_by (within band) t size = do
    close_ioc send enabled t.product_id (closing_side size) (magnitude size)
        (ioc_limit_price (closing_side size) (mark_of t.symbol) band t.tick)
    note info

  -- The notes that the `except` clauses write, and what follows them.
  abbrev pub then_stop : Result (Unit {0}) × E → Refusal → ℕ → Round × E
  then_stop (ok _, e) w orders = (stopped w orders, e)
  then_stop (raised x, e) w orders = (crashed x, e)

  abbrev pub then_next : Result (Unit {0}) × E → ℕ → (ℕ → E → Round × E) → Round × E
  then_next (ok _, e) orders next = next orders e
  then_next (raised x, e) orders next = (crashed x, e)

  -- The `except` clauses: what goes on after one attempt.
  abbrev pub after_attempt : Result (Unit {0}) × E → ℕ → (ℕ → E → Round × E) → Round × E
  after_attempt (ok _, e) orders next = next (suc orders) e
  after_attempt (raised (order_refused w), e) orders next = then_stop (note critical e) w orders
  after_attempt (raised (delta_error c), e) orders next = then_next (note warning e) orders next
  after_attempt (raised http_error, e) orders next = (crashed http_error, e)
  after_attempt (raised malformed, e) orders next = (crashed malformed, e)

  -- `for t in still`
  unfoldable pub sweep : List PositionRow → List (ExitTarget W) → Tries → ℕ → E → Round × E
  sweep rows [] tries orders e = (swept tries orders, e)
  sweep rows (t ∷ ts) tries orders e =
      let p = t.product_id in
      after_attempt (close_by (plan (tries p)) t (size_of rows p) e) orders
        (λ n e'. sweep rows ts (bump p tries) n e')

  -- The targets still open, in the order of the attempts.
  unfoldable pub still : List PositionRow → List (ExitTarget W) → List (ExitTarget W)
  still rows ts =
      shorts_first (λ (t : ExitTarget W). is_negative (size_of rows t.product_id))
        (filter (λ (t : ExitTarget W). not (is_zero (size_of rows t.product_id))) ts)

  -- The end of a round's sweep: go on, or return.
  abbrev pub after_sweep : Round × E → (Tries → ℕ → E → Ended × E) → Ended × E
  after_sweep (swept tries orders, e) next = next tries orders e
  after_sweep (stopped w orders, e) next =
      (finished (record { flat = false; refused = some w; orders = orders }), e)
  after_sweep (crashed x, e) next = (failed x, e)

  -- `if not still: …`, and the sweep otherwise.
  abbrev pub on_still :
      Bool
      → List PositionRow
      → List (ExitTarget W)
      → Tries
      → ℕ
      → E
      → (Tries → ℕ → E → Ended × E)
      → Ended × E
  on_still true rows ts tries orders e next =
      (finished (record { flat = true; refused = none; orders = orders }), e)
  on_still false rows ts tries orders e next =
      after_sweep (sweep rows (still rows ts) tries orders e) next

  -- One round on the sizes just read.
  abbrev pub on_sizes :
      Result (List PositionRow) × E
      → List (ExitTarget W)
      → Tries
      → ℕ
      → (Tries → ℕ → E → Ended × E)
      → Ended × E
  on_sizes (raised x, e) ts tries orders next = (failed x, e)
  on_sizes (ok rows, e) ts tries orders next =
      on_still (is_empty (still rows ts)) rows ts tries orders e next

  -- `for _ in range(MAX_ROUNDS)`, on the rounds left.
  unfoldable pub rounds : ℕ → List (ExitTarget W) → Tries → ℕ → E → Ended × E
  rounds zero ts tries orders e =
      (finished (record { flat = false; refused = none; orders = orders }), e)
  rounds (suc n) ts tries orders e =
      on_sizes (positions send e) ts tries orders
        (λ tries' orders' e'. rounds n ts tries' orders' e')

  -- `except DeltaError: pass`
  abbrev pub swallow : Result (Unit {0}) × E → Result (Unit {0}) × E
  swallow (ok u, e) = (ok u, e)
  swallow (raised (delta_error c), e) = (ok tt, e)
  swallow (raised (order_refused w), e) = (raised (order_refused w), e)
  swallow (raised http_error, e) = (raised http_error, e)
  swallow (raised malformed, e) = (raised malformed, e)

  -- `if oid: try: await client.cancel(…)`
  abbrev pub cancel_order : ℕ → Option ℕ → M E (Unit {0})
  cancel_order p none e = (ok tt, e)
  cancel_order p (some zero) e = (ok tt, e)
  cancel_order p (some (suc i)) e = swallow (cancel send p (suc i) e)

  abbrev pub and_then : Result (Unit {0}) × E → (E → Result (Unit {0}) × E) → Result (Unit {0}) × E
  and_then (ok u, e) next = next e
  and_then (raised x, e) next = (raised x, e)

  unfoldable pub cancel_all : List (ExitTarget W) → M E (Unit {0})
  cancel_all [] e = (ok tt, e)
  cancel_all (t ∷ ts) e =
      and_then (cancel_order t.product_id t.stop_order_id e)
        (λ e₁. and_then (cancel_order t.product_id t.tp_order_id e₁) (λ e₂. cancel_all ts e₂))

  abbrev pub report : ExitResult → Result (Unit {0}) × E → Ended × E
  report res (ok u, e) = (finished res, e)
  report res (raised x, e) = (failed x, e)

  -- `if res.flat:` …, and `return res`
  abbrev pub clean_up : List (ExitTarget W) → Ended × E → Ended × E
  clean_up ts (failed x, e) = (failed x, e)
  clean_up ts (finished res, e) =
      if res.flat then report res (cancel_all ts e) else (finished res, e)

  unfoldable pub exit_group : List (ExitTarget W) → E → Ended × E
  exit_group ts e = clean_up ts (rounds max_rounds ts (λ _. 0) 0 e)
