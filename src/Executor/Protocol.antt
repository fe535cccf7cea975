-- ===== src/Executor/Protocol.antt =====
-- What an exit sends, read off a transport that keeps every request and its answer.
use delta_paper_trader.Prelude.{
  ℕ, zero, suc, ◌≡◌, refl, Bool, true, false, not, ◌||◌, Option, none, some, List, [], ◌∷◌, arith,
  if◌then◌else◌, Bool-cases, inl, inr, All, In, In-filter_inv, In-append_inv, All-In, filter,
  is_empty, ◌==◌, leb,
}
use Prim.Native.String.{String}
use delta_paper_trader.Types.{buy, sell}
use delta_paper_trader.Prelude.Int.{ℤ, magnitude, is_zero, is_negative}
use delta_paper_trader.Float.{Float}
use delta_paper_trader.Risk.{Level, warning, critical, ioc_limit_price}
use delta_paper_trader.Client.{
  M, Result, ok, raised, order_refused, delta_error, http_error, malformed, Refusal, PositionRow,
  Transport, positions, Request, Answer, Order, Kind, market_order, ioc_limit, get_positions,
  post_order, post_bracket, get_wallet, get_stop_orders, get_fills, delete_order, trading_disabled,
  reply, broken, position_rows, nothing, other, place, close_ioc, close_market, call, cancel,
}
use delta_paper_trader.Executor.{
  ExitTarget, ExitResult, Ended, finished, failed, Round, swept, stopped, crashed, Tries, bump,
  Plan, at_market, within, size_of, still, sweep, after_attempt, after_sweep, on_sizes, on_still,
  then_stop, then_next, rounds, swallow, and_then, report, cancel_order, cancel_all, clean_up,
  exit_group, close_by, plan, max_rounds,
}
use delta_paper_trader.Executor.Outcome.{AllFlat, still_empty}

-- The rows of an answer to a read of the positions, if the client accepts it.
abbrev pub rows_read : Answer → Option (List PositionRow)
rows_read (reply status success (position_rows rows)) =
    if leb 400 status || not success then none else some rows
rows_read (reply status success nothing) = if leb 400 status || not success then none else some []
rows_read (reply status success other) = none
rows_read broken = none

module _ {W : Type 0} where
  -- The sizes that the newest read of the positions gave.
  abbrev pub last_read : List (Request W × Answer) → Option (List PositionRow)
  last_read [] = none
  last_read ((get_positions, a) ∷ log) = rows_read a
  last_read ((get_wallet, a) ∷ log) = last_read log
  last_read ((get_stop_orders, a) ∷ log) = last_read log
  last_read ((get_fills ids, a) ∷ log) = last_read log
  last_read ((post_order o, a) ∷ log) = last_read log
  last_read ((post_bracket b, a) ∷ log) = last_read log
  last_read ((delete_order i p, a) ∷ log) = last_read log

  -- How many orders for this product were sent.
  abbrev pub sent : ℕ → List (Request W × Answer) → ℕ
  sent p [] = 0
  sent p ((post_order o, a) ∷ log) = if p == o.product_id then suc (sent p log) else sent p log
  sent p ((get_positions, a) ∷ log) = sent p log
  sent p ((get_wallet, a) ∷ log) = sent p log
  sent p ((get_stop_orders, a) ∷ log) = sent p log
  sent p ((get_fills ids, a) ∷ log) = sent p log
  sent p ((post_bracket b, a) ∷ log) = sent p log
  sent p ((delete_order i q, a) ∷ log) = sent p log

module _ {W : Type 0} {S : Type 0} ⦃f : Float W⦄ (send : Transport W S) (enabled : Bool)
    (mark_of : String → W) (note : Level → M S (Unit {0})) (emergency : Bool) where
  abbrev pub Recorded : Type 0
  Recorded = List (Request W × Answer) × S

  abbrev pub logged : Transport W (List (Request W × Answer) × S)
  logged req (log, s) = let (a, s') = send req s in (a, ((req, a) ∷ log, s'))

  abbrev pub noted : Level → M (List (Request W × Answer) × S) (Unit {0})
  noted l (log, s) = let (r, s') = note l s in (r, (log, s'))

  abbrev pub plan_of : ℕ → Plan W
  plan_of = plan logged enabled mark_of noted emergency

  abbrev kind_by : Plan W → ExitTarget W → ℤ → Kind W
  kind_by at_market t size = market_order
  kind_by (within band) t size =
      ioc_limit
        (ioc_limit_price (if is_negative size then buy else sell) (mark_of t.symbol) band t.tick)

  -- The order that the protocol asks for: reduce-only, against the size read, for all of it, and by the plan
  -- for the number of orders that the product has had.
  abbrev pub order_by : Plan W → ExitTarget W → ℤ → Order W
  order_by p t size = record {
    product_id = t.product_id;
    size = magnitude size;
    side = if is_negative size then buy else sell;
    kind = kind_by p t size;
    reduce_only = some true;
  }

  -- When a request may follow the log: an order is the one that the protocol asks for some target that is open
  -- in the newest read; a cancellation needs all targets flat in it; and there are no brackets.
  abbrev pub Due : List (ExitTarget W) → Request W → List (Request W × Answer) → Type 0
  Due ts (post_order o) log =
      (t : ExitTarget W) × (rows : List PositionRow) × In t ts
      × (last_read log ≡ some rows)
      × (is_zero (size_of rows t.product_id) ≡ false)
      × (o ≡ order_by (plan_of (sent t.product_id log)) t (size_of rows t.product_id))
      × (enabled ≡ true)
  Due ts (delete_order i p) log =
      (rows : List PositionRow) × (last_read log ≡ some rows) × AllFlat rows ts
  Due ts (post_bracket b) log = ⊥
  Due ts get_positions log = Unit
  Due ts get_wallet log = Unit
  Due ts get_stop_orders log = Unit
  Due ts (get_fills ids) log = Unit

  abbrev pub IsFaithful : List (ExitTarget W) → List (Request W × Answer) → Type 0
  IsFaithful ts [] = Unit
  IsFaithful ts ((req, a) ∷ log) = Due ts req log × IsFaithful ts log

  -- The state between two attempts.
  abbrev Matches : Tries → List (Request W × Answer) → Type 0
  Matches tries log = (p : ℕ) → tries p ≡ sent p log

  abbrev After : List (ExitTarget W) → Round × Recorded → Type 0
  After ts (swept tries n, w) = IsFaithful ts w.0 × Matches tries w.0
  After ts (stopped x n, w) = IsFaithful ts w.0
  After ts (crashed x, w) = IsFaithful ts w.0

  abbrev try_close : Plan W → ExitTarget W → ℤ → Recorded → Result (Unit {0}) × Recorded
  try_close = close_by logged enabled mark_of noted emergency

  -- With the switch on an attempt adds its order to the log, whatever comes of it.
  try_close_logs :
      (p : Plan W) (t : ExitTarget W) (size : ℤ) (w : Recorded)
      → enabled ≡ true
      → (a : Answer) × ((try_close p t size w).1.0 ≡ (post_order (order_by p t size), a) ∷ w.0)
  unfolding close_by close_market close_ioc place call
  try_close_logs at_market t size (log, s) e =
      ((send (post_order (order_by at_market t size)) s).0, ground arith)
  try_close_logs (within b) t size (log, s) e =
      ((send (post_order (order_by (within b) t size)) s).0, ground arith)

  -- With the switch off an attempt is refused and sends nothing.
  try_close_refused :
      (p : Plan W) (t : ExitTarget W) (size : ℤ) (w : Recorded)
      → enabled ≡ false
      → try_close p t size w ≡ (raised (order_refused trading_disabled), w)
  unfolding close_by close_market close_ioc place call
  try_close_refused at_market t size w e = ground arith
  try_close_refused (within b) t size w e = ground arith

  then_stop-After :
      (ts : List (ExitTarget W)) (m : Result (Unit {0}) × Recorded) (x : Refusal) (n : ℕ)
      → IsFaithful ts m.1.0
      → After ts (then_stop logged enabled mark_of noted emergency m x n)
  then_stop-After ts (ok u, w) x n k = k
  then_stop-After ts (raised y, w) x n k = k

  then_next-After :
      (ts : List (ExitTarget W)) (m : Result (Unit {0}) × Recorded) (n : ℕ)
      (next : ℕ → Recorded → Round × Recorded)
      → IsFaithful ts m.1.0
      → ((k : ℕ) (w : Recorded) → w.0 ≡ m.1.0 → After ts (next k w))
      → After ts (then_next logged enabled mark_of noted emergency m n next)
  then_next-After ts (ok u, w) n next k h = h n w refl
  then_next-After ts (raised y, w) n next k h = k

  after_attempt-After :
      (ts : List (ExitTarget W)) (m : Result (Unit {0}) × Recorded) (n : ℕ)
      (next : ℕ → Recorded → Round × Recorded)
      → IsFaithful ts m.1.0
      → ((k : ℕ) (w : Recorded) → w.0 ≡ m.1.0 → After ts (next k w))
      → After ts (after_attempt logged enabled mark_of noted emergency m n next)
  after_attempt-After ts (ok u, w) n next k h = h (suc n) w refl
  after_attempt-After ts (raised (order_refused x), (log, s)) n next k h =
      then_stop-After ts (noted critical (log, s)) x n k
  after_attempt-After ts (raised (delta_error c), (log, s)) n next k h =
      then_next-After ts (noted warning (log, s)) n next k h
  after_attempt-After ts (raised http_error, w) n next k h = k
  after_attempt-After ts (raised malformed, w) n next k h = k

  sweep_refused-After :
      (ts : List (ExitTarget W)) (m : Result (Unit {0}) × Recorded) (w : Recorded) (n : ℕ)
      (next : ℕ → Recorded → Round × Recorded)
      → m ≡ (raised (order_refused trading_disabled), w)
      → IsFaithful ts w.0
      → After ts (after_attempt logged enabled mark_of noted emergency m n next)
  sweep_refused-After ts m (log, s) n next e k =
      rw e (then_stop-After ts (noted critical (log, s)) trading_disabled n k)

  -- The targets that a sweep goes through are targets of the exit that are open in the rows.
  abbrev Open : List PositionRow → List (ExitTarget W) → List (ExitTarget W) → Type 0
  Open rows ts us =
      All (λ (t : ExitTarget W). In t ts × (is_zero (size_of rows t.product_id) ≡ false)) us

  sweep-After :
      (ts : List (ExitTarget W)) (rows : List PositionRow) (us : List (ExitTarget W))
      (tries : Tries) (n : ℕ) (w : Recorded)
      → Open rows ts us
      → last_read w.0 ≡ some rows
      → Matches tries w.0
      → IsFaithful ts w.0
      → After ts (sweep logged enabled mark_of noted emergency rows us tries n w)
  unfolding sweep
  sweep-After ts rows [] tries n w op lr mt k = (k, mt)
  sweep-After ts rows (t ∷ us) tries n w op lr mt k =
      let p = t.product_id in
      let size = size_of rows p in
      let pl = plan_of (tries p) in
      elim (Bool-cases enabled) [
        | inr off ↦ sweep_refused-After ts _ w n _ (try_close_refused pl t size w off) k
        | inl on ↦
            let (a, new) = try_close_logs pl t size w on in
            after_attempt-After ts (try_close pl t size w) n _
              (rw new ((t, rows, op.0.0, lr, op.0.1, rw (mt p), on), k))
              (λ j w' same.
                sweep-After ts rows us (bump p tries) j w' op.1 (rw (same, new) lr)
                  (λ q. rw (same, new) (ground (arith, mt q)))
                  (rw (same, new) ((t, rows, op.0.0, lr, op.0.1, rw (mt p), on), k)))
      ]

  Open-filter :
      (rows : List PositionRow) (ts : List (ExitTarget W)) (t : ExitTarget W)
      → In t (still logged enabled mark_of noted emergency rows ts)
      → In t ts × (is_zero (size_of rows t.product_id) ≡ false)
  unfolding still
  Open-filter rows ts t m =
      let short = λ (u : ExitTarget W). is_negative (size_of rows u.product_id) in
      let opened = λ (u : ExitTarget W). not (is_zero (size_of rows u.product_id)) in
      let us = filter opened ts in
      let back = λ (k : In t us). In-filter_inv opened t ts k in
      let found : In t ts × (opened t ≡ true) =
        elim (In-append_inv t (filter short us) (filter (λ u. not (short u)) us) m) [
          | inl k ↦ back (In-filter_inv short t us k).0
          | inr k ↦ back (In-filter_inv (λ u. not (short u)) t us k).0
        ] in
      (found.0, ground (arith, found.1))

  still-Open :
      (rows : List PositionRow) (ts : List (ExitTarget W))
      → Open rows ts (still logged enabled mark_of noted emergency rows ts)
  still-Open rows ts =
      All-In _ (still logged enabled mark_of noted emergency rows ts) (Open-filter rows ts)

  -- A finished exit that is flat ends on a read in which all is flat.
  abbrev Fin : List (ExitTarget W) → Ended × Recorded → Type 0
  Fin ts (failed x, w) = IsFaithful ts w.0
  Fin ts (finished res, w) =
      IsFaithful ts w.0
      × (if res.flat
          then ((rows : List PositionRow) × (last_read w.0 ≡ some rows) × AllFlat rows ts)
          else Unit)

  after_sweep-Fin :
      (ts : List (ExitTarget W)) (q : Round × Recorded)
      (next : Tries → ℕ → Recorded → Ended × Recorded)
      → After ts q
      → ((tries : Tries) (n : ℕ) (w : Recorded)
          → IsFaithful ts w.0
          → Matches tries w.0
          → Fin ts (next tries n w))
      → Fin ts (after_sweep logged enabled mark_of noted emergency q next)
  after_sweep-Fin ts (swept tries n, w) next k h = h tries n w k.0 k.1
  after_sweep-Fin ts (stopped x n, w) next k h = (k, tt)
  after_sweep-Fin ts (crashed x, w) next k h = k

  on_still-Fin :
      (ts : List (ExitTarget W)) (rows : List PositionRow) (b : Bool) (tries : Tries) (n : ℕ)
      (w : Recorded) (next : Tries → ℕ → Recorded → Ended × Recorded)
      → is_empty (still logged enabled mark_of noted emergency rows ts) ≡ b
      → last_read w.0 ≡ some rows
      → Matches tries w.0
      → IsFaithful ts w.0
      → ((tries : Tries) (n : ℕ) (w : Recorded)
          → IsFaithful ts w.0
          → Matches tries w.0
          → Fin ts (next tries n w))
      → Fin ts (on_still logged enabled mark_of noted emergency b rows ts tries n w next)
  on_still-Fin ts rows true tries n w next e lr mt k h =
      (k, (rows, lr, still_empty logged enabled mark_of noted emergency rows ts e))
  on_still-Fin ts rows false tries n w next e lr mt k h =
      after_sweep-Fin ts
        (sweep logged enabled mark_of noted emergency rows
          (still logged enabled mark_of noted emergency rows ts) tries n w)
        next (sweep-After ts rows _ tries n w (still-Open rows ts) lr mt k) h

  -- What a read of the positions gives agrees with its answer in the log.
  abbrev Agrees : Result (List PositionRow) → Option (List PositionRow) → Type 0
  Agrees (ok rows) o = o ≡ some rows
  Agrees (raised x) o = Unit

  positions_logs :
      (w : Recorded)
      → (a : Answer) × ((positions logged w).1.0 ≡ (get_positions, a) ∷ w.0)
        × Agrees (positions logged w).0 (rows_read a)
  unfolding positions call
  positions_logs (log, s) = ((send get_positions s).0, ground arith, ground arith)

  on_sizes-Fin :
      (ts : List (ExitTarget W)) (m : Result (List PositionRow) × Recorded) (tries : Tries) (n : ℕ)
      (next : Tries → ℕ → Recorded → Ended × Recorded)
      → Agrees m.0 (last_read m.1.0)
      → Matches tries m.1.0
      → IsFaithful ts m.1.0
      → ((tries : Tries) (n : ℕ) (w : Recorded)
          → IsFaithful ts w.0
          → Matches tries w.0
          → Fin ts (next tries n w))
      → Fin ts (on_sizes logged enabled mark_of noted emergency m ts tries n next)
  on_sizes-Fin ts (raised x, w) tries n next lr mt k h = k
  on_sizes-Fin ts (ok rows, w) tries n next lr mt k h =
      on_still-Fin ts rows (is_empty (still logged enabled mark_of noted emergency rows ts)) tries n
        w next refl lr mt k h

  rounds-Fin :
      (j : ℕ) (ts : List (ExitTarget W)) (tries : Tries) (n : ℕ) (w : Recorded)
      → IsFaithful ts w.0
      → Matches tries w.0
      → Fin ts (rounds logged enabled mark_of noted emergency j ts tries n w)
  unfolding rounds
  rounds-Fin zero ts tries n w k mt = (k, tt)
  rounds-Fin (suc j) ts tries n w k mt =
      let (a, new, ag) = positions_logs w in
      on_sizes-Fin ts (positions logged w) tries n _ (rw new ag) (rw new mt) (rw new (tt, k))
        (λ tries' n' w' k' mt'. rounds-Fin j ts tries' n' w' k' mt')

  module _ (ts : List (ExitTarget W)) (rows : List PositionRow) (flat : AllFlat rows ts) where
    abbrev Cleaning : Recorded → Type 0
    Cleaning w = IsFaithful ts w.0 × (last_read w.0 ≡ some rows)

    swallow-state :
        (m : Result (Unit {0}) × Recorded)
        → (swallow logged enabled mark_of noted emergency m).1 ≡ m.1
    swallow-state (ok u, w) = refl
    swallow-state (raised (delta_error c), w) = refl
    swallow-state (raised (order_refused x), w) = refl
    swallow-state (raised http_error, w) = refl
    swallow-state (raised malformed, w) = refl

    cancel-Cleaning : (p i : ℕ) (w : Recorded) → Cleaning w → Cleaning (cancel logged p i w).1
    unfolding cancel call
    cancel-Cleaning p i (log, s) k =
        let a = (send (delete_order i p) s).0 in
        let e : (cancel logged p i (log, s)).1.0 ≡ (delete_order i p, a) ∷ log = ground arith in
        rw e (((rows, k.1, flat), k.0), k.1)

    cancel_order-Cleaning :
        (p : ℕ) (o : Option ℕ) (w : Recorded)
        → Cleaning w
        → Cleaning (cancel_order logged enabled mark_of noted emergency p o w).1
    cancel_order-Cleaning p none w k = k
    cancel_order-Cleaning p (some zero) w k = k
    cancel_order-Cleaning p (some (suc i)) w k =
        rw (swallow-state (cancel logged p (suc i) w)) (cancel-Cleaning p (suc i) w k)

    and_then-Cleaning :
        (m : Result (Unit {0}) × Recorded) (next : Recorded → Result (Unit {0}) × Recorded)
        → Cleaning m.1
        → ((w : Recorded) → Cleaning w → Cleaning (next w).1)
        → Cleaning (and_then logged enabled mark_of noted emergency m next).1
    and_then-Cleaning (ok u, w) next k h = h w k
    and_then-Cleaning (raised x, w) next k h = k

    cancel_all-Cleaning :
        (us : List (ExitTarget W)) (w : Recorded)
        → Cleaning w
        → Cleaning (cancel_all logged enabled mark_of noted emergency us w).1
    unfolding cancel_all
    cancel_all-Cleaning [] w k = k
    cancel_all-Cleaning (t ∷ us) w k =
        let one = cancel_order logged enabled mark_of noted emergency t.product_id in
        let rest = cancel_all logged enabled mark_of noted emergency us in
        and_then-Cleaning (one t.stop_order_id w)
          (λ w₁. and_then logged enabled mark_of noted emergency (one t.tp_order_id w₁) rest)
          (cancel_order-Cleaning t.product_id t.stop_order_id w k)
          (λ w₁ k₁.
            and_then-Cleaning (one t.tp_order_id w₁) rest
              (cancel_order-Cleaning t.product_id t.tp_order_id w₁ k₁)
              (λ w₂ k₂. cancel_all-Cleaning us w₂ k₂))

  report-state :
      (res : ExitResult) (r : Result (Unit {0}) × Recorded)
      → (report logged enabled mark_of noted emergency res r).1 ≡ r.1
  report-state res (ok u, w) = refl
  report-state res (raised x, w) = refl

  clean_up-IsFaithful :
      (ts : List (ExitTarget W)) (m : Ended × Recorded)
      → Fin ts m
      → IsFaithful ts (clean_up logged enabled mark_of noted emergency ts m).1.0
  clean_up-IsFaithful ts (failed x, w) k = k
  clean_up-IsFaithful ts (finished res, w) k = go res.flat k.1
    where
      go :
          (b : Bool)
          → (if b
              then ((rows : List PositionRow) × (last_read w.0 ≡ some rows) × AllFlat rows ts)
              else Unit)
          → IsFaithful ts
              (if b
                then report logged enabled mark_of noted emergency res
                    (cancel_all logged enabled mark_of noted emergency ts w)
                else (finished res, w)).1.0
      go false seen = k.0
      go true (rows, lr, flat) =
          rw (report-state res (cancel_all logged enabled mark_of noted emergency ts w))
            (cancel_all-Cleaning ts rows flat ts w (k.0, lr)).0

  -- Whatever the exchange answers, each request of an exit is due when it is sent. An order closes a leg that
  -- the newest read of the positions has open: reduce-only, for all of that size, on the other side, as an
  -- IOC order in the band of the leg's attempt or at the market after the bands or in an emergency, and
  -- only with the kill switch on. A cancellation needs a newest read in which every leg is flat.
  pub exit_follows_protocol :
      (ts : List (ExitTarget W)) (s : S)
      → IsFaithful ts (exit_group logged enabled mark_of noted emergency ts ([], s)).1.0
  unfolding exit_group
  exit_follows_protocol ts s =
      clean_up-IsFaithful ts
        (rounds logged enabled mark_of noted emergency max_rounds ts (λ _. 0) 0 ([], s))
        (rounds-Fin max_rounds ts (λ _. 0) 0 ([], s) tt (λ p. refl))
