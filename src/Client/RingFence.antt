-- ===== src/Client/RingFence.antt =====
-- No order goes out unless it only reduces, nor while the kill switch is off: a transport that keeps the
-- requests it was given, and what can stand in its record.
use delta_paper_trader.Prelude.{ℕ, ◌≡◌, Bool, true, Option, some, List, [], ◌∷◌, arith, All}
use delta_paper_trader.Types.{Side}
use delta_paper_trader.Float.{Float}
use delta_paper_trader.Client.{
  Order, Request, get_wallet, get_stop_orders, get_fills, post_order, post_bracket, get_positions,
  delete_order, Transport, call, positions, place, close_ioc, close_market, place_stop,
  place_bracket, cancel,
}

-- A method call on the client, with its arguments.
pub data Method (W : Type 0) : Type 0 where
  read_positions read_wallet read_stop_orders : Method W
  read_fills : List ℕ → Method W
  any_order : Order W → Method W
  ioc_order : ℕ → Side → ℕ → W → Method W
  market : ℕ → Side → ℕ → Method W
  stop_order : ℕ → Side → ℕ → W → Method W
  bracket : ℕ → Side → Option W → Option W → W → Method W
  cancel_order : ℕ → ℕ → Method W

module _ {W : Type 0} {S : Type 0} where
  -- The transport `send` with the requests so far, the newest first.
  abbrev pub recording : Transport W S → Transport W (List (Request W) × S)
  recording send req (log, s) = let (a, s') = send req s in (a, (req ∷ log, s'))

module _ {W : Type 0} where
  -- An order only reduces and the switch is on; a bracket needs the switch.
  abbrev pub Fenced : Bool → Request W → Type 0
  Fenced enabled (post_order o) = (o.reduce_only ≡ some true) × (enabled ≡ true)
  Fenced enabled (post_bracket b) = enabled ≡ true
  Fenced enabled get_positions = Unit
  Fenced enabled get_wallet = Unit
  Fenced enabled get_stop_orders = Unit
  Fenced enabled (get_fills ids) = Unit
  Fenced enabled (delete_order i p) = Unit

module _ {W : Type 0} {S : Type 0} ⦃f : Float W⦄ (send : Transport W S) (enabled : Bool) where
  abbrev pub World : Type 0
  World = List (Request W) × S

  perform : Method W → World → World
  perform read_positions w = (positions (recording send) w).1
  perform read_wallet w = (call (recording send) get_wallet w).1
  perform read_stop_orders w = (call (recording send) get_stop_orders w).1
  perform (read_fills ids) w = (call (recording send) (get_fills ids) w).1
  perform (any_order o) w = (place (recording send) enabled o w).1
  perform (ioc_order p s n x) w = (close_ioc (recording send) enabled p s n x w).1
  perform (market p s n) w = (close_market (recording send) enabled p s n w).1
  perform (stop_order p s n x) w = (place_stop (recording send) enabled p s n x w).1
  perform (bracket p s sl tp t) w = (place_bracket (recording send) enabled p s sl tp t w).1
  perform (cancel_order p i) w = (cancel (recording send) p i w).1

  pub perform_all : List (Method W) → World → World
  perform_all [] w = w
  perform_all (m ∷ ms) w = perform_all ms (perform m w)

  abbrev pub IsFenced : World → Type 0
  IsFenced w = All (Fenced enabled) w.0

  call-IsFenced :
      (req : Request W) (w : World)
      → Fenced enabled req
      → IsFenced w
      → IsFenced (call (recording send) req w).1
  unfolding call
  call-IsFenced req w h k = (h, k)

  positions-IsFenced : (w : World) → IsFenced w → IsFenced (positions (recording send) w).1
  unfolding positions call
  positions-IsFenced w k = ground arith

  place-IsFenced :
      (o : Order W) (w : World) → IsFenced w → IsFenced (place (recording send) enabled o w).1
  unfolding place call
  place-IsFenced o w k = ground arith

  place_bracket-IsFenced :
      (p : ℕ) (s : Side) (sl tp : Option W) (t : W) (w : World)
      → IsFenced w
      → IsFenced (place_bracket (recording send) enabled p s sl tp t w).1
  unfolding place_bracket call
  place_bracket-IsFenced p s sl tp t w k = ground arith

  cancel-IsFenced : (p i : ℕ) (w : World) → IsFenced w → IsFenced (cancel (recording send) p i w).1
  unfolding cancel call
  cancel-IsFenced p i w k = ground arith

  perform-IsFenced : (m : Method W) (w : World) → IsFenced w → IsFenced (perform m w)
  unfolding perform close_ioc close_market place_stop
  perform-IsFenced read_positions w k = positions-IsFenced w k
  perform-IsFenced read_wallet w k = call-IsFenced get_wallet w tt k
  perform-IsFenced read_stop_orders w k = call-IsFenced get_stop_orders w tt k
  perform-IsFenced (read_fills ids) w k = call-IsFenced (get_fills ids) w tt k
  perform-IsFenced (any_order o) w k = place-IsFenced o w k
  perform-IsFenced (ioc_order p s n x) w k = place-IsFenced _ w k
  perform-IsFenced (market p s n) w k = place-IsFenced _ w k
  perform-IsFenced (stop_order p s n x) w k = place-IsFenced _ w k
  perform-IsFenced (bracket p s sl tp t) w k = place_bracket-IsFenced p s sl tp t w k
  perform-IsFenced (cancel_order p i) w k = cancel-IsFenced p i w k

  perform_all-IsFenced :
      (ms : List (Method W)) (w : World) → IsFenced w → IsFenced (perform_all ms w)
  unfolding perform_all
  perform_all-IsFenced [] w k = k
  perform_all-IsFenced (m ∷ ms) w k = perform_all-IsFenced ms (perform m w) (perform-IsFenced m w k)

  -- Whatever methods are called in whatever order, and whatever the exchange answers, each order that
  -- went out is marked `reduce_only`, and no order or bracket went out with the kill switch off.
  pub all_requests-IsFenced : (ms : List (Method W)) (s : S) → IsFenced (perform_all ms ([], s))
  all_requests-IsFenced ms s = perform_all-IsFenced ms ([], s) tt
