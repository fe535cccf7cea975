-- ===== src/Tests/Exchange.antt =====
-- Examples of the exit and of the client (backend/app/live/executor.py and client.py), on a small exchange.
use Prim.Native.String.{String}
use delta_paper_trader.Prelude.{
  ◌≤◌, ◌*◌, length, ◌≡◌, refl, Bool, true, false, none, some, List, [], ◌∷◌,
}
use delta_paper_trader.Prelude.Int.{ℤ, negsuc}
use delta_paper_trader.Float.Fixed.{fixed, cents}
use delta_paper_trader.Types.{buy}
use delta_paper_trader.Risk.{Level, ioc_limit_price, round_up, round_down}
use delta_paper_trader.Client.{
  M, ok, Transport, get_positions, get_wallet, get_stop_orders, get_fills, post_order, post_bracket,
  delete_order, reply, position_rows, nothing, other, positions, call, place, cancel, close_ioc,
  close_market,
}
use delta_paper_trader.Client.RingFence.{
  market, read_positions, IsFenced, perform_all, all_requests-IsFenced,
}
use delta_paper_trader.Executor.{
  rounds, ExitTarget, finished, exit_group, max_rounds, rounds, sweep, cancel_all, still, size_of,
  find_size, plan, close_by,
}
use delta_paper_trader.Executor.Outcome.{Confirmed, exit_group-Confirmed}
use delta_paper_trader.Executor.Orders.{exit_group-bounded}
use delta_paper_trader.Executor.Protocol.{IsFaithful, logged, noted, exit_follows_protocol}

-- A sold leg of size 3 that the first order closes; the state says whether it is open.
abbrev exchange : Transport ℤ Bool
exchange get_positions true =
    (reply 200 true (position_rows (record { product_id = 7; size = negsuc 2 } ∷ [])), true)
exchange get_positions false = (reply 200 true (position_rows []), false)
exchange get_wallet s = (reply 200 true other, s)
exchange get_stop_orders s = (reply 200 true other, s)
exchange (get_fills ids) s = (reply 200 true other, s)
exchange (post_order o) s = (reply 200 true other, false)
exchange (post_bracket b) s = (reply 200 true other, s)
exchange (delete_order i p) s = (reply 200 true nothing, s)

-- An exchange that answers with a rate limit.
abbrev busy : Transport ℤ Bool
busy req s = (reply 429 false other, s)

abbrev silent : Level → M Bool (Unit {0})
silent l s = (ok tt, s)

abbrev mark_of : String → ℤ
mark_of symbol = cents 10000

abbrev targets : List (ExitTarget ℤ)
targets =
    record {
      product_id = 7;
      symbol = "C-BTC";
      tick = cents 10;
      stop_order_id = some 70;
      tp_order_id = none;
    }
    ∷ []

exit_follows_protocol_example :
    IsFaithful exchange true mark_of silent false targets
      (exit_group
        (logged exchange true mark_of silent false)
        true
        mark_of
        (noted exchange true mark_of silent false)
        false
        targets
        ([], true)).1.0
exit_follows_protocol_example =
    exit_follows_protocol exchange true mark_of silent false targets true

all_requests-IsFenced_example :
    IsFenced exchange true
      (perform_all exchange true (market 7 buy 3 ∷ read_positions ∷ []) ([], true))
all_requests-IsFenced_example =
    all_requests-IsFenced exchange true (market 7 buy 3 ∷ read_positions ∷ []) true

exit_closes :
    exit_group exchange true mark_of silent false targets true
    ≡ (finished (record { flat = true; refused = none; orders = 1 }), false)
unfolding exit_group rounds sweep cancel_all still size_of find_size plan close_by close_ioc
    close_market place cancel positions call ioc_limit_price round_up round_down
exit_closes = refl

exit_group-Confirmed_example :
    (e₁ : Bool) × Confirmed exchange true mark_of silent false targets e₁
    × (cancel_all exchange true mark_of silent false targets e₁ ≡ (ok tt, false))
exit_group-Confirmed_example =
    exit_group-Confirmed exchange true mark_of silent false targets true false exit_closes refl

exit_group-bounded_example : 1 ≤ max_rounds * length targets
exit_group-bounded_example =
    exit_group-bounded exchange true mark_of silent false targets true false
      (record { flat = true; refused = none; orders = 1 }) exit_closes
