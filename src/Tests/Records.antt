-- ===== src/Tests/Records.antt =====
-- Examples of the journal, the alerts and the live sync (backend/app/live/journal.py, alerts.py and sync.py).
use Prim.Native.String.{String}
use delta_paper_trader.Prelude.{
  ℕ, ◌==◌, ◌≡◌, ◌≢◌, ◌⊎◌, refl, inl, inr, true, false, Option, none, some, List, [], ◌∷◌, All, In,
  filter, arith,
}
use delta_paper_trader.Prelude.Int.{ℤ, negsuc, is_zero}
use delta_paper_trader.Float.{◌≼◌, ◌⊖◌, nought}
use delta_paper_trader.Float.Fixed.{fixed, cents, fixed-IsOrdered, fixed-IsRounded}
use delta_paper_trader.Types.{buy, sell, call}
use delta_paper_trader.Journal.{
  Fill, Sample, CandleRow, same_side, fill_run, candle_rows, mtm_stats,
}
use delta_paper_trader.Journal.Drawdown.{drawdown_covers}
use delta_paper_trader.Journal.Fills.{prefix, IsBar, fill_run_is_prefix, candle_rows-IsBar}
use delta_paper_trader.Alerts.{raise_alert, lookup, noted, is_due}
use delta_paper_trader.Alerts.Quiet.{Raise, IsQuiet, sent_for, sent_alert_is_not_repeated}
use delta_paper_trader.Risk.{warning, critical, sl_crossed}
use delta_paper_trader.Models.{Leg, Position}
use delta_paper_trader.Exit.{Reason, close_strategy}
use delta_paper_trader.Sync.Live.{evaluate_live}
use delta_paper_trader.Sync.LiveStops.{crossed_sl_closes_group}
use delta_paper_trader.Sync.{
  Contract, DeltaPosition, Hit, open_hits, reconcile, sweep_gone, take_all, take, join, refresh,
  new_group, new_leg, keys_from,
}
use delta_paper_trader.Sync.Gone.{FlippedBy, gone_is_justified}

abbrev bar : ℕ → ℕ → ℕ → Sample ℤ
bar t high low = record {
  t = t;
  opening = cents low;
  high = cents high;
  low = cents low;
  close = cents high;
}

abbrev samples : List (Sample ℤ)
samples = bar 1 500 100 ∷ bar 2 900 300 ∷ bar 3 400 200 ∷ []

drawdown_covers_example :
    (nought ≼ (mtm_stats samples).max_drawdown)
    × (cents 900 ⊖ cents 200 ≼ (mtm_stats samples).max_drawdown)
    × (cents 200 ⊖ cents 200 ≼ (mtm_stats samples).max_drawdown)
drawdown_covers_example =
    drawdown_covers fixed-IsOrdered fixed-IsRounded (bar 2 900 300) (bar 3 400 200) samples
      (inr (inl (refl, inl refl)))

candle_rows-IsBar_example :
    All
      (λ (row : CandleRow ℤ). IsBar row.pnl)
      (candle_rows sell (cents 300) (cents 100) (cents 10) samples)
candle_rows-IsBar_example =
    candle_rows-IsBar fixed-IsOrdered fixed-IsRounded sell (cents 300) (cents 100) (cents 10)
      samples refl refl
      ((refl, refl, refl, refl), ((refl, refl, refl, refl), ((refl, refl, refl, refl), tt)))

abbrev sale : Fill ℤ
sale = record {
  product_id = 7;
  side = sell;
  size = cents 100;
  price = cents 300;
  commission = cents 1;
  created_at = some 1000;
  order_id = 3;
}

abbrev fills : List (Fill ℤ)
fills = sale ∷ record sale { product_id = 8 } ∷ sale ∷ record sale { side = buy } ∷ sale ∷ []

fill_run_is_prefix_example :
    fill_run fills 7 sell
    ≡ prefix
        (λ (x : Fill ℤ). same_side x.side sell)
        (filter (λ (x : Fill ℤ). x.product_id == 7) fills)
fill_run_is_prefix_example = fill_run_is_prefix fills 7 sell

abbrev first_call : Raise
first_call = record { key = 3; level = critical; sticky = true; now = 1000 }

abbrev second_call : Raise
second_call = record { key = 3; level = warning; sticky = true; now = 1299 }

low_soon : (c : Raise) → In c (second_call ∷ []) → c.key ≡ 3 → IsQuiet critical 1000 c
low_soon c (inl e) k = rw e (omega arith, omega arith)
low_soon c (inr bad) k = absurd bad

sent_alert_is_not_repeated_example :
    sent_for 3 (second_call ∷ []) (raise_alert 3 critical true 1000 []).1 ≡ 0
unfolding raise_alert is_due noted lookup
sent_alert_is_not_repeated_example =
    sent_alert_is_not_repeated first_call (second_call ∷ []) [] refl low_soon

-- A feed that knows one contract.
abbrev contracts : String → Option (Contract ℤ)
contracts symbol = some (record {
  product_id = some 7;
  option_type = call;
  strike = cents 6000000;
  expiry = some "2026-01-01";
  contract_value = none;
  mark_price = some (cents 10000);
})

abbrev spots : String → ℤ
spots underlying = cents 6000000

abbrev days : String → ℤ
days expiry = cents 500

-- Delta reports a sold position on product 7 alone.
abbrev reported : DeltaPosition ℤ
reported = record {
  size = negsuc 2;
  symbol = "C-BTC-60000-010126";
  parts = "C" ∷ "BTC" ∷ "60000" ∷ "010126" ∷ [];
  product_id = 7;
  entry_price = some (cents 9000);
  margin = none;
}

abbrev known : Contract ℤ
known = record {
  product_id = some 8;
  option_type = call;
  strike = cents 6000000;
  expiry = some "2026-01-01";
  contract_value = none;
  mark_price = some (cents 10000);
}

-- The group has an open leg on product 8.
abbrev group : Position ℤ
unfolding new_group new_leg
group = record (new_group 9 contracts spots days 0 1 "BTC" "2026-01-01") {
  legs = new_leg 9 contracts spots days 0 2 reported known "2026-01-01" 8 ∷ [];
}

abbrev lost : Hit
lost = record { pid = 8; group_id = 1; leg_id = 2; side = sell; exiting = false }

gone_is_justified_example :
    FlippedBy 9 contracts spots days 5 (reported ∷ []) lost
    ⊎ (In lost (open_hits (group ∷ []))
        × ((dp : DeltaPosition ℤ)
            → In dp (reported ∷ [])
            → is_zero dp.size ≡ false
            → dp.product_id ≢ 8))
unfolding reconcile sweep_gone take_all take join refresh group new_group new_leg open_hits
    keys_from
gone_is_justified_example =
    gone_is_justified 9 contracts spots days 5 (group ∷ []) (reported ∷ []) 10 lost (inl refl)

-- The group's sold leg has an SL of 150, and its mark is 160.
abbrev guarded : Leg ℤ
unfolding new_leg
guarded = record (new_leg 9 contracts spots days 0 2 reported known "2026-01-01" 8) {
  sl_price = some (cents 15000);
}

abbrev armed : Position ℤ
unfolding new_group guarded
armed = record (new_group 9 contracts spots days 0 1 "BTC" "2026-01-01") { legs = guarded ∷ [] }

abbrev marks : Leg ℤ → ℤ
marks lg = cents 16000

crossed_sl_closes_group_example :
    (why : Reason) × (evaluate_live armed marks false false ≡ close_strategy why)
unfolding armed guarded new_group new_leg sl_crossed
crossed_sl_closes_group_example =
    crossed_sl_closes_group fixed-IsOrdered fixed-IsRounded armed guarded marks (cents 15000) false
      false (inl refl) refl refl refl refl refl (inl refl)
