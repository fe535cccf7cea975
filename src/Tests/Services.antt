-- ===== src/Tests/Services.antt =====
-- Examples of the chain's expiries and of the paper endpoints.
use delta_paper_trader.Prelude.{
  ℕ, ◌≡◌, refl, true, false, none, some, List, [], ◌∷◌, In, inl, inr, arith,
}
use delta_paper_trader.Prelude.Int.{ℤ}
use delta_paper_trader.Float.Fixed.{fixed}
use delta_paper_trader.Chain.{
  Date, before_date, list_expiries, parse_expiry_from_symbol, default_expiry, is_expiry_live,
  expiry_settlement, ordinal, days_in_month, split,
}
use delta_paper_trader.Chain.Expiry.{default_expiry-nearest}
use delta_paper_trader.Chain.Symbols.{symbol_of, parse-symbol_of}
use delta_paper_trader.Sim.Edits.{PositionRiskPatch, unset, set}
use delta_paper_trader.Api.{Store, Command, close, position_risk, run_commands}
use delta_paper_trader.Api.Tenants.{Untouched, tenants_stay_apart}
use delta_paper_trader.Tests.Paper.{market, rows, halved}
use delta_paper_trader.Tests.Trading.{basket}

abbrev day : ℕ → ℕ → ℕ → Date
day y m d = record { year = y; month = m; day = d }

-- P-BTC-95000-310726
parse-symbol_of_example :
    parse_expiry_from_symbol (
      symbol_of
        (b'P' ∷ [])
        (b'B' ∷ b'T' ∷ b'C' ∷ [])
        (b'9' ∷ b'5' ∷ b'0' ∷ b'0' ∷ b'0' ∷ [])
        26
        7
        31)
    ≡ some (day 2026 7 31)
unfolding days_in_month
parse-symbol_of_example =
    parse-symbol_of (b'P' ∷ []) (b'B' ∷ b'T' ∷ b'C' ∷ []) (b'9' ∷ b'5' ∷ b'0' ∷ b'0' ∷ b'0' ∷ []) 26
      7 31 (refl, tt) (refl, (refl, (refl, tt))) (refl, (refl, (refl, (refl, (refl, tt)))))
      (omega arith) refl

-- An expiry in July and one in June, on the first of July.
abbrev listed : List (List ℕ)
listed =
    symbol_of (b'P' ∷ []) (b'E' ∷ []) (b'9' ∷ []) 26 7 31
    ∷ symbol_of (b'C' ∷ []) (b'E' ∷ []) (b'9' ∷ []) 26 6 30
    ∷ []

default_expiry-nearest_example :
    (e : Date) × (default_expiry (list_expiries listed) 1782900000000 ≡ some e)
    × In e (list_expiries listed)
    × (is_expiry_live e 1782900000000 ≡ true)
    × (before_date (day 2026 7 31) e ≡ false)
unfolding list_expiries parse_expiry_from_symbol split is_expiry_live expiry_settlement ordinal
    days_in_month
default_expiry-nearest_example =
    default_expiry-nearest listed 1782900000000 (day 2026 7 31) (inr (inl refl)) refl

abbrev patch : PositionRiskPatch ℤ
patch = record {
  target_pnl = set none;
  stop_loss_amount = unset;
  stop_loss_pct_of_margin = unset;
  auto_exit = some true;
  stale_hard_stop = none;
}

abbrev store : Store ℤ
store = record { db = rows; notes = [] }

-- User 5 tries to close and to edit the position of user 9.
abbrev foreign_commands : List (ℕ × Command ℤ)
foreign_commands = (5, close 4 none) ∷ (5, position_risk 4 patch) ∷ []

tenants_stay_apart_example :
    Untouched market 5 halved basket 9 store
      (run_commands market 5 halved basket foreign_commands store)
tenants_stay_apart_example =
    tenants_stay_apart market 5 halved basket 9 foreign_commands store (refl, (refl, tt))
