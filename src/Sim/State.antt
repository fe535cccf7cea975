-- ===== src/Sim/State.antt =====
-- The state that the paper simulation changes, and what it reads of the market.
use Prim.Native.String.{String}
use delta_paper_trader.Prelude.{
  ℕ, ◌==◌, Bool, true, false, not, ◌&&◌, Option, none, some, List, ◌++◌, map, find, if◌then◌else◌,
}
use delta_paper_trader.Models.{
  Leg, Position, Account, LedgerEntry, EntryType, Badge, Source, paper, live, is_opened,
}

-- `Quote`: `mark` is `none` where the feed sent no mark.
pub record Quote (W : Type 0) : Type 0 where
  pub mark : Option W
  pub bid : W
  pub ask : W
  pub iv : W
  pub delta : W
  pub gamma : W
  pub theta : W
  pub vega : W
  pub greeks_present : Bool

-- `MarketView`; `age` is the feed's `age_seconds`, `none` where it is not a number.
pub record MarketView (W : Type 0) : Type 0 where
  pub quote : String → Option (Quote W)
  pub spot : String → W
  pub atm_iv : String → String → W
  pub fresh : Bool
  pub age : Option W

-- The part of a sample for one leg.
pub record LegSample (W : Type 0) : Type 0 where
  pub leg_id : ℕ
  pub pnl : W
  pub iv : W
  pub delta : W
  pub theta : W
  pub vega : W
  pub bid : W
  pub ask : W

-- `StrategySeries`
pub record SeriesRow (W : Type 0) : Type 0 where
  pub time : ℕ
  pub position_id : ℕ
  pub user_id : ℕ
  pub pnl : W
  pub pnl_open : Option W
  pub pnl_high : Option W
  pub pnl_low : Option W
  pub delta : W
  pub theta : W
  pub vega : W
  pub atm_iv : List (String × W)
  pub legs : List (LegSample W)

-- The rows of the session.
pub record Db (W : Type 0) : Type 0 where
  pub accounts : List (Account W)
  pub positions : List (Position W)
  pub ledger : List (LedgerEntry W)
  pub series : List (SeriesRow W)

-- What `quote_margin` gives, with `ValueError` as a value; `other_error` is any other exception: of the HTTP
-- client, of the status of Delta's answer or of the vault.
pub data MarginReply (W : Type 0) : Type 0 where
  quoted : W → Badge → MarginReply W
  value_error : MarginReply W
  other_error : MarginReply W

abbrev pub is_other_error : {W : Type 0} → MarginReply W → Bool
is_other_error (quoted margin badge) = false
is_other_error value_error = false
is_other_error other_error = true

-- In `close_leg`: the quote is asked for only while legs remain, and `except ValueError` lets other
-- exceptions through.
abbrev pub lets_through : {W : Type 0} → Bool → MarginReply W → Bool
lets_through last reply = not last && is_other_error reply

-- The rows that an operation writes, its ledger entries in the order of the running balance.
pub record Changed (W : Type 0) : Type 0 where
  pub account : Account W
  pub position : Position W
  pub entries : List (LedgerEntry W)

-- A call returns a flag, or raises: the user has no account (`scalar_one`), or the margin quote failed.
pub data Outcome (W : Type 0) : Type 0 where
  done : Bool → Db W → Outcome W
  no_account : Outcome W
  quote_failed : Outcome W

abbrev pub is_live : Source → Bool
is_live paper = false
is_live live = true

module _ {W : Type 0} where
  -- `pos is None or pos.status == "closed" or pos.source == "live"`, negated
  abbrev pub closable : Position W → Bool
  closable pos = is_opened pos.status && not (is_live pos.source)

  -- `_mark`: only a missing mark falls back to the entry; a mark of 0 is a mark.
  abbrev pub mark_or : Option (Quote W) → W → W
  mark_or none entry = entry
  mark_or (some q) entry = elim q.mark [ none ↦ entry | some m ↦ m ]

  unfoldable pub mark_of : MarketView W → Leg W → W
  mark_of mv lg = mark_or (mv.quote lg.symbol) lg.entry

  abbrev pub entry_of : Position W → ℕ → EntryType → W → W → LedgerEntry W
  entry_of pos now type amount balance_after = record {
    user_id = pos.user_id;
    t = now;
    type = type;
    amount = amount;
    balance_after = balance_after;
  }

  abbrev pub is_position : ℕ → ℕ → Position W → Bool
  is_position user_id pos_id pos = (pos.id == pos_id) && (pos.user_id == user_id)

  unfoldable pub get_position : ℕ → ℕ → Db W → Option (Position W)
  get_position user_id pos_id db = find (is_position user_id pos_id) db.positions

  unfoldable pub get_account : ℕ → Db W → Option (Account W)
  get_account user_id db = find (λ (a : Account W). a.user_id == user_id) db.accounts

  -- The session's writes: the rows in place, and the entries added to the ledger.
  unfoldable pub apply_change : ℕ → ℕ → Changed W → Db W → Db W
  apply_change user_id pos_id c db = record db {
    accounts = map (λ (a : Account W). if a.user_id == user_id then c.account else a) db.accounts;
    positions =
        map (λ (p : Position W). if is_position user_id pos_id p then c.position else p)
          db.positions;
    ledger = c.entries ++ db.ledger;
  }
