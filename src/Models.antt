-- ===== src/Models.antt =====
-- The rows of the database, backend/app/db/models.py, as far as the modelled operations read or write
-- them. Keys (UUIDs) and times are numbers; a time is in milliseconds.
use Prim.Native.String.{String}
use delta_paper_trader.Prelude.{ℕ, Bool, true, false, Option, List, filter}
use delta_paper_trader.Types.{Side, OptType, Status, opened, closed, CloseScope}

pub data Source : Type 0 where
  paper live : Source

-- matched | est | stale
pub data Badge : Type 0 where
  matched est stale : Badge

-- Why a leg or a position was closed, by the text in `exit_reason` or `close_reason`.
pub data CloseReason : Type 0 where
  manual settlement expiry_close : CloseReason
  given : String → CloseReason

pub record Leg (W : Type 0) : Type 0 where
  pub id : ℕ
  pub symbol : String
  pub product_id : ℕ
  pub underlying : String
  pub type : OptType
  pub strike : W
  pub contract_value : W
  pub expiry : String
  pub dte : W
  pub side : Side
  pub qty : W
  pub entry : W
  pub mark_at_entry : W
  pub spot_at_entry : W
  pub target_pnl : Option W
  pub stop_pnl : Option W
  pub auto_exit : Bool
  pub close_scope : CloseScope
  pub status : Status
  pub exit_price : Option W
  pub exit_at : Option ℕ
  pub exit_reason : Option CloseReason
  pub exit_gross : Option W
  pub exit_fees : Option W
  pub sl_price : Option W
  pub tp_price : Option W
  pub stop_order_id : Option ℕ
  pub stop_price : Option W
  pub tp_order_id : Option ℕ
  pub entry_at : Option ℕ
  pub entry_fees : Option W
  pub entry_margin : Option W
  pub last_margin : Option W
  pub mark_at_exit : Option W

pub record Position (W : Type 0) : Type 0 where
  pub id : ℕ
  pub user_id : ℕ
  pub name : String
  pub underlying : String
  pub expiry : String
  pub margin : W
  pub entry_margin : W
  pub margin_badge : Badge
  pub opened_at : ℕ
  pub status : Status
  pub target_pnl : Option W
  pub stop_loss_amount : Option W
  pub stop_loss_pct_of_margin : Option W
  pub target_pct_of_margin : Option W
  pub auto_exit : Bool
  pub auto_exit_suspended : Bool
  pub stale_hard_stop : Bool
  pub closed_at : Option ℕ
  pub close_reason : Option CloseReason
  pub source : Source
  pub exiting : Bool
  pub legs : List (Leg W)

pub data EntryType : Type 0 where
  deposit margin_reserve margin_release realized fee : EntryType

pub record LedgerEntry (W : Type 0) : Type 0 where
  pub user_id : ℕ
  pub t : ℕ
  pub type : EntryType
  pub amount : W
  pub balance_after : W

pub record Account (W : Type 0) : Type 0 where
  pub user_id : ℕ
  pub balance_usd : W
  pub start_balance_usd : W

abbrev pub is_opened : Status → Bool
is_opened opened = true
is_opened closed = false

-- `_open`: the legs that are open
abbrev pub open_legs : {W : Type 0} → List (Leg W) → List (Leg W)
open_legs legs = filter (λ lg. is_opened lg.status) legs
