-- ===== src/Sim/Placing.antt =====
-- `place_strategy` of backend/app/sim/service.py. The keys that the session assigns are `fresh` for the
-- position and the numbers after it for the legs. `quotes` answers for `quote_margin`; the vault is left
-- out.
pub mod Filled
pub mod Settles
use Prim.Native.String.{String}
use delta_paper_trader.Prelude.{
  ℕ, suc, ◌==◌, Bool, true, false, not, ◌||◌, Option, none, some, List, [], ◌∷◌, ◌++◌, map,
  if◌then◌else◌,
}
use delta_paper_trader.Float.{Float, ◌⊖◌, nought, truthy, or_else, opt_or}
use delta_paper_trader.Types.{Side, OptType, opened, leg}
use delta_paper_trader.Models.{Leg, Position, Account, Badge, paper, margin_reserve}
use delta_paper_trader.Money.{entry_fill}
use delta_paper_trader.Sim.{
  other_error, Quote, MarketView, Db, MarginReply, quoted, value_error, SeriesRow, get_account,
  entry_of,
}
use delta_paper_trader.Sim.Samples.{build_sample}

-- `PlaceLegIn`
pub record LegSpec (W : Type 0) : Type 0 where
  pub symbol : String
  pub product_id : ℕ
  pub underlying : String
  pub type : OptType
  pub strike : W
  pub contract_value : W
  pub expiry : String
  pub dte : W
  pub side : Side
  pub qty : W

pub record PlaceRequest (W : Type 0) : Type 0 where
  pub name : String
  pub legs : List (LegSpec W)
  pub target_pnl : Option W
  pub stop_loss_amount : Option W
  pub stop_loss_pct_of_margin : Option W
  pub auto_exit : Bool

-- The key of the new position, or the exception: a `ValueError`, the `IndexError` of `req.legs[0]`, or no
-- account. Nothing is written where it is raised.
pub data Placed (W : Type 0) : Type 0 where
  placed : ℕ → Db W → Placed W
  refused : Placed W
  no_legs : Placed W
  account_missing : Placed W
  margin_failed : Placed W

module _ {W : Type 0} ⦃f : Float W⦄ where
  abbrev pub is_priced : Option W → Bool
  is_priced none = false
  is_priced (some m) = truthy m

  -- The negation of `not q.mark and not q.bid and not q.ask`.
  abbrev pub has_price : Quote W → Bool
  has_price q = is_priced q.mark || truthy q.bid || truthy q.ask

  -- `entry_fill` with the fallback `q.mark or q.bid or q.ask`
  unfoldable pub fill_of : Side → Quote W → W
  fill_of side q = entry_fill side q.bid q.ask (opt_or q.mark (or_else q.bid q.ask))

module _ {W : Type 0} ⦃f : Float W⦄ (mv : MarketView W) where
  unfoldable pub filled_leg : ℕ → LegSpec W → Quote W → Leg W
  filled_leg id spec q = record {
    id = id;
    symbol = spec.symbol;
    product_id = spec.product_id;
    underlying = spec.underlying;
    type = spec.type;
    strike = spec.strike;
    contract_value = spec.contract_value;
    expiry = spec.expiry;
    dte = spec.dte;
    side = spec.side;
    qty = spec.qty;
    entry = fill_of spec.side q;
    mark_at_entry = opt_or q.mark (fill_of spec.side q);
    spot_at_entry = or_else (mv.spot spec.underlying) nought;
    target_pnl = none;
    stop_pnl = none;
    auto_exit = false;
    close_scope = leg;
    status = opened;
    exit_price = none;
    exit_at = none;
    exit_reason = none;
    exit_gross = none;
    exit_fees = none;
    sl_price = none;
    tp_price = none;
    stop_order_id = none;
    stop_price = none;
    tp_order_id = none;
    entry_at = none;
    entry_fees = none;
    entry_margin = none;
    last_margin = none;
    mark_at_exit = none;
  }

  -- The body of the loop: `none` is the `ValueError`.
  abbrev pub place_leg : ℕ → LegSpec W → Option (Quote W) → Option (Leg W)
  place_leg id spec none = none
  place_leg id spec (some q) = if has_price q then some (filled_leg id spec q) else none

  abbrev pub and_leg : Option (Leg W) → Option (List (Leg W)) → Option (List (Leg W))
  and_leg none rest = none
  and_leg (some lg) none = none
  and_leg (some lg) (some legs) = some (lg ∷ legs)

  unfoldable pub place_legs : ℕ → List (LegSpec W) → Option (List (Leg W))
  place_legs id [] = some []
  place_legs id (spec ∷ specs) =
      and_leg (place_leg id spec (mv.quote spec.symbol)) (place_legs (suc id) specs)

module _ {W : Type 0} ⦃f : Float W⦄ (mv : MarketView W) (now user_id fresh : ℕ) where
  -- The `Position` with its legs; what is not given takes the column's default.
  unfoldable pub placed_position :
      PlaceRequest W → LegSpec W → W → Badge → List (Leg W) → Position W
  placed_position req first margin badge legs = record {
    id = fresh;
    user_id = user_id;
    name = req.name;
    underlying = first.underlying;
    expiry = first.expiry;
    margin = margin;
    entry_margin = margin;
    margin_badge = badge;
    opened_at = now;
    status = opened;
    target_pnl = req.target_pnl;
    stop_loss_amount = req.stop_loss_amount;
    stop_loss_pct_of_margin = req.stop_loss_pct_of_margin;
    target_pct_of_margin = none;
    auto_exit = req.auto_exit;
    auto_exit_suspended = false;
    stale_hard_stop = false;
    closed_at = none;
    close_reason = none;
    source = paper;
    exiting = false;
    legs = legs;
  }

  -- The first row of the chart; its open, high and low are left empty.
  unfoldable pub first_row : Position W → SeriesRow W
  first_row pos =
      let s = build_sample pos mv now in
      record {
        time = now;
        position_id = pos.id;
        user_id = user_id;
        pnl = s.pnl;
        pnl_open = none;
        pnl_high = none;
        pnl_low = none;
        delta = s.delta;
        theta = s.theta;
        vega = s.vega;
        atm_iv = s.atm_iv;
        legs = s.legs;
      }

  -- What is written: the position, the debit of its margin and the row of the chart.
  unfoldable pub placing : Position W → Account W → Db W → Db W
  placing pos account db =
      let balance_after = account.balance_usd ⊖ pos.margin in
      record {
        accounts =
            map
              (λ (a : Account W).
                if a.user_id == user_id then record account { balance_usd = balance_after } else a)
              db.accounts;
        positions = pos ∷ db.positions;
        ledger = entry_of pos now margin_reserve (f.neg pos.margin) balance_after ∷ db.ledger;
        series = first_row pos ∷ db.series;
      }

  abbrev pub with_account : Position W → Option (Account W) → Db W → Placed W
  with_account pos none db = account_missing
  with_account pos (some account) db = placed fresh (placing pos account db)

  abbrev pub with_margin :
      PlaceRequest W → LegSpec W → List (Leg W) → MarginReply W → Db W → Placed W
  with_margin req first legs value_error db = refused
  with_margin req first legs other_error db = margin_failed
  with_margin req first legs (quoted margin badge) db =
      with_account (placed_position req first margin badge legs) (get_account user_id db) db

  abbrev pub with_legs :
      (String → List (LegSpec W) → MarginReply W)
      → PlaceRequest W
      → LegSpec W
      → Option (List (Leg W))
      → Db W
      → Placed W
  with_legs quotes req first none db = refused
  with_legs quotes req first (some legs) db =
      with_margin req first legs (quotes first.underlying req.legs) db

  abbrev pub with_first :
      (String → List (LegSpec W) → MarginReply W)
      → PlaceRequest W
      → List (LegSpec W)
      → Db W
      → Placed W
  with_first quotes req [] db = no_legs
  with_first quotes req (first ∷ specs) db =
      with_legs quotes req first (place_legs mv (suc fresh) req.legs) db

  unfoldable pub place_strategy :
      (String → List (LegSpec W) → MarginReply W) → PlaceRequest W → Db W → Placed W
  place_strategy quotes req db = if mv.fresh then with_first quotes req req.legs db else refused
