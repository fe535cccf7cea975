-- ===== src/LiveApi.antt =====
-- Arming and editing live groups: `arm`, `group_problems`, `set_leg_bracket`, `set_basket` and `_apply` of
-- backend/app/api/live.py, with `risk_legs` and `usd_wallet` of backend/app/live/sync.py. The groups are those
-- of a user with a key; the wallet is what Delta answers. The push of brackets that follows a success is left out.
pub mod Quiescent
pub mod Quiet
use Prim.Native.String.{String}
use delta_paper_trader.Prelude.{
  ℕ, ◌==◌, Bool, true, false, not, ◌&&◌, ◌||◌, Option, none, some, List, [], ◌∷◌, ◌++◌, map, filter,
  any, find, is_empty, is_some, or_default, same_text, if◌then◌else◌,
}
use delta_paper_trader.Float.{Float, ◌⊕◌, ◌⊘◌, ◌≤?◌, nought, one, abs, max}
use delta_paper_trader.Types.{Side}
use delta_paper_trader.Models.{Leg, Position, is_opened, open_legs}
use delta_paper_trader.Money.{leg_pnl}
use delta_paper_trader.Risk.{RiskLeg, TriggerKind, stop_loss, target, TriggerProblem, check_trigger}
use delta_paper_trader.Liquidation.{LiqCheck, Verdict, red, check_sl_vs_liquidation}
use delta_paper_trader.Sim.{Quote, MarketView, mark_of}
use delta_paper_trader.Sim.Edits.{Patch, unset, set, patched}
use delta_paper_trader.Sync.Live.{basket_floor, target_of_basket}

-- What `group_problems` lists.
pub data Problem (W : Type 0) : Type 0 where
  no_mark : String → Problem W
  bad_trigger : String → TriggerKind → TriggerProblem W → Problem W
  sl_reached : W → W → Problem W
  target_reached : W → W → Problem W

-- The reply of an endpoint: the groups, or the status of an error with the groups that it leaves.
pub data Edited (W : Type 0) : Type 0 where
  accepted : List (Position W) → Edited W
  rejected : ℕ → List (Position W) → Edited W

-- A row of the wallet; a missing balance counts as 0.
pub record WalletRow (W : Type 0) : Type 0 where
  pub asset_symbol : String
  pub balance : Option W
  pub available_balance : Option W

pub record LegBracketIn (W : Type 0) : Type 0 where
  pub sl_price : Patch (Option W)
  pub tp_price : Patch (Option W)

pub record BasketIn (W : Type 0) : Type 0 where
  pub sl_amount : Patch (Option W)
  pub sl_pct : Patch (Option W)
  pub tp_amount : Patch (Option W)
  pub tp_pct : Patch (Option W)

-- An assignment to the first element that `next(…)` finds.
unfoldable pub edit_first : {A : Type 0} → (A → Bool) → (A → A) → List A → List A
edit_first test g [] = []
edit_first test g (x ∷ xs) = if test x then g x ∷ xs else x ∷ edit_first test g xs

module _ {W : Type 0} ⦃f : Float W⦄ where
  -- `usd_wallet`: USD, or else USDT; the balance and what is free.
  abbrev pub row_of : String → List (WalletRow W) → Option (WalletRow W)
  row_of asset rows = find (λ (w : WalletRow W). same_text w.asset_symbol asset) rows

  abbrev pub amounts : Option (WalletRow W) → Option (W × W)
  amounts none = none
  amounts (some w) =
      let bal = or_default w.balance nought in some (bal, or_default w.available_balance bal)

  unfoldable pub usd_wallet : List (WalletRow W) → Option (W × W)
  usd_wallet rows =
      if is_some (row_of "USD" rows)
      then amounts (row_of "USD" rows)
      else amounts (row_of "USDT" rows)

  abbrev pub first_of : Option (W × W) → Option W
  first_of none = none
  first_of (some b) = some b.0

  unfoldable pub usd_balance : List (WalletRow W) → Option W
  usd_balance rows = first_of (usd_wallet rows)

  unfoldable pub risk_leg : (Leg W → W) → Bool → Leg W → RiskLeg W
  risk_leg mark mine lg = record {
    type = lg.type;
    side = lg.side;
    qty = lg.qty;
    strike = lg.strike;
    dte_days = max lg.dte (one ⊘ f.lit 24 0);
    cv = lg.contract_value;
    entry = lg.entry;
    mark = mark lg;
    sl_price = if mine then lg.sl_price else none;
    in_group = mine;
  }

  abbrev pub other_legs : Position W → (Leg W → W) → List (Position W) → List (RiskLeg W)
  other_legs group mark [] = []
  other_legs group mark (o ∷ others) =
      (if not (o.id == group.id) && same_text o.underlying group.underlying
        then map (risk_leg mark false) (open_legs o.legs)
        else [])
      ++ other_legs group mark others

  unfoldable pub risk_legs : Position W → List (Position W) → (Leg W → W) → List (RiskLeg W)
  risk_legs group others mark =
      map (risk_leg mark true) (open_legs group.legs) ++ other_legs group mark others

module _ {W : Type 0} ⦃f : Float W⦄ (mv : MarketView W) (tick_of : String → W) where
  abbrev pub listed : String → TriggerKind → Option (TriggerProblem W) → List (Problem W)
  listed symbol kind none = []
  listed symbol kind (some why) = bad_trigger symbol kind why ∷ []

  abbrev pub trigger_problem : Leg W → W → TriggerKind → Option W → List (Problem W)
  trigger_problem lg mark kind none = []
  trigger_problem lg mark kind (some price) =
      listed lg.symbol kind (check_trigger lg.side kind price mark (tick_of lg.symbol))

  -- The mark of a quote, and the problems of a leg that has one.
  abbrev pub live_mark : Option (Quote W) → Option W
  live_mark none = none
  live_mark (some q) = q.mark

  abbrev pub leg_problems : Leg W → Option W → List (Problem W)
  leg_problems lg none = no_mark lg.symbol ∷ []
  leg_problems lg (some mark) =
      trigger_problem lg mark stop_loss lg.sl_price ++ trigger_problem lg mark target lg.tp_price

  abbrev pub add_pnl : W → Leg W → Option W → W
  add_pnl net lg none = net
  add_pnl net lg (some mark) = net ⊕ leg_pnl lg.side lg.qty lg.contract_value lg.entry mark

  -- The loop, over the open legs: the problems, and `net`.
  unfoldable pub problems_of : List (Leg W) → List (Problem W)
  problems_of [] = []
  problems_of (lg ∷ legs) = leg_problems lg (live_mark (mv.quote lg.symbol)) ++ problems_of legs

  unfoldable pub net_from : W → List (Leg W) → W
  net_from net [] = net
  net_from net (lg ∷ legs) = net_from (add_pnl net lg (live_mark (mv.quote lg.symbol))) legs

  abbrev pub floor_problem : Option W → W → List (Problem W)
  floor_problem none net = []
  floor_problem (some floor) net = if net ≤? floor then sl_reached floor net ∷ [] else []

  abbrev pub target_problem : Option W → W → List (Problem W)
  target_problem none net = []
  target_problem (some goal) net = if goal ≤? net then target_reached goal net ∷ [] else []

  unfoldable pub group_problems : Position W → List (Problem W)
  group_problems g =
      let net = net_from nought (open_legs g.legs) in
      problems_of (open_legs g.legs)
      ++ floor_problem (basket_floor g) net
      ++ target_problem (target_of_basket g) net

  abbrev pub is_group : ℕ → Position W → Bool
  is_group pos_id g = g.id == pos_id

  -- `_apply`: an edited group with a problem is put back.
  unfoldable pub apply_edit :
      (Position W → Bool) → (Position W → Position W) → Position W → List (Position W) → Edited W
  apply_edit test undo g groups =
      if is_empty (group_problems g)
      then accepted groups
      else rejected 409 (edit_first test undo groups)

  -- `abs(v) if v is not None else None`
  abbrev pub magnitude_of : Option W → Option W
  magnitude_of none = none
  magnitude_of (some v) = some (abs v)

  abbrev pub field_of : Patch (Option W) → Option W → Option W
  field_of unset old = old
  field_of (set v) old = magnitude_of v

  -- The other unit of a side is cleared where a value is given.
  abbrev pub cleared_by : Patch (Option W) → Option W → Option W
  cleared_by unset old = old
  cleared_by (set none) old = old
  cleared_by (set (some v)) old = none

  unfoldable pub with_basket : BasketIn W → Position W → Position W
  with_basket body g = record g {
    stop_loss_amount = cleared_by body.sl_pct (field_of body.sl_amount g.stop_loss_amount);
    stop_loss_pct_of_margin =
        cleared_by body.sl_amount (field_of body.sl_pct g.stop_loss_pct_of_margin);
    target_pnl = cleared_by body.tp_pct (field_of body.tp_amount g.target_pnl);
    target_pct_of_margin = cleared_by body.tp_amount (field_of body.tp_pct g.target_pct_of_margin);
  }

  -- `undo`, from the columns `before`
  unfoldable pub basket_undo : Position W → Position W → Position W
  basket_undo before g = record g {
    stop_loss_amount = before.stop_loss_amount;
    stop_loss_pct_of_margin = before.stop_loss_pct_of_margin;
    target_pnl = before.target_pnl;
    target_pct_of_margin = before.target_pct_of_margin;
  }

  abbrev pub basket_of : ℕ → BasketIn W → Option (Position W) → List (Position W) → Edited W
  basket_of pos_id body none groups = rejected 404 groups
  basket_of pos_id body (some g) groups =
      if g.exiting
      then rejected 409 groups
      else apply_edit (is_group pos_id) (basket_undo g) (with_basket body g)
          (edit_first (is_group pos_id) (with_basket body) groups)

  unfoldable pub set_basket : ℕ → BasketIn W → List (Position W) → Edited W
  set_basket pos_id body groups = basket_of pos_id body (find (is_group pos_id) groups) groups

  abbrev pub is_open_leg : ℕ → Leg W → Bool
  is_open_leg leg_id lg = (lg.id == leg_id) && is_opened lg.status

  abbrev pub has_open_leg : ℕ → Position W → Bool
  has_open_leg leg_id g = any (is_open_leg leg_id) g.legs

  unfoldable pub with_bracket : ℕ → LegBracketIn W → Position W → Position W
  with_bracket leg_id body g = record g {
    legs =
        edit_first (is_open_leg leg_id)
          (λ (lg : Leg W). record lg {
            sl_price = patched body.sl_price lg.sl_price;
            tp_price = patched body.tp_price lg.tp_price;
          })
          g.legs;
  }

  unfoldable pub bracket_undo : ℕ → Option (Leg W) → Position W → Position W
  bracket_undo leg_id none g = g
  bracket_undo leg_id (some before) g = record g {
    legs =
        edit_first (is_open_leg leg_id)
          (λ (lg : Leg W). record lg { sl_price = before.sl_price; tp_price = before.tp_price })
          g.legs;
  }

  abbrev pub bracket_of : ℕ → LegBracketIn W → Option (Position W) → List (Position W) → Edited W
  bracket_of leg_id body none groups = rejected 404 groups
  bracket_of leg_id body (some g) groups =
      if g.exiting
      then rejected 409 groups
      else apply_edit (has_open_leg leg_id) (bracket_undo leg_id (find (is_open_leg leg_id) g.legs))
          (with_bracket leg_id body g)
          (edit_first (has_open_leg leg_id) (with_bracket leg_id body) groups)

  unfoldable pub set_leg_bracket : ℕ → LegBracketIn W → List (Position W) → Edited W
  set_leg_bracket leg_id body groups =
      bracket_of leg_id body (find (has_open_leg leg_id) groups) groups

  abbrev pub has_stop : Position W → Bool
  has_stop g =
      is_some (basket_floor g) || any (λ (lg : Leg W). is_some lg.sl_price) (open_legs g.legs)

  abbrev pub is_red : Verdict → Bool
  is_red verdict = elim verdict [ red ↦ true | _ ↦ false ]

  abbrev pub armed_with :
      ℕ → Position W → Option (List (WalletRow W)) → List (Position W) → Edited W
  armed_with pos_id g none groups = rejected 502 groups
  armed_with pos_id g (some rows) groups = elim (usd_balance rows) [
    | none ↦ rejected 502 groups
    | some balance ↦
        let chk =
          check_sl_vs_liquidation (risk_legs g groups (mark_of mv)) (mv.spot g.underlying) balance
            (basket_floor g) in
        if is_red chk.verdict
        then rejected 409 groups
        else accepted (
            edit_first (is_group pos_id) (λ (p : Position W). record p { auto_exit = true }) groups)
  ]

  -- A failed read of the wallet is `none`.
  abbrev pub arm_group :
      ℕ → Bool → Option (List (WalletRow W)) → Option (Position W) → List (Position W) → Edited W
  arm_group pos_id armed wallet none groups = rejected 404 groups
  arm_group pos_id armed wallet (some g) groups =
      if g.exiting
      then rejected 409 groups
      else if not armed
      then accepted
          (edit_first (is_group pos_id) (λ (p : Position W). record p { auto_exit = false }) groups)
      else if not (has_stop g)
      then rejected 400 groups
      else if not (is_empty (group_problems g))
      then rejected 409 groups
      else armed_with pos_id g wallet groups

  unfoldable pub arm : ℕ → Bool → Option (List (WalletRow W)) → List (Position W) → Edited W
  arm pos_id armed wallet groups =
      arm_group pos_id armed wallet (find (is_group pos_id) groups) groups
