-- ===== src/Sim.antt =====
-- The paper simulation, backend/app/sim/service.py: closing a position or a leg, with the account and the
-- ledger; its other operations are the child modules. The market view (backend/app/sim/marketview.py) and the
-- margin quote, which asks Delta, are parameters; `Log` rows are left out.
mod State
pub mod Samples
pub mod Closing
pub mod LegExit
pub mod Placing
pub mod Frame
pub mod Edits
pub mod Steps
pub mod Settlement
pub mod Ticker
unfoldable pub use State.*
use Prim.Native.String.{String}
use delta_paper_trader.Prelude.{
  ℕ, ◌==◌, Bool, true, false, not, ◌&&◌, Option, none, some, List, [], ◌∷◌, ◌++◌, map, filter, find,
  is_empty, if◌then◌else◌,
}
use delta_paper_trader.Float.{Float, ◌⊕◌, ◌⊖◌, nought, truthy, or_else}
use delta_paper_trader.Types.{Side, Status, opened, closed}
use delta_paper_trader.Models.{
  Leg, Position, Account, LedgerEntry, margin_release, realized, fee, CloseReason, Badge, is_opened,
  open_legs,
}
use delta_paper_trader.Money.{LegQuote, exit_fill, leg_fee, leg_pnl, net_pnl}

module _ {W : Type 0} ⦃f : Float W⦄ (mv : MarketView W) (now : ℕ) where
  -- `_exit_price`
  unfoldable pub exit_price_of : Leg W → W
  exit_price_of lg = elim (mv.quote lg.symbol) [
    | some q ↦ exit_fill lg.side q.bid q.ask (mark_of mv lg)
    | none ↦ exit_fill lg.side nought nought (mark_of mv lg)
  ]

  abbrev pub entry_fee : Leg W → W
  entry_fee lg = leg_fee lg.entry lg.spot_at_entry lg.contract_value lg.qty

  abbrev pub exit_fee : Leg W → W
  exit_fee lg =
      leg_fee (exit_price_of lg) (or_else (mv.spot lg.underlying) lg.spot_at_entry)
        lg.contract_value lg.qty

  -- The loop over `fees`: both fees of each leg, from a running sum.
  pub fees_from : W → List (Leg W) → W
  fees_from acc [] = acc
  fees_from acc (lg ∷ legs) = fees_from (acc ⊕ entry_fee lg ⊕ exit_fee lg) legs

  unfoldable pub gross_of : List (Leg W) → W
  gross_of legs = net_pnl (
      map
        (λ (lg : Leg W). record {
          side = lg.side;
          qty = lg.qty;
          cv = lg.contract_value;
          entry = lg.entry;
          mark = exit_price_of lg;
        })
        legs)

  -- The assignments to a leg that is closed.
  abbrev pub shut_leg : CloseReason → W → W → W → Leg W → Leg W
  shut_leg why ex gross fees lg = record lg {
    status = closed;
    exit_price = some ex;
    exit_at = some now;
    exit_reason = some why;
    exit_gross = some gross;
    exit_fees = some fees;
  }

  unfoldable pub close_open_leg : CloseReason → Leg W → Leg W
  close_open_leg why lg =
      if is_opened lg.status
      then shut_leg why (exit_price_of lg)
          (leg_pnl lg.side lg.qty lg.contract_value lg.entry (exit_price_of lg))
          (entry_fee lg ⊕ exit_fee lg) lg
      else lg

  abbrev pub shut_position : CloseReason → Position W → Position W
  shut_position why pos = record pos {
    status = closed;
    closed_at = some now;
    close_reason = some why;
  }

  -- What `close_position` does once the position is found to be open and on paper. The entries stand in the
  -- order of the running balance; their time is the same.
  unfoldable pub closing : CloseReason → Position W → Account W → Changed W
  closing why pos account =
      let legs = open_legs pos.legs in
      let gross = gross_of legs in
      let fees = fees_from nought legs in
      let after_release = account.balance_usd ⊕ pos.margin in
      let after_fees = after_release ⊖ fees in
      let balance_after = after_fees ⊕ gross in
      record {
        account = record account { balance_usd = balance_after };
        position = shut_position why (record pos { legs = map (close_open_leg why) pos.legs });
        entries =
            entry_of pos now margin_release pos.margin after_release
            ∷ entry_of pos now fee (f.neg fees) after_fees
            ∷ entry_of pos now realized gross balance_after
            ∷ [];
      }

  unfoldable pub close_position : ℕ → ℕ → CloseReason → Db W → Outcome W
  close_position user_id pos_id why db = elim (get_position user_id pos_id db) [
    | none ↦ done false db
    | some pos ↦
        if closable pos
        then elim (get_account user_id db) [
          | none ↦ no_account
          | some account ↦ done true (apply_change user_id pos_id (closing why pos account) db)
        ]
        else done false db
  ]

  -- The price and the fees of a leg exit: at the settlement price without fees, or at the market.
  abbrev pub leg_exit : Option W → Leg W → W × W
  leg_exit (some settle_price) lg = (settle_price, nought)
  leg_exit none lg = (exit_price_of lg, entry_fee lg ⊕ exit_fee lg)

  -- The margin that stays reserved for the legs that remain; a `ValueError` keeps what is reserved.
  -- No call comes here with `other_error` while legs remain.
  abbrev pub remaining_margin : Bool → MarginReply W → Position W → W × Badge
  remaining_margin true reply pos = (nought, pos.margin_badge)
  remaining_margin false (quoted margin badge) pos = (margin, badge)
  remaining_margin false value_error pos = (pos.margin, pos.margin_badge)
  remaining_margin false other_error pos = (pos.margin, pos.margin_badge)

  abbrev pub shut_one : ℕ → (Leg W → Leg W) → List (Leg W) → List (Leg W)
  shut_one leg_id g legs = map (λ (lg : Leg W). if lg.id == leg_id then g lg else lg) legs

  -- What `close_leg` does once the leg is found open in an open paper position.
  unfoldable pub closing_leg :
      CloseReason → Option W → MarginReply W → Position W → Leg W → Account W → Changed W
  closing_leg why settle_price reply pos leg account =
      let remaining = filter (λ (lg : Leg W). not (lg.id == leg.id)) (open_legs pos.legs) in
      let last = is_empty remaining in
      let (ex, fees) = leg_exit settle_price leg in
      let gross = leg_pnl leg.side leg.qty leg.contract_value leg.entry ex in
      let (new_margin, badge) = remaining_margin last reply pos in
      let released = pos.margin ⊖ new_margin in
      let balance_after = account.balance_usd ⊕ gross ⊖ fees ⊕ released in
      let shut = record pos { legs = shut_one leg.id (shut_leg why ex gross fees) pos.legs } in
      record {
        account = record account { balance_usd = balance_after };
        position =
            if last
            then shut_position why shut
            else record shut { margin = new_margin; margin_badge = badge };
        entries =
            entry_of pos now realized gross balance_after
            ∷ entry_of pos now fee (f.neg fees) balance_after
            ∷ (if truthy released
                then entry_of pos now margin_release released balance_after ∷ []
                else []);
      }

  -- `quotes` answers for the margin of the legs that remain.
  unfoldable pub close_leg :
      (Position W → List (Leg W) → MarginReply W)
      → ℕ
      → ℕ
      → ℕ
      → CloseReason
      → Option W
      → Db W
      → Outcome W
  close_leg quotes user_id pos_id leg_id why settle_price db =
      elim (get_position user_id pos_id db) [
        | none ↦ done false db
        | some pos ↦
            if closable pos
            then elim (find (λ (lg : Leg W). (lg.id == leg_id) && is_opened lg.status) pos.legs) [
              | none ↦ done false db
              | some leg ↦
                  let remaining =
                    filter (λ (lg : Leg W). not (lg.id == leg_id)) (open_legs pos.legs) in
                  let reply = quotes pos remaining in
                  if lets_through (is_empty remaining) reply
                  then quote_failed
                  else elim (get_account user_id db) [
                    | none ↦ no_account
                    | some account ↦ done true (
                        apply_change user_id pos_id
                          (closing_leg why settle_price reply pos leg account) db)
                  ]
            ]
            else done false db
      ]
