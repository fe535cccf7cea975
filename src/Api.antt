-- ===== src/Api.antt =====
-- The paper endpoints of backend/app/api/sim.py that change state, and `_seed_new_user` of
-- backend/app/sim/user.py. The user is the one that the authentication resolves. The session
-- (backend/app/db/session.py) is committed after a reply and rolled back after an exception. The state that
-- a reply shows is left out.
pub mod Tenants
use Prim.Native.String.{String}
use delta_paper_trader.Prelude.{
  ℕ, ◌==◌, Bool, true, false, not, ◌&&◌, Option, none, some, List, [], ◌∷◌, any, find, is_empty,
  if◌then◌else◌,
}
use delta_paper_trader.Float.{Float}
use delta_paper_trader.Models.{Leg, Position, Account, CloseReason, manual, given, deposit}
use delta_paper_trader.Sim.{
  quote_failed, MarketView, Db, Outcome, done, no_account, MarginReply, is_live, close_position,
  close_leg,
}
use delta_paper_trader.Sim.Placing.{
  margin_failed, LegSpec, PlaceRequest, Placed, placed, refused, no_legs, account_missing,
  place_strategy,
}
use delta_paper_trader.Sim.Edits.{
  PositionRiskPatch, LegRiskPatch, Note, set_position_risk, set_leg_risk, add_note, is_leg,
}

-- A reply, or the status of an `HTTPException`; 500 stands for an exception that no handler catches.
pub data Reply : Type 0 where
  replied : Reply
  failed : ℕ → Reply

-- The rows, with the notes.
pub record Store (W : Type 0) : Type 0 where
  pub db : Db W
  pub notes : List Note

-- A request of an endpoint. `fresh` is the key that the session assigns.
pub data Command (W : Type 0) : Type 0 where
  place : ℕ → PlaceRequest W → Command W
  close : ℕ → Option String → Command W
  exit_leg : ℕ → ℕ → Option String → Command W
  position_risk : ℕ → PositionRiskPatch W → Command W
  leg_risk : ℕ → LegRiskPatch W → Command W
  note : ℕ → String → String → Command W

-- `reason or "manual"`; an empty text is `none`.
abbrev pub why_of : Option String → CloseReason
why_of none = manual
why_of (some text) = given text

module _ {W : Type 0} where
  -- `session.get` finds a row by its key alone.
  abbrev pub is_live_row : ℕ → Position W → Bool
  is_live_row pos_id p = (p.id == pos_id) && is_live p.source

  abbrev pub is_live_leg : ℕ → Position W → Bool
  is_live_leg leg_id p = any (is_leg leg_id) p.legs && is_live p.source

  abbrev pub with_db : Store W → Db W → Store W
  with_db st db = record st { db = db }

  abbrev pub reply_placed : Store W → Placed W → Reply × Store W
  reply_placed st (placed id db) = (replied, with_db st db)
  reply_placed st refused = (failed 400, st)
  reply_placed st no_legs = (failed 500, st)
  reply_placed st account_missing = (failed 500, st)
  reply_placed st margin_failed = (failed 500, st)

  abbrev pub reply_closed : Store W → Outcome W → Reply × Store W
  reply_closed st (done true db) = (replied, with_db st db)
  reply_closed st (done false db) = (failed 404, st)
  reply_closed st no_account = (failed 500, st)
  reply_closed st quote_failed = (failed 500, st)

  abbrev pub reply_edited : Store W → Bool × Db W → Reply × Store W
  reply_edited st (true, db) = (replied, with_db st db)
  reply_edited st (false, db) = (failed 404, st)

  abbrev pub reply_noted : Store W → Bool × List Note → Reply × Store W
  reply_noted st (true, notes) = (replied, record st { notes = notes })
  reply_noted st (false, notes) = (failed 404, st)

-- `quotes` and `basket` answer for `quote_margin`, for the legs that remain and for a request.
module _ {W : Type 0} ⦃f : Float W⦄ (mv : MarketView W) (now : ℕ)
    (quotes : Position W → List (Leg W) → MarginReply W)
    (basket : String → List (LegSpec W) → MarginReply W) where
  unfoldable pub run_command : ℕ → Command W → Store W → Reply × Store W
  run_command u (place fresh req) st =
      if is_empty req.legs
      then (failed 400, st)
      else reply_placed st (place_strategy mv now u fresh basket req st.db)
  run_command u (close pos_id reason) st =
      reply_closed st (close_position mv now u pos_id (why_of reason) st.db)
  run_command u (exit_leg pos_id leg_id reason) st =
      reply_closed st (close_leg mv now quotes u pos_id leg_id (why_of reason) none st.db)
  run_command u (position_risk pos_id patch) st =
      if any (is_live_row pos_id) st.db.positions
      then (failed 409, st)
      else reply_edited st (set_position_risk u pos_id patch st.db)
  run_command u (leg_risk leg_id patch) st =
      if any (is_live_leg leg_id) st.db.positions
      then (failed 409, st)
      else reply_edited st (set_leg_risk u leg_id patch st.db)
  run_command u (note pos_id kind body) st =
      reply_noted st (add_note now u pos_id kind body st.db st.notes)

  -- Requests of users in order.
  unfoldable pub run_commands : List (ℕ × Command W) → Store W → Store W
  run_commands [] st = st
  run_commands (c ∷ cs) st = run_commands cs (run_command c.0 c.1 st).1

module _ {W : Type 0} ⦃f : Float W⦄ where
  -- `_seed_new_user`, for the key of the new user and the start balance of the settings.
  unfoldable pub seed_new_user : ℕ → ℕ → W → Db W → Db W
  seed_new_user now user_id start db = record db {
    accounts =
        record { user_id = user_id; balance_usd = start; start_balance_usd = start } ∷ db.accounts;
    ledger =
        record { user_id = user_id; t = now; type = deposit; amount = start; balance_after = start }
        ∷ db.ledger;
  }
