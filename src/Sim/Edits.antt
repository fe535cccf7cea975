-- ===== src/Sim/Edits.antt =====
-- The edits of a user: `set_position_risk`, `set_leg_risk` and `add_note` of backend/app/sim/service.py. A row is
-- written in place; a leg belongs to the user of its position.
use Prim.Native.String.{String}
use delta_paper_trader.Prelude.{
  ℕ, ◌==◌, Bool, true, false, ◌&&◌, Option, List, ◌∷◌, map, any, is_some, or_default, if◌then◌else◌,
}
use delta_paper_trader.Types.{CloseScope}
use delta_paper_trader.Models.{Leg, Position}
use delta_paper_trader.Sim.{Db, is_position, get_position}

-- A field of a patch: missing from `model_fields_set`, or set.
pub data Patch {ℓ} (A : Type ℓ) : Type ℓ where
  unset : Patch A
  set : A → Patch A

abbrev pub patched {ℓ} : {A : Type ℓ} → Patch A → A → A
patched unset old = old
patched (set new) old = new

-- `auto_exit`, `stale_hard_stop` and `close_scope` are left alone by `None`.
pub record PositionRiskPatch (W : Type 0) : Type 0 where
  pub target_pnl : Patch (Option W)
  pub stop_loss_amount : Patch (Option W)
  pub stop_loss_pct_of_margin : Patch (Option W)
  pub auto_exit : Option Bool
  pub stale_hard_stop : Option Bool

pub record LegRiskPatch (W : Type 0) : Type 0 where
  pub target_pnl : Patch (Option W)
  pub stop_pnl : Patch (Option W)
  pub auto_exit : Option Bool
  pub close_scope : Option CloseScope

-- `Note`
pub record Note : Type 0 where
  pub user_id : ℕ
  pub position_id : ℕ
  pub kind : String
  pub body : String
  pub at : ℕ

module _ {W : Type 0} where
  unfoldable pub with_position_risk : PositionRiskPatch W → Position W → Position W
  with_position_risk patch pos = record pos {
    target_pnl = patched patch.target_pnl pos.target_pnl;
    stop_loss_amount = patched patch.stop_loss_amount pos.stop_loss_amount;
    stop_loss_pct_of_margin = patched patch.stop_loss_pct_of_margin pos.stop_loss_pct_of_margin;
    auto_exit = or_default patch.auto_exit pos.auto_exit;
    stale_hard_stop = or_default patch.stale_hard_stop pos.stale_hard_stop;
  }

  unfoldable pub set_position_risk : ℕ → ℕ → PositionRiskPatch W → Db W → Bool × Db W
  set_position_risk user_id pos_id patch db = (
    is_some (get_position user_id pos_id db),
    record db {
      positions =
          map
            (λ (p : Position W).
              if is_position user_id pos_id p then with_position_risk patch p else p)
            db.positions;
    },
  )

  unfoldable pub with_leg_risk : LegRiskPatch W → Leg W → Leg W
  with_leg_risk patch lg = record lg {
    target_pnl = patched patch.target_pnl lg.target_pnl;
    stop_pnl = patched patch.stop_pnl lg.stop_pnl;
    auto_exit = or_default patch.auto_exit lg.auto_exit;
    close_scope = or_default patch.close_scope lg.close_scope;
  }

  abbrev pub is_leg : ℕ → Leg W → Bool
  is_leg leg_id lg = lg.id == leg_id

  unfoldable pub set_leg_risk : ℕ → ℕ → LegRiskPatch W → Db W → Bool × Db W
  set_leg_risk user_id leg_id patch db = (
    any (λ (p : Position W). (p.user_id == user_id) && any (is_leg leg_id) p.legs) db.positions,
    record db {
      positions =
          map
            (λ (p : Position W).
              if p.user_id == user_id
              then record p {
                legs =
                    map (λ (lg : Leg W). if is_leg leg_id lg then with_leg_risk patch lg else lg)
                      p.legs;
              }
              else p)
            db.positions;
    },
  )

  -- The notes stand beside the other rows.
  unfoldable pub add_note : ℕ → ℕ → ℕ → String → String → Db W → List Note → Bool × List Note
  add_note now user_id pos_id kind body db notes =
      if is_some (get_position user_id pos_id db)
      then (
        true,
        record { user_id = user_id; position_id = pos_id; kind = kind; body = body; at = now }
            ∷ notes,
      )
      else (false, notes)
