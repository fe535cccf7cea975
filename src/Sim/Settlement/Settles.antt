-- ===== src/Sim/Settlement/Settles.antt =====
-- What the settlement of a position leaves.
use Prim.Native.String.{String}
use delta_paper_trader.Prelude.{
  ℕ, ◌==◌, ◌≡◌, Bool, false, not, Option, none, some, List, any, filter, is_some, In,
}
use delta_paper_trader.Float.{Float}
use delta_paper_trader.Float.Laws.{IsOrdered, IsRounded}
use delta_paper_trader.Models.{Leg, Position, open_legs}
use delta_paper_trader.Sim.{is_other_error, MarketView, Db, MarginReply, get_position}
use delta_paper_trader.Sim.Steps.{Held}
use delta_paper_trader.Sim.Settlement.{Settling, expired_legs}

module _ {W : Type 0} where
  -- The legs without those that have the key of one of the first.
  abbrev pub without : List (Leg W) → List (Leg W) → List (Leg W)
  without gone legs = filter (λ (l : Leg W). not (any (λ (e : Leg W). l.id == e.id) gone)) legs

module _ {W : Type 0} ⦃f : Float W⦄ (mv : MarketView W) (now : ℕ) (o : IsOrdered W)
    (r : IsRounded W) (quotes : Position W → List (Leg W) → MarginReply W)
    (calm : (q : Position W) (legs : List (Leg W)) → is_other_error (quotes q legs) ≡ false)
    (price_of : String → Option W) where
  abbrev pub has_settled : Leg W → Bool
  has_settled lg = is_some (price_of lg.symbol)

  -- The position is held with the open legs that the settled ones leave.
  abbrev Leaves : Position W → Position W → List (Leg W) → List (Leg W) → Settling W → Type 0
  Leaves p p' gone legs st' =
      Held p.user_id p.id p' st'.db × (open_legs p'.legs ≡ without gone legs)

  -- A price is missing for some expired leg, and the other expired legs are the ones that were closed.
  abbrev pub IsDeferred : Position W → Db W → Type 0
  IsDeferred p db' =
      (lg : Leg W) × (p' : Position W) × In lg (expired_legs now p)
      × (price_of lg.symbol ≡ none)
      × (get_position p.user_id p.id db' ≡ some p')
      × (open_legs p'.legs ≡ without (filter has_settled (expired_legs now p)) (open_legs p.legs))
