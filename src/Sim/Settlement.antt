-- ===== src/Sim/Settlement.antt =====
-- The settlement of expired legs, backend/app/sim/service.py: `leg_is_expired`, `fetch_settlement_prices` and
-- `settle_expired_legs`. The rows that Delta answers with are a parameter.
pub mod Settles
use Prim.Native.Char.{code}
use Prim.Native.String.{String}
use delta_paper_trader.Prelude.{
  ℕ, zero, suc, ◌+◌, ◌-◌, ◌*◌, ◌==◌, leb, Bool, true, false, not, ◌&&◌, ◌||◌, Option, none, some,
  List, [], ◌∷◌, any, all, filter, length, is_empty, same_text, if◌then◌else◌,
}
use delta_paper_trader.Float.{Float}
use delta_paper_trader.Chain.{Date, date, is_digit, is_expiry_live}
use delta_paper_trader.Models.{Leg, Position, settlement, expiry_close, is_opened, open_legs}
use delta_paper_trader.Sim.{
  quote_failed, MarketView, Db, Outcome, done, no_account, MarginReply, closable, is_live,
  get_position, close_leg, close_position,
}

-- The code points of a text.
abbrev pub codes : String → List ℕ
codes String.[] = []
codes (String.◌∷◌ c s) = code c ∷ codes s

abbrev pub nth : ℕ → List ℕ → ℕ
nth n [] = 0
nth zero (c ∷ cs) = c
nth (suc n) (c ∷ cs) = nth n cs

abbrev pub digit_at : List ℕ → ℕ → ℕ
digit_at cs n = nth n cs - b'0'

abbrev pub is_iso : List ℕ → Bool
is_iso cs =
    (length cs == 10)
    && (nth 4 cs == b'-')
    && (nth 7 cs == b'-')
    && all (λ n. is_digit (nth n cs)) (0 ∷ 1 ∷ 2 ∷ 3 ∷ 5 ∷ 6 ∷ 8 ∷ 9 ∷ [])

-- `date.fromisoformat` on YYYY-MM-DD, the form of every expiry here; `ValueError` is `none`.
unfoldable pub from_iso : List ℕ → Option Date
from_iso cs =
    let year = digit_at cs 0 * 1000 + digit_at cs 1 * 100 + digit_at cs 2 * 10 + digit_at cs 3 in
    if is_iso cs && leb 1 year
    then date year (digit_at cs 5 * 10 + digit_at cs 6) (digit_at cs 8 * 10 + digit_at cs 9)
    else none

-- An element of `data["result"]`; an empty symbol is `none`.
pub record Product (W : Type 0) : Type 0 where
  pub symbol : Option String
  pub settlement_price : Option W

abbrev pub is_for : String → Option String → Bool
is_for symbol none = false
is_for symbol (some s) = same_text s symbol

abbrev pub expired_by : ℕ → Option Date → Bool
expired_by now none = false
expired_by now (some e) = not (is_expiry_live e now)

abbrev pub count : Bool → ℕ → ℕ
count true n = suc n
count false n = n

module _ {W : Type 0} where
  abbrev pub or_this : Option W → Bool → Option W → Option W
  or_this (some later) hit price = some later
  or_this none true price = price
  or_this none false price = none

  -- `prices.get(symbol)` of what `fetch_settlement_prices` collects: the last row of the symbol with a price.
  unfoldable pub settlement_price_of : List (Product W) → String → Option W
  settlement_price_of [] symbol = none
  settlement_price_of (p ∷ ps) symbol =
      or_this (settlement_price_of ps symbol) (is_for symbol p.symbol) p.settlement_price

  unfoldable pub leg_is_expired : Leg W → ℕ → Bool
  leg_is_expired lg now = expired_by now (from_iso (codes lg.expiry))

  abbrev pub expired_legs : ℕ → Position W → List (Leg W)
  expired_legs now p = filter (λ (lg : Leg W). leg_is_expired lg now) (open_legs p.legs)

  -- The query and the comprehension `affected`.
  unfoldable pub affected : ℕ → List (Position W) → List (Position W)
  affected now ps =
      filter (λ (p : Position W). closable p && not (is_empty (expired_legs now p))) ps

-- What the loops carry: the rows, the count, and whether a price was missing.
pub record Settling (W : Type 0) : Type 0 where
  pub db : Db W
  pub settled : ℕ
  pub deferred : Bool

module _ {W : Type 0} where
  abbrev pub counted : Settling W → Outcome W → Option (Settling W)
  counted st (done b db) = some (record st { db = db; settled = count b st.settled })
  counted st no_account = none
  counted st quote_failed = none

  abbrev pub then_settle :
      (Settling W → Option (Settling W)) → Option (Settling W) → Option (Settling W)
  then_settle next none = none
  then_settle next (some st) = next st

  abbrev pub any_open : Option (Position W) → Bool
  any_open none = false
  any_open (some p) = not (is_empty (open_legs p.legs))

  abbrev pub after_close : Settling W → Outcome W → Option (Settling W)
  after_close st (done b db) = some (record st { db = db })
  after_close st no_account = none
  after_close st quote_failed = none

-- `quotes` answers for `quote_margin`, and `price_of` for `prices.get`. `none` is an exception.
module _ {W : Type 0} ⦃f : Float W⦄ (mv : MarketView W) (now : ℕ)
    (quotes : Position W → List (Leg W) → MarginReply W) (price_of : String → Option W) where
  -- The body of the loop over the expired legs.
  abbrev pub settle_leg : Position W → Leg W → Option W → Settling W → Option (Settling W)
  settle_leg p lg none st = some (record st { deferred = true })
  settle_leg p lg (some sp) st =
      counted st (close_leg mv now quotes p.user_id p.id lg.id settlement (some sp) st.db)

  unfoldable pub settle_legs : Position W → List (Leg W) → Settling W → Option (Settling W)
  settle_legs p [] st = some st
  settle_legs p (lg ∷ legs) st =
      then_settle (settle_legs p legs) (settle_leg p lg (price_of lg.symbol) st)

  -- What follows the loop for one position: the survivors are closed, unless a price was missing.
  unfoldable pub close_survivors : Position W → Settling W → Option (Settling W)
  close_survivors p st =
      if st.deferred
      then some st
      else if any_open (get_position p.user_id p.id st.db)
      then after_close st (close_position mv now p.user_id p.id expiry_close st.db)
      else some st

  unfoldable pub settle_position : Position W → Settling W → Option (Settling W)
  settle_position p st =
      then_settle (close_survivors p)
        (settle_legs p (expired_legs now p) (record st { deferred = false }))

  unfoldable pub settle_all : List (Position W) → Settling W → Option (Settling W)
  settle_all [] st = some st
  settle_all (p ∷ ps) st = then_settle (settle_all ps) (settle_position p st)

-- `products` is Delta's answer, asked for when some position is affected; `none` is a failed request.
module _ {W : Type 0} ⦃f : Float W⦄ (mv : MarketView W) (now : ℕ)
    (quotes : Position W → List (Leg W) → MarginReply W)
    (products : Option (List (Product W))) where
  abbrev pub settle_with :
      List (Position W) → Option (List (Product W)) → Db W → Option (Settling W)
  settle_with ps none db = none
  settle_with ps (some rows) db =
      settle_all mv now quotes (settlement_price_of rows) ps
        (record { db = db; settled = 0; deferred = false })

  unfoldable pub settle_expired_legs : Db W → Option (Settling W)
  settle_expired_legs db =
      let ps = affected now db.positions in
      if is_empty ps
      then some (record { db = db; settled = 0; deferred = false })
      else settle_with ps products db
