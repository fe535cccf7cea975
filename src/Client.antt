-- ===== src/Client.antt =====
-- The signed Delta client, backend/app/live/client.py: the only code that sends an order. The HTTP
-- transport is a parameter; the headers and the signature that `_call` adds are left out.
pub mod RingFence
use delta_paper_trader.Prelude.{
  ℕ, ◌≡◌, Bool, true, false, not, Option, none, some, List, [], ◌∷◌, leb, if◌then◌else◌, ◌||◌,
}
use delta_paper_trader.Prelude.Int.{ℤ}
use delta_paper_trader.Types.{Side, buy, sell}
use delta_paper_trader.Float.{Float, ◌⊗◌}

-- `OrderRefused`, by its two messages.
pub data Refusal : Type 0 where
  not_reduce_only trading_disabled : Refusal

-- The exceptions that leave a client call: refused here, `DeltaError` with its status, a failure of
-- the transport, and a reply that is not of the form the code reads.
pub data Raised : Type 0 where
  order_refused : Refusal → Raised
  delta_error : ℕ → Raised
  http_error : Raised
  malformed : Raised

pub data Result (A : Type 0) : Type 0 where
  ok : A → Result A
  raised : Raised → Result A

-- A call on the state `E` of the world.
abbrev pub M : Type 0 → Type 0 → Type 0
M E A = E → Result A × E

module _ {E : Type 0} where
  infixl 5 ◌>>=◌ ◌>>◌
  abbrev pub ◌>>=◌ : {A B : Type 0} → M E A → (A → M E B) → M E B
  ◌>>=◌ m k e = let (r, e') = m e in elim r [ ok a ↦ k a e' | raised x ↦ (raised x, e') ]

  abbrev pub ◌>>◌ : {A B : Type 0} → M E A → M E B → M E B
  m >> k = m >>= λ _. k

  abbrev pub pure : {A : Type 0} → A → M E A
  pure a e = (ok a, e)

  abbrev pub raise : {A : Type 0} → Raised → M E A
  raise x e = (raised x, e)

pub data Kind (W : Type 0) : Type 0 where
  market_order : Kind W
  ioc_limit : W → Kind W
  stop_market : W → Kind W

-- The body of `POST /v2/orders`. `reduce_only` is `none` where the key is missing.
pub record Order (W : Type 0) : Type 0 where
  pub product_id : ℕ
  pub size : ℕ
  pub side : Side
  pub kind : Kind W
  pub reduce_only : Option Bool

-- One side of a position bracket: its trigger, and its limit if it is a limit order.
pub record SideOrder (W : Type 0) : Type 0 where
  pub stop_price : W
  pub limit_price : Option W

pub record Bracket (W : Type 0) : Type 0 where
  pub product_id : ℕ
  pub stop_loss_order : Option (SideOrder W)
  pub take_profit_order : Option (SideOrder W)

pub data Request (W : Type 0) : Type 0 where
  get_positions get_wallet get_stop_orders : Request W
  get_fills : List ℕ → Request W
  post_order : Order W → Request W
  post_bracket : Bracket W → Request W
  delete_order : ℕ → ℕ → Request W

-- A row of `/v2/positions/margined`, as far as `real_sizes` reads it.
pub record PositionRow : Type 0 where
  pub product_id : ℕ
  pub size : ℤ

-- What a reply's `result` holds.
pub data Payload : Type 0 where
  position_rows : List PositionRow → Payload
  nothing : Payload
  other : Payload

-- `broken` is a transport failure; a reply has its status and the field `success`.
pub data Answer : Type 0 where
  reply : ℕ → Bool → Payload → Answer
  broken : Answer

abbrev pub Transport : Type 0 → Type 0 → Type 0
Transport W E = Request W → E → Answer × E

module _ {W : Type 0} {E : Type 0} ⦃f : Float W⦄ (send : Transport W E) where
  abbrev read_answer : Answer → Result Payload
  read_answer (reply status success payload) =
      if leb 400 status || not success then raised (delta_error status) else ok payload
  read_answer broken = raised http_error

  -- `_call`
  unfoldable pub call : Request W → M E Payload
  call req e = let (a, e') = send req e in (read_answer a, e')

  abbrev rows_of : Payload → M E (List PositionRow)
  rows_of (position_rows rows) = pure rows
  rows_of nothing = pure []
  rows_of other = raise malformed

  unfoldable pub positions : M E (List PositionRow)
  positions = do rows_of (← call get_positions)

  -- `dict(...)` of a result that is `null` or a list of rows raises.
  abbrev pub as_dict : Payload → M E (Unit {0})
  as_dict nothing = raise malformed
  as_dict other = pure tt
  as_dict (position_rows []) = pure tt
  as_dict (position_rows (row ∷ rows)) = raise malformed

  -- `_place`, where `enabled` is `live_trading_enabled`
  unfoldable pub place : Bool → Order W → M E (Unit {0})
  place enabled order = elim order.reduce_only [
    | some b ↦
        if not b
        then raise (order_refused not_reduce_only)
        else if not enabled
        then raise (order_refused trading_disabled)
        else (call (post_order order) >>= as_dict)
    | none ↦ raise (order_refused not_reduce_only)
  ]

  unfoldable pub close_ioc : Bool → ℕ → Side → ℕ → W → M E (Unit {0})
  close_ioc enabled product_id side size limit_price = place enabled (record {
    product_id = product_id;
    size = size;
    side = side;
    kind = ioc_limit limit_price;
    reduce_only = some true;
  })

  unfoldable pub close_market : Bool → ℕ → Side → ℕ → M E (Unit {0})
  close_market enabled product_id side size = place enabled (record {
    product_id = product_id;
    size = size;
    side = side;
    kind = market_order;
    reduce_only = some true;
  })

  unfoldable pub place_stop : Bool → ℕ → Side → ℕ → W → M E (Unit {0})
  place_stop enabled product_id side size stop_price = place enabled (record {
    product_id = product_id;
    size = size;
    side = side;
    kind = stop_market stop_price;
    reduce_only = some true;
  })

  abbrev far_price : Side → W → W → W
  far_price sell trigger tick = tick
  far_price buy trigger tick = trigger ⊗ f.lit 3 0

  -- `side_order` and `body` inside `place_bracket`
  abbrev side_order : Side → W → Bool → W → SideOrder W
  side_order close_side tick limit trigger = record {
    stop_price = trigger;
    limit_price = if limit then some (far_price close_side trigger tick) else none;
  }

  abbrev opt_side : Side → W → Bool → Option W → Option (SideOrder W)
  opt_side close_side tick limit none = none
  opt_side close_side tick limit (some trigger) = some (side_order close_side tick limit trigger)

  abbrev bracket_body : ℕ → Side → Option W → Option W → W → Bool → Bracket W
  bracket_body product_id close_side sl tp tick limit = record {
    product_id = product_id;
    stop_loss_order = opt_side close_side tick limit sl;
    take_profit_order = opt_side close_side tick limit tp;
  }

  -- `True` for "market", `False` for "limit". The fallback is made on `DeltaError` alone.
  unfoldable pub place_bracket : Bool → ℕ → Side → Option W → Option W → W → M E Bool
  place_bracket enabled product_id close_side sl tp tick e =
      if not enabled
      then (raised (order_refused trading_disabled), e)
      else (let (r, e') =
            call (post_bracket (bracket_body product_id close_side sl tp tick false)) e in
          elim r [
            | ok _ ↦ (ok true, e')
            | raised x ↦ elim x [
              | delta_error c ↦
                  (call (post_bracket (bracket_body product_id close_side sl tp tick true))
                      >> pure false)
                    e'
              | order_refused w ↦ (raised (order_refused w), e')
              | http_error ↦ (raised http_error, e')
              | malformed ↦ (raised malformed, e')
            ]
          ])

  unfoldable pub cancel : ℕ → ℕ → M E (Unit {0})
  cancel product_id order_id = call (delete_order order_id product_id) >> pure tt
