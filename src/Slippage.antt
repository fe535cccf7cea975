-- ===== src/Slippage.antt =====
-- The paper-fill engine, backend/app/engines/slippage.py: walk the book within the trading band, add the
-- impact, and fall back to the mark on a thin book. Its numbers are `Decimal`.
pub mod Walk
pub mod Bounds
use delta_paper_trader.Prelude.{
  ◌≡◌, Bool, true, false, not, ◌&&◌, ◌||◌, Option, none, some, List, [], ◌∷◌, ◌++◌, if◌then◌else◌,
}
use delta_paper_trader.Float.{Float, ◌⊕◌, ◌⊖◌, ◌⊗◌, ◌⊘◌, ◌≤?◌, ◌<?◌, nought, min, max, truthy}
use delta_paper_trader.Types.{Side, buy, sell}

pub record BookLevel (W : Type 0) : Type 0 where
  pub price : W
  pub size : W

pub record OrderBook (W : Type 0) : Type 0 where
  pub bids : List (BookLevel W)
  pub asks : List (BookLevel W)

pub record Fill (W : Type 0) : Type 0 where
  pub side : Side
  pub requested_qty : W
  pub filled_qty : W
  pub fill_price : W
  pub vwap : W
  pub impact : W
  pub used_fallback : Bool
  pub band_capped : Bool
  pub mark : W
  pub best_bid : Option W
  pub best_ask : Option W
  pub mid : Option W
  pub spread : Option W
  pub slippage_vs_mark_bps : W
  pub slippage_vs_mid_bps : Option W
  pub consumed : List (W × W)

-- What `_walk` returns.
pub record Walked (W : Type 0) : Type 0 where
  pub filled : W
  pub vwap : Option W
  pub consumed : List (W × W)
  pub band_hit : Bool

-- The keyword arguments of `compute_fill`.
pub record FillParams (W : Type 0) : Type 0 where
  pub mark : W
  pub tick_size : W
  pub band : Option W
  pub slippage_ticks : W
  pub contract_value : W
  pub vol_24h : Option W
  pub k : W
  pub illiquid_floor : W

module _ {W : Type 0} ⦃f : Float W⦄ where
  -- `max((b.price for b in bids), default=None)`
  abbrev pub highest : List (BookLevel W) → Option W
  highest [] = none
  highest (b ∷ bs) = elim (highest bs) [ none ↦ some b.price | some m ↦ some (max b.price m) ]

  abbrev pub lowest : List (BookLevel W) → Option W
  lowest [] = none
  lowest (b ∷ bs) = elim (lowest bs) [ none ↦ some b.price | some m ↦ some (min b.price m) ]

  unfoldable pub best_bid : OrderBook W → Option W
  best_bid book = highest book.bids

  unfoldable pub best_ask : OrderBook W → Option W
  best_ask book = lowest book.asks

  unfoldable pub impact_fraction : W → Option W → W → W → W
  impact_fraction notional vol_24h k illiquid_floor = if k ≤? nought then nought else elim vol_24h [
    | none ↦ illiquid_floor
    | some v ↦
        if v ≤? nought then illiquid_floor else max nought (min (k ⊗ notional ⊘ v) illiquid_floor)
  ]

  -- The level lies outside the band: above it for a buy, below it for a sell.
  abbrev pub out_of_band : Side → Option W → W → Bool
  out_of_band side none price = false
  out_of_band buy (some band) price = band <? price
  out_of_band sell (some band) price = price <? band

  -- The loop of `_walk` over the levels left, with what remains, the cost and the levels taken.
  pub walk_from :
      Option W → Side → List (BookLevel W) → W → W → List (W × W) → W × W × List (W × W) × Bool
  walk_from band side [] remaining cost consumed = (remaining, cost, consumed, false)
  walk_from band side (lvl ∷ lvls) remaining cost consumed =
      let taken = min lvl.size remaining in
      let rest =
        walk_from band side lvls (remaining ⊖ taken) (cost ⊕ lvl.price ⊗ taken)
          (consumed ++ (lvl.price, taken) ∷ []) in
      if remaining ≤? nought
      then (remaining, cost, consumed, false)
      else if out_of_band side band lvl.price
      then (remaining, cost, consumed, true)
      else rest

  unfoldable pub walk : List (BookLevel W) → W → Option W → Side → Walked W
  walk levels qty band side =
      let (remaining, cost, consumed, band_hit) = walk_from band side levels qty nought [] in
      let filled = qty ⊖ remaining in
      record {
        filled = filled;
        vwap = if nought <? filled then some (cost ⊘ filled) else none;
        consumed = consumed;
        band_hit = band_hit;
      }

  -- `sorted` by price, stable: upwards for the asks, and with `reverse=True` downwards for the bids.
  abbrev pub before : Side → W → W → Bool
  before buy a b = a ≤? b
  before sell a b = b ≤? a

  pub insert_level : Side → BookLevel W → List (BookLevel W) → List (BookLevel W)
  insert_level side x [] = x ∷ []
  insert_level side x (y ∷ ys) =
      if before side x.price y.price then x ∷ y ∷ ys else y ∷ insert_level side x ys

  pub sort_levels : Side → List (BookLevel W) → List (BookLevel W)
  sort_levels side [] = []
  sort_levels side (x ∷ xs) = insert_level side x (sort_levels side xs)

  abbrev pub levels_for : Side → OrderBook W → List (BookLevel W)
  levels_for buy book = book.asks
  levels_for sell book = book.bids

  -- `price + x` for a buy, `price - x` for a sell
  abbrev pub worsen : Side → W → W → W
  worsen buy price x = price ⊕ x
  worsen sell price x = price ⊖ x

  abbrev pub clamp_to_band : Side → Option W → W → W
  clamp_to_band side none price = price
  clamp_to_band buy (some band) price = min price band
  clamp_to_band sell (some band) price = max price band

  unfoldable pub bps : W → W → W
  bps num ref = if truthy ref then num ⊘ ref ⊗ f.lit 10000 0 else nought

  abbrev pub opt_map₂ : (W → W → W) → Option W → Option W → Option W
  opt_map₂ g (some a) (some b) = some (g a b)
  opt_map₂ g (some a) none = none
  opt_map₂ g none b = none

  abbrev pub mid_of : OrderBook W → Option W
  mid_of book = opt_map₂ (λ a b. (a ⊕ b) ⊘ f.lit 2 0) (best_bid book) (best_ask book)

  abbrev pub spread_of : OrderBook W → Option W
  spread_of book = opt_map₂ (λ a b. b ⊖ a) (best_bid book) (best_ask book)

  abbrev half_of : Option W → W
  half_of none = nought
  half_of (some s) = s ⊘ f.lit 2 0

  abbrev mid_bps : W → Option W → Option W
  mid_bps price none = none
  mid_bps price (some m) = some (bps (price ⊖ m) m)

  unfoldable pub build :
      Side → W → W → W → W → W → Bool → Bool → W → OrderBook W → List (W × W) → Fill W
  build side requested filled fill_price vwap impact used_fallback band_capped mark book consumed =
      record {
        side = side;
        requested_qty = requested;
        filled_qty = filled;
        fill_price = fill_price;
        vwap = vwap;
        impact = impact;
        used_fallback = used_fallback;
        band_capped = band_capped;
        mark = mark;
        best_bid = best_bid book;
        best_ask = best_ask book;
        mid = mid_of book;
        spread = spread_of book;
        slippage_vs_mark_bps = bps (fill_price ⊖ mark) mark;
        slippage_vs_mid_bps = mid_bps fill_price (mid_of book);
        consumed = consumed;
      }

  -- A thin or empty book, or one outside the band: a synthetic fill of all that was asked for.
  unfoldable pub fallback_fill : Side → W → OrderBook W → FillParams W → Walked W → Fill W
  unfolding build
  fallback_fill side qty book p walked =
      let slip = p.slippage_ticks ⊗ p.tick_size in
      let price =
        clamp_to_band side p.band
          (worsen side (worsen side p.mark (half_of (spread_of book))) slip) in
      build side qty qty price price nought true walked.band_hit p.mark book walked.consumed

  unfoldable pub book_fill : Side → W → OrderBook W → FillParams W → Walked W → W → Fill W
  unfolding build
  book_fill side qty book p walked vwap =
      let notional = vwap ⊗ walked.filled ⊗ p.contract_value in
      let impact = vwap ⊗ impact_fraction notional p.vol_24h p.k p.illiquid_floor in
      let price = clamp_to_band side p.band (worsen side vwap impact) in
      build side qty walked.filled price vwap impact false
        (walked.band_hit && (walked.filled <? qty)) p.mark book walked.consumed

  unfoldable pub compute_fill : Side → W → OrderBook W → FillParams W → Fill W
  compute_fill side qty book p =
      let walked = walk (sort_levels side (levels_for side book)) qty p.band side in
      if walked.filled ≤? nought then fallback_fill side qty book p walked else elim walked.vwap [
        | none ↦ fallback_fill side qty book p walked
        | some vwap ↦ book_fill side qty book p walked vwap
      ]
