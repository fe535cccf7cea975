-- ===== src/Slippage/Bounds.antt =====
-- Bounds on a paper fill: its price, its quantity and its impact.
use delta_paper_trader.Prelude.{
  ◌≡◌, refl, Option, none, some, List, [], ◌∷◌, arith, Bool-cases, inl, inr, All,
}
use delta_paper_trader.Float.{Float, ◌⊗◌, ◌⊘◌, ◌≼◌, ◌≤?◌, nought, min}
use delta_paper_trader.Float.Laws.{
  IsOrdered, IsRounded, min-le_right, max-le, le-max_left, le-max_right,
}
use delta_paper_trader.Types.{Side, buy, sell}
use delta_paper_trader.Slippage.{
  BookLevel, OrderBook, Fill, FillParams, Walked, impact_fraction, walk, sort_levels, levels_for,
  clamp_to_band, fallback_fill, book_fill, compute_fill,
}
use delta_paper_trader.Slippage.Walk.{InBand, Taken, Sizes, walk_in_bounds, insert_level-All}

module _ {W : Type 0} ⦃f : Float W⦄ where
  -- What every fill satisfies.
  abbrev pub Bounded : Side → W → Option W → Fill W → Type 0
  Bounded side qty band fill =
      InBand side band fill.fill_price
      × (nought ≼ fill.filled_qty)
      × (fill.filled_qty ≼ qty)
      × (fill.requested_qty ≡ qty)
      × All (Taken side band) fill.consumed

module _ {W : Type 0} ⦃f : Float W⦄ (o : IsOrdered W) (r : IsRounded W) where
  -- Where the floor for illiquid books is not negative, the impact lies between 0 and that floor,
  -- whatever the volume and the notional.
  pub impact_fraction_bounds :
      (notional : W) (vol : Option W) (k floor : W)
      → nought ≼ floor
      → (nought ≼ impact_fraction notional vol k floor)
        × (impact_fraction notional vol k floor ≼ floor)
  unfolding impact_fraction
  impact_fraction_bounds notional none k floor h = ground (arith, o.le_refl nought, o.le_refl floor)
  impact_fraction_bounds notional (some v) k floor h =
      let capped = min (k ⊗ notional ⊘ v) floor in
      ground (
        arith,
        o.le_refl nought,
        o.le_refl floor,
        le-max_left o nought capped,
        max-le o nought capped floor h (min-le_right o (k ⊗ notional ⊘ v) floor),
      )

  clamp-InBand :
      (side : Side) (band : Option W) (price : W) → InBand side band (clamp_to_band side band price)
  clamp-InBand buy none price = tt
  clamp-InBand sell none price = tt
  clamp-InBand buy (some band) price = min-le_right o price band
  clamp-InBand sell (some band) price = le-max_right o price band

  Sizes-sort_levels :
      (side : Side) (xs : List (BookLevel W)) → Sizes xs → Sizes (sort_levels side xs)
  unfolding sort_levels
  Sizes-sort_levels side [] h = tt
  Sizes-sort_levels side (x ∷ xs) h =
      insert_level-All o r side (λ (l : BookLevel W). nought ≼ l.size) x (sort_levels side xs) h.0
        (Sizes-sort_levels side xs h.1)

  fallback_fill-Bounded :
      (side : Side) (qty : W) (book : OrderBook W) (p : FillParams W) (w : Walked W)
      → nought ≼ qty
      → All (Taken side p.band) w.consumed
      → Bounded side qty p.band (fallback_fill side qty book p w)
  unfolding fallback_fill
  fallback_fill-Bounded side qty book p w q k =
      (clamp-InBand side p.band _, q, o.le_refl qty, refl, k)

  book_fill-Bounded :
      (side : Side) (qty : W) (book : OrderBook W) (p : FillParams W) (w : Walked W) (vwap : W)
      → nought ≼ w.filled
      → w.filled ≼ qty
      → All (Taken side p.band) w.consumed
      → Bounded side qty p.band (book_fill side qty book p w vwap)
  unfolding book_fill
  book_fill-Bounded side qty book p w vwap lo hi k = (clamp-InBand side p.band _, lo, hi, refl, k)

  -- On a book of sizes that are not negative, for a quantity that is not negative, every fill, the
  -- fallback's too, is priced within the trading band, keeps the quantity asked for, is for between
  -- nothing and that quantity, and takes only levels within the band.
  pub compute_fill-Bounded :
      (side : Side) (qty : W) (book : OrderBook W) (p : FillParams W)
      → Sizes (levels_for side book)
      → nought ≼ qty
      → Bounded side qty p.band (compute_fill side qty book p)
  unfolding compute_fill
  compute_fill-Bounded side qty book p sz q =
      let w = walk (sort_levels side (levels_for side book)) qty p.band side in
      let (lo, hi, k) =
        walk_in_bounds o r (sort_levels side (levels_for side book)) qty p.band side
          (Sizes-sort_levels side (levels_for side book) sz) q in
      elim (Bool-cases (w.filled ≤? nought)) [
        | inl thin ↦ rw thin (fallback_fill-Bounded side qty book p w q k)
        | inr deep ↦ rw deep (
            by_vwap w.vwap (λ v. book_fill-Bounded side qty book p w v lo hi k)
              (fallback_fill-Bounded side qty book p w q k))
      ]
    where
      by_vwap :
          (v : Option W)
          → ((x : W)
              → Bounded side qty p.band (
                  book_fill side qty book p
                    (walk (sort_levels side (levels_for side book)) qty p.band side)
                    x))
          → Bounded side qty p.band (
              fallback_fill side qty book p
                (walk (sort_levels side (levels_for side book)) qty p.band side))
          → Bounded side qty p.band (elim v as (λ z. Fill W) [
            | none ↦
                fallback_fill side qty book p
                  (walk (sort_levels side (levels_for side book)) qty p.band side)
            | some x ↦
                book_fill side qty book p
                  (walk (sort_levels side (levels_for side book)) qty p.band side)
                  x
          ])
      by_vwap none h k' = k'
      by_vwap (some x) h k' = h x
