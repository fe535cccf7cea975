-- ===== src/Slippage/Walk.antt =====
-- The walk over the book: it fills no more than asked, takes only levels within the band, best first.
use delta_paper_trader.Prelude.{
  ◌≡◌, Bool, true, false, Option, none, some, List, [], ◌∷◌, ◌++◌, arith, Bool-cases, inl, inr, All,
}
use mathlib.Core.List.{Perm}
use mathlib.Core.List.Perm
use delta_paper_trader.Float.{Float, ◌⊕◌, ◌⊖◌, ◌⊗◌, ◌≼◌, ◌≤?◌, nought, min}
use delta_paper_trader.Float.Laws.{
  IsOrdered, IsRounded, min-le_right, le-min, nought-le-sub, sub-le,
}
use delta_paper_trader.Types.{Side, buy, sell}
use delta_paper_trader.Slippage.{BookLevel, out_of_band, walk_from, walk, before, insert_level}

module _ {W : Type 0} ⦃f : Float W⦄ where
  -- The price is no worse than the band.
  abbrev pub InBand : Side → Option W → W → Type 0
  InBand side none price = Unit
  InBand buy (some band) price = price ≼ band
  InBand sell (some band) price = band ≼ price

  -- A level taken lies in the band and has a size that is not negative.
  abbrev pub Taken : Side → Option W → W × W → Type 0
  Taken side band (price, taken) = InBand side band price × (nought ≼ taken)

  abbrev pub Sizes : List (BookLevel W) → Type 0
  Sizes = All (λ (l : BookLevel W). nought ≼ l.size)

  -- No price comes after one that is worse for the taker.
  abbrev pub IsSorted : Side → List (BookLevel W) → Type 0
  IsSorted side [] = Unit
  IsSorted side (x ∷ xs) =
      All (λ (y : BookLevel W). before side x.price y.price ≡ true) xs × IsSorted side xs

  -- The prices never fall, and never rise.
  abbrev pub Ascending : List (BookLevel W) → Type 0
  Ascending [] = Unit
  Ascending (x ∷ xs) = All (λ (y : BookLevel W). x.price ≼ y.price) xs × Ascending xs

  abbrev pub Descending : List (BookLevel W) → Type 0
  Descending [] = Unit
  Descending (x ∷ xs) = All (λ (y : BookLevel W). y.price ≼ x.price) xs × Descending xs

module _ {A : Type 0} where
  All-snoc : (P : A → Type 0) (xs : List A) (y : A) → All P xs → P y → All P (xs ++ y ∷ [])
  All-snoc P [] y h k = (k, tt)
  All-snoc P (x ∷ xs) y h k = (h.0, All-snoc P xs y h.1 k)

module _ {W : Type 0} ⦃f : Float W⦄ (o : IsOrdered W) (r : IsRounded W) where
  out_of_band-InBand :
      (side : Side) (band : Option W) (price : W)
      → out_of_band side band price ≡ false
      → InBand side band price
  out_of_band-InBand buy none price h = tt
  out_of_band-InBand sell none price h = tt
  out_of_band-InBand buy (some band) price h = ground arith
  out_of_band-InBand sell (some band) price h = ground arith

  -- What the loop keeps: the rest lies between 0 and the quantity, and all that is taken is in the band.
  abbrev Kept : Side → Option W → W → W × W × List (W × W) × Bool → Type 0
  Kept side band qty (remaining, cost, consumed, hit) =
      (nought ≼ remaining) × (remaining ≼ qty) × All (Taken side band) consumed

  walk_from-Kept :
      (band : Option W) (side : Side) (lvls : List (BookLevel W)) (qty remaining cost : W)
      (consumed : List (W × W))
      → Sizes lvls
      → nought ≼ remaining
      → remaining ≼ qty
      → All (Taken side band) consumed
      → Kept side band qty (walk_from band side lvls remaining cost consumed)
  unfolding walk_from
  walk_from-Kept band side [] qty remaining cost consumed sz lo hi k = (lo, hi, k)
  walk_from-Kept band side (lvl ∷ lvls) qty remaining cost consumed sz lo hi k =
      elim (Bool-cases (remaining ≤? nought)) [
        | inl done ↦ rw done (lo, hi, k)
        | inr more ↦ elim (Bool-cases (out_of_band side band lvl.price)) [
          | inl out ↦ rw (more, out) (lo, hi, k)
          | inr inside ↦
              let taken = min lvl.size remaining in
              let pos = le-min o lvl.size remaining nought sz.0 lo in
              let lo' = nought-le-sub o r remaining taken (min-le_right o lvl.size remaining) in
              let hi' =
                o.le_trans (remaining ⊖ taken) remaining qty (sub-le o r remaining taken pos) hi in
              rw (more, inside)
                (walk_from-Kept band side lvls qty (remaining ⊖ taken) (cost ⊕ lvl.price ⊗ taken)
                  (consumed ++ (lvl.price, taken) ∷ []) sz.1 lo' hi'
                  (All-snoc (Taken side band) consumed (lvl.price, taken) k
                    (out_of_band-InBand side band lvl.price inside, pos)))
        ]
      ]

  -- On a book of sizes that are not negative, for a quantity that is not negative, the walk fills
  -- between nothing and that quantity, and every level that it takes is within the band and for an
  -- amount that is not negative.
  pub walk_in_bounds :
      (levels : List (BookLevel W)) (qty : W) (band : Option W) (side : Side)
      → Sizes levels
      → nought ≼ qty
      → let walked = walk levels qty band side in
        (nought ≼ walked.filled) × (walked.filled ≼ qty) × All (Taken side band) walked.consumed
  unfolding walk
  walk_in_bounds levels qty band side sz q =
      let k = walk_from-Kept band side levels qty qty nought [] sz q (o.le_refl qty) tt in
      (nought-le-sub o r qty _ k.1, sub-le o r qty _ k.0, k.2)

  pub insert_level-All :
      (side : Side) (P : BookLevel W → Type 0) (x : BookLevel W) (ys : List (BookLevel W))
      → P x
      → All P ys
      → All P (insert_level side x ys)
  unfolding insert_level
  insert_level-All side P x [] h k = (h, tt)
  insert_level-All side P x (y ∷ ys) h k = elim (Bool-cases (before side x.price y.price)) [
    | inl e ↦ rw e (h, k)
    | inr e ↦ rw e (k.0, insert_level-All side P x ys h k.1)
  ]
