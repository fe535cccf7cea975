-- ===== src/Margin/ImpliedVol.antt =====
-- The bisection for the implied volatility keeps its bracket.
use delta_paper_trader.Prelude.{
  ◌⊎◌, inl, inr, Bool-cases, ℕ, zero, suc, ◌≡◌, refl, Bool, true, false, ◌||◌, arith, if◌then◌else◌,
}
use delta_paper_trader.Float.{Float, ◌⊕◌, ◌⊗◌, ◌≼◌, ◌≺◌, ◌≤?◌, ◌<?◌, nought}
use delta_paper_trader.Float.Laws.{IsOrdered, HasMidpoints}
use delta_paper_trader.Types.{OptType}
use delta_paper_trader.Margin.{half, bisect, bs_price_at, implied_vol_in, intrinsic}

module _ {W : Type 0} ⦃f : Float W⦄ where
  -- The bracket lies in the first one and the price between the values at its ends.
  abbrev pub Brackets : (W → W) → W → W → W → W × W → Type 0
  Brackets value price lo hi (a, b) =
      (lo ≼ a) × (a ≼ b) × (b ≼ hi) × (value a ≼ price) × (price ≺ value b)

  -- `n` times one half of the bracket, cut at its middle, was kept.
  abbrev pub IsHalved : ℕ → W → W → W × W → Type 0
  IsHalved zero lo hi (a, b) = (a ≡ lo) × (b ≡ hi)
  IsHalved (suc n) lo hi ab =
      IsHalved n lo (half ⊗ (lo ⊕ hi)) ab ⊎ IsHalved n (half ⊗ (lo ⊕ hi)) hi ab

  bisect-IsHalved :
      (value : W → W) (price : W) (n : ℕ) (lo hi : W)
      → IsHalved n lo hi (bisect value price n lo hi)
  unfolding bisect
  bisect-IsHalved value price zero lo hi = (refl, refl)
  bisect-IsHalved value price (suc n) lo hi =
      let mid = half ⊗ (lo ⊕ hi) in
      elim (Bool-cases (price <? value mid)) [
        | inl e ↦ rw e (inl (bisect-IsHalved value price n lo mid))
        | inr e ↦ rw e (inr (bisect-IsHalved value price n mid hi))
      ]

module _ {W : Type 0} ⦃f : Float W⦄ (o : IsOrdered W) (halves : HasMidpoints W) where
  bisect-Brackets :
      (value : W → W) (price lo hi : W) (n : ℕ) (a b : W)
      → Brackets value price lo hi (a, b)
      → Brackets value price lo hi (bisect value price n a b)
  unfolding bisect
  bisect-Brackets value price lo hi zero a b k = k
  bisect-Brackets value price lo hi (suc n) a b k =
      let mid = half ⊗ (a ⊕ b) in
      let low = halves.low a b k.1 in
      let high = halves.high a b k.1 in
      step (bisect-Brackets value price lo hi n) mid low high (price <? value mid) refl
    where
      step :
          ((x y : W)
            → Brackets value price lo hi (x, y)
            → Brackets value price lo hi (bisect value price n x y))
          → (mid : W) → a ≼ mid
          → mid ≼ b
          → (high : Bool) → (price <? value mid) ≡ high
          → Brackets value price lo hi
              (bisect value price n (if high then a else mid) (if high then mid else b))
      step again mid low high true over =
          again a mid (k.0, low, o.le_trans mid b hi high k.2, k.3, over)
      step again mid low high false under =
          again mid b (o.le_trans lo a mid k.0 low, high, k.2, ground arith, k.4)

  -- For an option with time left, a positive spot and a positive price that is above its intrinsic
  -- value, where the lower end of the bracket is at most the upper and the price is between the model's
  -- values at the two ends, the implied volatility is the middle of two volatilities that come from the bracket by
  -- halving it 64 times and whose model values enclose the price, and lies between them.
  pub implied_vol_encloses :
      (opt : OptType) (s k t price lo hi : W)
      → nought ≺ t
      → nought ≺ price
      → nought ≺ s
      → intrinsic opt s k ≺ price
      → lo ≼ hi
      → bs_price_at opt s k t lo nought ≼ price
      → price ≺ bs_price_at opt s k t hi nought
      → (a : W) × (b : W) × Brackets
          (λ sigma. bs_price_at opt s k t sigma nought)
          price
          lo
          hi
          (a, b)
        × IsHalved 64 lo hi (a, b)
        × (implied_vol_in opt s k t price lo hi ≡ half ⊗ (a ⊕ b))
        × (a ≼ implied_vol_in opt s k t price lo hi)
        × (implied_vol_in opt s k t price lo hi ≼ b)
  unfolding implied_vol_in
  implied_vol_encloses opt s k t price lo hi ht hp hs above h low high =
      let value = λ (sigma : W). bs_price_at opt s k t sigma nought in
      let ab = bisect value price 64 lo hi in
      let br =
        bisect-Brackets value price lo hi 64 lo hi (o.le_refl lo, h, o.le_refl hi, low, high) in
      let timed : ((t ≤? nought) || ((price ≤? nought) || (s ≤? nought))) ≡ false = ground arith in
      let worth : (price ≤? intrinsic opt s k) ≡ false = ground arith in
      (
        ab.0,
        ab.1,
        br,
        bisect-IsHalved value price 64 lo hi,
        rw (timed, worth) refl,
        rw (timed, worth) (halves.low ab.0 ab.1 br.1),
        rw (timed, worth) (halves.high ab.0 ab.1 br.1),
      )
