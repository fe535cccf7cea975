-- ===== src/Money/Laws.antt =====
-- Order facts of the money model that hold under rounding.
use delta_paper_trader.Prelude.{arith}
use delta_paper_trader.Float.{Float, ◌⊖◌, ◌⊗◌, ◌≼◌, nought, one}
use delta_paper_trader.Float.Laws.{IsOrdered, IsRounded}
use delta_paper_trader.Types.{Side, buy, sell}
use delta_paper_trader.Money.{leg_sign, leg_pnl}

-- `side` gains when the mark goes from `a` to `b`, or stays as it is.
module _ {W : Type 0} ⦃f : Float W⦄ where
  abbrev pub Gains : Side → W → W → Type 0
  Gains buy a b = a ≼ b
  Gains sell a b = b ≼ a

module _ {W : Type 0} ⦃f : Float W⦄ (o : IsOrdered W) (r : IsRounded W) where
  pub signed_mono :
      (s : Side) (entry a b : W) → Gains s a b → leg_sign s ⊗ (a ⊖ entry) ≼ leg_sign s ⊗ (b ⊖ entry)
  signed_mono buy entry a b h =
      ground (arith, r.sub_mono a b entry h, r.one_mul (a ⊖ entry), r.one_mul (b ⊖ entry))
  signed_mono sell entry a b h = ground (
    arith,
    r.sub_mono b a entry h,
    r.neg_anti (b ⊖ entry) (a ⊖ entry),
    r.neg_mul one (a ⊖ entry),
    r.neg_mul one (b ⊖ entry),
    r.one_mul (a ⊖ entry),
    r.one_mul (b ⊖ entry),
  )

  -- The P&L of a leg never falls when the mark moves its way, however the products are rounded.
  pub leg_pnl_mono :
      (s : Side) (qty cv entry a b : W)
      → nought ≼ qty
      → nought ≼ cv
      → Gains s a b
      → leg_pnl s qty cv entry a ≼ leg_pnl s qty cv entry b
  unfolding leg_pnl
  leg_pnl_mono s qty cv entry a b hq hc h =
      r.mul_mono _ _ cv hc (r.mul_mono _ _ qty hq (signed_mono s entry a b h))
