-- ===== src/Risk/Prices.antt =====
-- Prices of brackets and of close orders.
use delta_paper_trader.Prelude.{refl, arith, Bool-cases, inl, inr}
use delta_paper_trader.Float.{Float, ◌⊕◌, ◌⊘◌, ◌≼◌, ◌≤?◌, nought, one, max}
use delta_paper_trader.Float.Laws.{
  IsOrdered, IsRounded, le-max_left, le-max_right, max-le, le_of_not, mul_mono_left,
}
use delta_paper_trader.Types.{Side, buy, sell}
use delta_paper_trader.Risk.{round_up, round_down, ioc_limit_price}

module _ {W : Type 0} ⦃f : Float W⦄ where
  -- `b` is a price at which a close order of this side accepts all that it accepts at `a`.
  abbrev pub Widens : Side → W → W → Type 0
  Widens buy a b = a ≼ b
  Widens sell a b = b ≼ a

module _ {W : Type 0} ⦃f : Float W⦄ (o : IsOrdered W) where
  module _ (r : IsRounded W) where
    round_up_mono : (x y tick : W) → x ≼ y → round_up x tick ≼ round_up y tick
    unfolding round_up
    round_up_mono x y tick h = elim (Bool-cases (tick ≤? nought)) [
      | inl e ↦ rw e h
      | inr e ↦
          let d = r.div_mono x y tick (rw e refl) h in
          let c = r.ceil_mono _ _ (r.sub_mono (x ⊘ tick) (y ⊘ tick) (f.lit 1 9) d) in
          rw e (r.round_mono 10 _ _ (r.mul_mono _ _ tick (le_of_not o nought tick e) c))
    ]

    round_down_mono : (x y tick : W) → x ≼ y → round_down x tick ≼ round_down y tick
    unfolding round_down
    round_down_mono x y tick h = elim (Bool-cases (tick ≤? nought)) [
      | inl e ↦ rw e h
      | inr e ↦
          let d = r.div_mono x y tick (rw e refl) h in
          let c = r.floor_mono _ _ (r.add_mono (x ⊘ tick) (y ⊘ tick) (f.lit 1 9) d) in
          rw e (r.round_mono 10 _ _ (r.mul_mono _ _ tick (le_of_not o nought tick e) c))
    ]

    max_mono : (x y z : W) → x ≼ y → max x z ≼ max y z
    max_mono x y z h =
        max-le o x z (max y z) (o.le_trans x y (max y z) h (le-max_left o y z)) (le-max_right o y z)

    add_mono_left : (x y z : W) → x ≼ y → z ⊕ x ≼ z ⊕ y
    add_mono_left x y z h = ground (arith, r.add_mono x y z h, r.add_comm x z, r.add_comm y z)

    -- For a mark that is not negative a wider band never makes a close order pickier: it buys up to a
    -- price that is no lower and sells down to one that is no higher, after the rounding to ticks too; and
    -- a sale is never priced below one tick.
    pub ioc_limit_price-Widens :
        (side : Side) (mark band wider tick : W)
        → nought ≼ mark
        → band ≼ wider
        → Widens side (ioc_limit_price side mark band tick) (ioc_limit_price side mark wider tick)
          × (tick ≼ ioc_limit_price sell mark band tick)
    unfolding ioc_limit_price
    ioc_limit_price-Widens buy mark band wider tick hm h =
        let m = o.le_trans nought mark (max mark tick) hm (le-max_left o mark tick) in
        (
          round_up_mono _ _ tick
              (mul_mono_left o r _ _ (max mark tick) m (add_mono_left band wider one h)),
          le-max_right o _ tick,
        )
    ioc_limit_price-Widens sell mark band wider tick hm h = (
      max_mono _ _ tick
          (round_down_mono _ _ tick (mul_mono_left o r _ _ mark hm (r.sub_anti band wider one h))),
      le-max_right o _ tick,
    )
