-- ===== src/Float/Laws.antt =====
-- What the theorems assume of the arithmetic, as two records of laws.
use Prim.Native.Nat.{ℕ}
use delta_paper_trader.Prelude.{◌≡◌, ◌⊎◌, inl, inr, false, arith, Bool-cases}
use delta_paper_trader.Float.Interface.{
  Float, ◌⊕◌, ◌⊖◌, ◌⊗◌, ◌⊘◌, ◌≼◌, ◌≺◌, nought, one, min, max, abs,
}

-- The order of the numbers that are not NaN.
pub record IsOrdered (W : Type 0) ⦃f : Float W⦄ : Type 0 where
  pub le_refl : (x : W) → x ≼ x
  pub le_trans : (x y z : W) → x ≼ y → y ≼ z → x ≼ z
  pub le_total : (x y : W) → (x ≼ y) ⊎ (y ≼ x)
  pub le_antisymm : (x y : W) → x ≼ y → y ≼ x → x ≡ y

-- Correctly rounded operations are monotone, commute, and are exact at 0, 1 and under `-`.
pub record IsRounded (W : Type 0) ⦃f : Float W⦄ : Type 0 where
  pub neg_anti : (x y : W) → x ≼ y → f.neg y ≼ f.neg x
  pub neg_neg : (x : W) → f.neg (f.neg x) ≡ x
  pub neg_nought : f.neg nought ≡ nought
  pub nought-le-one : nought {W = W} ≼ one
  pub add_neg : (x y : W) → x ⊕ f.neg y ≡ x ⊖ y
  pub add_comm : (x y : W) → x ⊕ y ≡ y ⊕ x
  pub add_nought : (x : W) → x ⊕ nought ≡ x
  pub add_mono : (x y z : W) → x ≼ y → x ⊕ z ≼ y ⊕ z
  pub sub_nought : (x : W) → x ⊖ nought ≡ x
  pub sub_self : (x : W) → x ⊖ x ≡ nought
  pub sub_mono : (x y z : W) → x ≼ y → x ⊖ z ≼ y ⊖ z
  pub sub_anti : (x y z : W) → x ≼ y → z ⊖ y ≼ z ⊖ x
  pub mul_comm : (x y : W) → x ⊗ y ≡ y ⊗ x
  pub one_mul : (x : W) → one ⊗ x ≡ x
  pub nought_mul : (x : W) → nought ⊗ x ≡ nought
  pub neg_mul : (x y : W) → f.neg x ⊗ y ≡ f.neg (x ⊗ y)
  pub mul_mono : (x y z : W) → nought ≼ z → x ≼ y → x ⊗ z ≼ y ⊗ z
  pub div_mono : (x y z : W) → nought ≺ z → x ≼ y → x ⊘ z ≼ y ⊘ z
  pub floor_mono : (x y : W) → x ≼ y → f.floor x ≼ f.floor y
  pub ceil_mono : (x y : W) → x ≼ y → f.ceil x ≼ f.ceil y
  pub round_mono : (k : ℕ) (x y : W) → x ≼ y → f.round_to k x ≼ f.round_to k y
  pub nought_div : (z : W) → nought ≺ z → nought ⊘ z ≡ nought

-- Halving a sum gives a number between the two, as it does in binary arithmetic without overflow.
pub record HasMidpoints (W : Type 0) ⦃f : Float W⦄ : Type 0 where
  pub low : (a b : W) → a ≼ b → a ≼ f.lit 5 1 ⊗ (a ⊕ b)
  pub high : (a b : W) → a ≼ b → f.lit 5 1 ⊗ (a ⊕ b) ≼ b

module _ {W : Type 0} ⦃f : Float W⦄ (o : IsOrdered W) where
  open o use {le_refl, le_trans, le_total, le_antisymm}

  pub le_of_lt : (x y : W) → x ≺ y → x ≼ y
  le_of_lt x y h = elim (le_total x y) [ inl p ↦ p | inr q ↦ ground (arith, q) ]

  pub lt-le_trans : (x y z : W) → x ≺ y → y ≼ z → x ≺ z
  lt-le_trans x y z h k = elim (Bool-cases (f.le z x)) [
    | inl p ↦ ground (arith, le_trans y z x k p)
    | inr q ↦ ground arith
  ]

  pub le-lt_trans : (x y z : W) → x ≼ y → y ≺ z → x ≺ z
  le-lt_trans x y z h k = elim (Bool-cases (f.le z x)) [
    | inl p ↦ ground (arith, le_trans z x y p h)
    | inr q ↦ ground arith
  ]

  pub le_of_not : (x y : W) → f.le y x ≡ false → x ≼ y
  le_of_not x y h = elim (le_total x y) [ inl p ↦ p | inr q ↦ ground arith ]

  pub min-le_left : (x y : W) → min x y ≼ x
  min-le_left x y = ground (arith, le_refl x, le_total x y)

  pub min-le_right : (x y : W) → min x y ≼ y
  min-le_right x y = ground (arith, le_refl y, le_total x y)

  pub le-min : (x y z : W) → z ≼ x → z ≼ y → z ≼ min x y
  le-min x y z h k = ground arith

  pub le-max_left : (x y : W) → x ≼ max x y
  le-max_left x y = ground (arith, le_refl x, le_total x y)

  pub le-max_right : (x y : W) → y ≼ max x y
  le-max_right x y = ground (arith, le_refl y, le_total x y)

  pub max-le : (x y z : W) → x ≼ z → y ≼ z → max x y ≼ z
  max-le x y z h k = ground arith

  module _ (r : IsRounded W) where
    open r use {
      neg_anti, neg_nought, add_mono, add_comm, add_nought, sub_nought, sub_self, sub_anti,
      sub_mono, mul_mono, mul_comm, nought_mul,
    }

    pub nought-le-abs : (x : W) → nought ≼ abs x
    nought-le-abs x = ground (arith, le_total nought x, neg_anti x nought, neg_nought)

    pub nought-le-add : (x y : W) → nought ≼ x → nought ≼ y → nought ≼ x ⊕ y
    nought-le-add x y h k =
        le_trans nought x (x ⊕ y) h
          (ground (arith, add_mono nought y x k, add_comm nought x, add_comm y x, add_nought x))

    pub le-add_left : (x y : W) → nought ≼ y → x ≼ x ⊕ y
    le-add_left x y k =
        ground (arith, add_mono nought y x k, add_comm nought x, add_comm y x, add_nought x)

    pub sub-le : (x y : W) → nought ≼ y → x ⊖ y ≼ x
    sub-le x y h = ground (arith, sub_anti nought y x h, sub_nought x)

    pub nought-le-sub : (x y : W) → y ≼ x → nought ≼ x ⊖ y
    nought-le-sub x y h = ground (arith, sub_anti y x x h, sub_self x)

    pub nought-le-mul : (x y : W) → nought ≼ x → nought ≼ y → nought ≼ x ⊗ y
    nought-le-mul x y h k = ground (arith, mul_mono nought x y k h, nought_mul y)

    pub mul_mono_left : (x y z : W) → nought ≼ z → x ≼ y → z ⊗ x ≼ z ⊗ y
    mul_mono_left x y z h k = ground (arith, mul_mono x y z h k, mul_comm z x, mul_comm z y)
