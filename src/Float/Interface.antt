-- ===== src/Float/Interface.antt =====
-- The operations that the program applies to its numbers.
use mathlib.Core.Path.{◌≡◌}
use mathlib.Core.Bool.{Bool, true, not}
use mathlib.Core.Option.{Option, none, some}
use mathlib.Core.List.{List, [], ◌∷◌}
use Prim.Native.Nat.{ℕ}
use delta_paper_trader.Prelude.{if◌then◌else◌}

-- `lit m k` is the literal m · 10⁻ᵏ. `div` is called where the divisor is not 0, since Python raises
-- there; the model writes the guards out. `floor` and `ceil` are those of `math`, read back as a
-- number, `truncate` is Python's `int` of a number that is not negative, and `of_ℕ` reads one as a
-- number. The last line is the `math` library.
pub record Float (W : Type 0) : Type 0 where
  pub lit : ℕ → ℕ → W
  pub of_ℕ : ℕ → W
  pub le : W → W → Bool
  pub neg : W → W
  pub add : W → W → W
  pub sub : W → W → W
  pub mul : W → W → W
  pub div : W → W → W
  pub floor : W → W
  pub ceil : W → W
  pub truncate : W → ℕ
  pub round_to : ℕ → W → W
  pub pi : W
  pub sqrt : W → W
  pub log : W → W
  pub exp : W → W
  pub erf : W → W
  pub pow : W → W → W
  pub total : List W → W

module _ {W : Type 0} ⦃f : Float W⦄ where
  infixl 65 ◌⊕◌ ◌⊖◌
  infixl 70 ◌⊗◌ ◌⊘◌
  infix 50 ◌≤?◌ ◌<?◌
  infix 4 ◌≼◌ ◌≺◌
  abbrev pub ◌⊕◌ : W → W → W
  a ⊕ b = f.add a b

  abbrev pub ◌⊖◌ : W → W → W
  a ⊖ b = f.sub a b

  abbrev pub ◌⊗◌ : W → W → W
  a ⊗ b = f.mul a b

  abbrev pub ◌⊘◌ : W → W → W
  a ⊘ b = f.div a b

  abbrev pub ◌≤?◌ : W → W → Bool
  a ≤? b = f.le a b

  -- Away from NaN, `a < b` is the negation of `b <= a`.
  abbrev pub ◌<?◌ : W → W → Bool
  a <? b = not (f.le b a)

  abbrev pub ◌≼◌ : W → W → Type 0
  a ≼ b = f.le a b ≡ true

  abbrev pub ◌≺◌ : W → W → Type 0
  a ≺ b = (a <? b) ≡ true

  abbrev pub nought : W
  nought = f.lit 0 0

  abbrev pub one : W
  one = f.lit 1 0

  -- `if x:` on a number.
  abbrev pub truthy : W → Bool
  truthy x = if f.le x (f.lit 0 0) then not (f.le (f.lit 0 0) x) else true

  -- `x or d`
  abbrev pub or_else : W → W → W
  or_else x d = if truthy x then x else d

  -- `x or d` on a number or `None`
  abbrev pub opt_or : Option W → W → W
  opt_or none d = d
  opt_or (some x) d = or_else x d

  -- `abs`, `min(a, b)` and `max(a, b)`: Python's `min` and `max` keep the first of equal arguments.
  abbrev pub abs : W → W
  abs x = if f.le (f.lit 0 0) x then x else f.neg x

  abbrev pub min : W → W → W
  min a b = if f.le a b then a else b

  abbrev pub max : W → W → W
  max a b = if f.le b a then a else b

  -- Adding up from the left, as a loop does.
  abbrev pub sum_from : W → List W → W
  sum_from acc [] = acc
  sum_from acc (x ∷ xs) = sum_from (f.add acc x) xs

  -- Python's builtin `sum`, which since 3.12 compensates the rounding of floats and so is not that loop.
  abbrev pub sum : List W → W
  sum xs = f.total xs
