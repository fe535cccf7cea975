-- ===== src/Float/Fixed.antt =====
-- A concrete arithmetic with the laws of `Laws`: signed numbers of four decimals, rounded towards 0.
-- The examples of the other modules run on it. The `math` functions, of which no law is used, are
-- the identity here.
use Prim.Native.Nat.{ℕ, zero, suc, ◌+◌, ◌-◌, ◌*◌, ◌/◌, ◌^◌, ◌≤◌, ◌<◌}
use native.Mathlib.Nat.{
  mul_comm as nat_mul_comm, mul-le-mul_right, div-mul-le_self, le-div_iff_mul-le,
}
use delta_paper_trader.Prelude.Int.{ℤ, pos, negsuc, pos_part, neg_part}
use delta_paper_trader.Prelude.{
  List, [], ◌∷◌, ◌≡◌, refl, Bool, true, false, arith, leb, if◌then◌else◌,
}
use delta_paper_trader.Float.Interface.{Float}
use delta_paper_trader.Float.Laws.{IsOrdered, IsRounded, HasMidpoints}

abbrev sub_ℕ : ℕ → ℕ → ℤ
sub_ℕ a b = if leb b a then pos (a - b) else negsuc (b - a - 1)

-- The number is the integer over this.
abbrev scale : ℕ
scale = 10000

abbrev le : ℤ → ℤ → Bool
le a b = leb (pos_part a + neg_part b) (pos_part b + neg_part a)

abbrev neg : ℤ → ℤ
neg a = sub_ℕ (neg_part a) (pos_part a)

abbrev add : ℤ → ℤ → ℤ
add a b = sub_ℕ (pos_part a + pos_part b) (neg_part a + neg_part b)

abbrev sub : ℤ → ℤ → ℤ
sub a b = sub_ℕ (pos_part a + neg_part b) (neg_part a + pos_part b)

abbrev mul : ℤ → ℤ → ℤ
mul (pos a) (pos b) = pos (a * b / scale)
mul (pos a) (negsuc b) = sub_ℕ 0 (a * suc b / scale)
mul (negsuc a) (pos b) = sub_ℕ 0 (suc a * b / scale)
mul (negsuc a) (negsuc b) = pos (suc a * suc b / scale)

abbrev div : ℤ → ℤ → ℤ
div (pos a) (pos b) = pos (a * scale / b)
div (pos a) (negsuc b) = sub_ℕ 0 (a * scale / suc b)
div (negsuc a) (pos b) = sub_ℕ 0 (suc a * scale / b)
div (negsuc a) (negsuc b) = pos (suc a * scale / suc b)

abbrev floor : ℤ → ℤ
floor (pos a) = pos (a / scale * scale)
floor (negsuc a) = sub_ℕ 0 ((a + scale) / scale * scale)

abbrev ceil : ℤ → ℤ
ceil (pos a) = pos ((a + (scale - 1)) / scale * scale)
ceil (negsuc a) = sub_ℕ 0 (suc a / scale * scale)

abbrev total_of : List ℤ → ℤ
total_of [] = pos 0
total_of (x ∷ xs) = (add) x (total_of xs)

instance abbrev pub fixed : Float ℤ
fixed = record {
  lit = λ m k. pos (m * scale / 10 ^ k);
  of_ℕ = λ n. pos (n * scale);
  le = le;
  neg = neg;
  add = add;
  sub = sub;
  mul = mul;
  div = div;
  floor = floor;
  ceil = ceil;
  truncate = λ a. pos_part a / scale;
  round_to = λ k a. a;
  pi = pos 31416;
  sqrt = λ a. a;
  log = λ a. a;
  exp = λ a. a;
  erf = λ a. a;
  pow = λ a b. a;
  total = total_of;
}

-- A literal of two decimals, for the examples.
abbrev pub cents : ℕ → ℤ
cents n = pos (n * 100)

pub fixed-IsOrdered : IsOrdered ℤ
fixed-IsOrdered = record {
  le_refl = λ x. ground arith;
  le_trans = λ x y z h k. ground arith;
  le_total = λ x y. ground arith;
  le_antisymm = λ x y h k. ground arith;
}

div-le-div : (a b c : ℕ) → 0 < c → a ≤ b → a / c ≤ b / c
div-le-div a b c p h = (le-div_iff_mul-le p).1 (omega (arith, div-mul-le_self a c))

scaled_mono : (a b c : ℕ) → a ≤ b → a * c / scale ≤ b * c / scale
scaled_mono a b c h = div-le-div (a * c) (b * c) scale (omega arith) (mul-le-mul_right c h)

mul_comm_lem : (x y : ℤ) → mul x y ≡ mul y x
mul_comm_lem (pos a) (pos b) = rw (nat_mul_comm a b)
mul_comm_lem (pos a) (negsuc b) = rw (nat_mul_comm a (suc b))
mul_comm_lem (negsuc a) (pos b) = rw (nat_mul_comm (suc a) b)
mul_comm_lem (negsuc a) (negsuc b) = rw (nat_mul_comm (suc a) (suc b))

one_mul_lem : (x : ℤ) → mul (pos 10000) x ≡ x
one_mul_lem (pos a) = ground arith
one_mul_lem (negsuc a) = ground arith

neg_mul_lem : (x y : ℤ) → mul (neg x) y ≡ neg (mul x y)
neg_mul_lem (pos zero) (pos b) = ground arith
neg_mul_lem (pos zero) (negsuc b) = ground arith
neg_mul_lem (pos (suc a)) (pos b) = ground arith
neg_mul_lem (pos (suc a)) (negsuc b) = ground arith
neg_mul_lem (negsuc a) (pos b) = ground arith
neg_mul_lem (negsuc a) (negsuc b) = ground arith

mul_mono_lem : (x y z : ℤ) → le (pos 0) z ≡ true → le x y ≡ true → le (mul x z) (mul y z) ≡ true
mul_mono_lem (pos a) (pos b) (pos c) h k = ground (arith, scaled_mono a b c)
mul_mono_lem (pos a) (negsuc b) (pos c) h k = ground arith
mul_mono_lem (negsuc a) (pos b) (pos c) h k = ground arith
mul_mono_lem (negsuc a) (negsuc b) (pos c) h k = ground (arith, scaled_mono (suc b) (suc a) c)
mul_mono_lem x y (negsuc c) h k = ground arith

div_mono_lem : (x y z : ℤ) → le z (pos 0) ≡ false → le x y ≡ true → le (div x z) (div y z) ≡ true
div_mono_lem (pos a) (pos b) (pos (suc c)) h k =
    ground (arith, div-le-div (a * scale) (b * scale) (suc c))
div_mono_lem (pos a) (negsuc b) (pos (suc c)) h k = ground arith
div_mono_lem (negsuc a) (pos b) (pos (suc c)) h k = ground arith
div_mono_lem (negsuc a) (negsuc b) (pos (suc c)) h k =
    ground (arith, div-le-div (suc b * scale) (suc a * scale) (suc c))
div_mono_lem x y (pos zero) h k = ground arith
div_mono_lem x y (negsuc c) h k = ground arith

whole-le : (a b : ℕ) → a ≤ b → a / scale * scale ≤ b / scale * scale
whole-le a b h = mul-le-mul_right scale (div-le-div a b scale (omega arith) h)

floor_mono_lem : (x y : ℤ) → le x y ≡ true → le (floor x) (floor y) ≡ true
floor_mono_lem (pos a) (pos b) h = ground (arith, whole-le a b)
floor_mono_lem (pos a) (negsuc b) h = ground arith
floor_mono_lem (negsuc a) (pos b) h = ground arith
floor_mono_lem (negsuc a) (negsuc b) h = ground (arith, whole-le (b + scale) (a + scale))

ceil_mono_lem : (x y : ℤ) → le x y ≡ true → le (ceil x) (ceil y) ≡ true
ceil_mono_lem (pos a) (pos b) h = ground (arith, whole-le (a + (scale - 1)) (b + (scale - 1)))
ceil_mono_lem (pos a) (negsuc b) h = ground arith
ceil_mono_lem (negsuc a) (pos b) h = ground arith
ceil_mono_lem (negsuc a) (negsuc b) h = ground (arith, whole-le (suc b) (suc a))

pub fixed-IsRounded : IsRounded ℤ
fixed-IsRounded = record {
  neg_anti = λ x y h. ground arith;
  neg_neg = λ x. ground arith;
  neg_nought = refl;
  nought-le-one = refl;
  add_neg = λ x y. ground arith;
  add_comm = λ x y. ground arith;
  add_nought = λ x. ground arith;
  add_mono = λ x y z h. ground arith;
  sub_nought = λ x. ground arith;
  sub_self = λ x. ground arith;
  sub_mono = λ x y z h. ground arith;
  sub_anti = λ x y z h. ground arith;
  mul_comm = mul_comm_lem;
  one_mul = one_mul_lem;
  nought_mul = λ x. ground arith;
  neg_mul = neg_mul_lem;
  mul_mono = λ x y z h k. mul_mono_lem x y z h k;
  div_mono = λ x y z h k. div_mono_lem x y z (ground arith) k;
  floor_mono = floor_mono_lem;
  ceil_mono = ceil_mono_lem;
  round_mono = λ k x y h. h;
  nought_div = λ z h. ground arith;
}

half_low : (a b : ℤ) → le a b ≡ true → le a (mul (pos 5000) (add a b)) ≡ true
half_low (pos a) (pos b) h = ground arith
half_low (pos a) (negsuc b) h = ground arith
half_low (negsuc a) (pos b) h = ground arith
half_low (negsuc a) (negsuc b) h = ground arith

half_high : (a b : ℤ) → le a b ≡ true → le (mul (pos 5000) (add a b)) b ≡ true
half_high (pos a) (pos b) h = ground arith
half_high (pos a) (negsuc b) h = ground arith
half_high (negsuc a) (pos b) h = ground arith
half_high (negsuc a) (negsuc b) h = ground arith

pub fixed-HasMidpoints : HasMidpoints ℤ
fixed-HasMidpoints = record { low = half_low; high = half_high }
