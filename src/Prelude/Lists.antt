-- ===== src/Prelude/Lists.antt =====
-- Lists measured by native numbers, filters by Boolean tests, and predicates over lists.
use Prim.Native.Nat.{ℕ, suc}
use mathlib.Core.Path.{◌≡◌, refl, ap}
use mathlib.Core.Bool.{Bool, true, false, ◌&&◌, ◌||◌}
use mathlib.Core.Option.{Option, none, some}
use mathlib.Core.List.{List, [], ◌∷◌, ◌++◌, map}
use native.Mathlib.Omega.{arith}
use delta_paper_trader.Prelude.Tests.{if◌then◌else◌, Bool-cases}
use mathlib.Core.Logic.{◌⊎◌, inl, inr}

module _ {ℓ} {A : Type ℓ} where
  abbrev pub length : List A → ℕ
  length [] = 0
  length (x ∷ xs) = suc (length xs)

  -- `[x for x in xs if p x]`
  abbrev pub filter : (A → Bool) → List A → List A
  filter p [] = []
  filter p (x ∷ xs) = if p x then x ∷ filter p xs else filter p xs

  -- `any(p x for x in xs)`
  abbrev pub any : (A → Bool) → List A → Bool
  any p [] = false
  any p (x ∷ xs) = p x || any p xs

  abbrev pub all : (A → Bool) → List A → Bool
  all p [] = true
  all p (x ∷ xs) = p x && all p xs

  -- `next((x for x in xs if p x), None)`
  abbrev pub find : (A → Bool) → List A → Option A
  find p [] = none
  find p (x ∷ xs) = if p x then some x else find p xs

  abbrev pub is_empty : List A → Bool
  is_empty [] = true
  is_empty (_ ∷ _) = false

module _ {A : Type 0} where
  -- `a` stands in the list.
  abbrev pub In : A → List A → Type 0
  In a [] = ⊥
  In a (x ∷ xs) = (a ≡ x) ⊎ In a xs

abbrev pub All {ℓ κ} : {A : Type ℓ} → (A → Type κ) → List A → Type κ
All P [] = Unit
All P (x ∷ xs) = P x × All P xs

module _ {A : Type 0} where
  pub In-filter : (p : A → Bool) (a : A) (xs : List A) → In a xs → p a ≡ true → In a (filter p xs)
  In-filter p a [] m h = m
  In-filter p a (x ∷ xs) m h = elim (Bool-cases (p x)) [
    | inl e ↦ rw e (elim m [ inl i ↦ inl i | inr k ↦ inr (In-filter p a xs k h) ])
    | inr e ↦ elim m [ inl i ↦ cc (ap p i) | inr k ↦ rw e (In-filter p a xs k h) ]
  ]

  pub In-filter_inv :
      (p : A → Bool) (a : A) (xs : List A) → In a (filter p xs) → In a xs × (p a ≡ true)
  In-filter_inv p a [] m = absurd m
  In-filter_inv p a (x ∷ xs) m = elim (Bool-cases (p x)) [
    | inl e ↦ elim (let k : In a (x ∷ filter p xs) = rw e at m in k) [
      | inl i ↦ (inl i, rw i e)
      | inr k ↦ let (i, h) = In-filter_inv p a xs k in (inr i, h)
    ]
    | inr e ↦ let (i, h) = In-filter_inv p a xs (rw e at m) in (inr i, h)
  ]

  pub In-any : (p : A → Bool) (a : A) (xs : List A) → In a xs → p a ≡ true → any p xs ≡ true
  In-any p a [] m h = absurd m
  In-any p a (x ∷ xs) m h = elim m [
    | inl i ↦ rw (← i, h)
    | inr k ↦ ground (arith, In-any p a xs k h)
  ]

  pub any-In : (p : A → Bool) (xs : List A) → any p xs ≡ true → (a : A) × In a xs × (p a ≡ true)
  any-In p [] h = cc
  any-In p (x ∷ xs) h = elim (Bool-cases (p x)) [
    | inl e ↦ (x, inl refl, e)
    | inr e ↦ let (a, m, k) = any-In p xs (rw e at h) in (a, inr m, k)
  ]

  pub In-map : {B : Type 0} (g : A → B) (a : A) (xs : List A) → In a xs → In (g a) (map g xs)
  In-map g a [] m = absurd m
  In-map g a (x ∷ xs) m = elim m [ inl i ↦ inl (ap g i) | inr k ↦ inr (In-map g a xs k) ]

  pub In-map_inv :
      {B : Type 0} (g : A → B) (b : B) (xs : List A)
      → In b (map g xs)
      → (a : A) × In a xs × (b ≡ g a)
  In-map_inv g b [] m = absurd m
  In-map_inv g b (x ∷ xs) m = elim m [
    | inl i ↦ (x, inl refl, i)
    | inr k ↦ let (a, i, e) = In-map_inv g b xs k in (a, inr i, e)
  ]

  pub In-is_empty : (a : A) (xs : List A) → In a xs → is_empty xs ≡ false
  In-is_empty a [] m = absurd m
  In-is_empty a (x ∷ xs) m = refl

  pub All-In {ℓ} : (P : A → Type ℓ) (xs : List A) → ((a : A) → In a xs → P a) → All P xs
  All-In P [] h = tt
  All-In P (x ∷ xs) h = (h x (inl refl), All-In P xs (λ a m. h a (inr m)))

  pub In-append_inv : (a : A) (xs ys : List A) → In a (xs ++ ys) → In a xs ⊎ In a ys
  In-append_inv a [] ys m = inr m
  In-append_inv a (x ∷ xs) ys m = elim m [
    | inl i ↦ inl (inl i)
    | inr k ↦ elim (In-append_inv a xs ys k) [ inl j ↦ inl (inr j) | inr j ↦ inr j ]
  ]

  pub is_empty-filter :
      (p : A → Bool) (xs : List A) → is_empty (filter p xs) ≡ true → All (λ a. p a ≡ false) xs
  is_empty-filter p [] h = tt
  is_empty-filter p (x ∷ xs) h = elim (Bool-cases (p x)) [
    | inl e ↦ cc (let k : is_empty (x ∷ filter p xs) ≡ true = rw e at h in k)
    | inr e ↦ (e, is_empty-filter p xs (rw e at h))
  ]
