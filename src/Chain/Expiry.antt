-- ===== src/Chain/Expiry.antt =====
-- The listed expiries are sorted, and the default is the nearest one that is live.
use delta_paper_trader.Prelude.{
  ℕ, ◌≡◌, refl, true, false, Bool, Option, none, some, List, [], ◌∷◌, filter, In, In-filter,
  In-filter_inv, All, Bool-cases, inl, inr, arith,
}
use delta_paper_trader.Chain.{
  Date, same_date, before_date, insert_date, insert_expiry, list_expiries, live_expiries,
  is_expiry_live, default_expiry, first_or, parse_expiry_from_symbol,
}

-- Each date comes before the ones after it.
abbrev pub IsAscending : List Date → Type 0
IsAscending [] = Unit
IsAscending (x ∷ xs) = All (λ y. before_date x y ≡ true) xs × IsAscending xs

before_trans :
    (a b c : Date) → before_date a b ≡ true → before_date b c ≡ true → before_date a c ≡ true
before_trans a b c h k = ground arith

before_total :
    (a b : Date) → same_date a b ≡ false → before_date a b ≡ false → before_date b a ≡ true
before_total a b h k = ground arith

before_asymm : (a b : Date) → before_date a b ≡ true → before_date b a ≡ false
before_asymm a b h = ground arith

before_irrefl : (a : Date) → before_date a a ≡ false
before_irrefl a = ground arith

All-trans :
    (a b : Date) (xs : List Date)
    → before_date a b ≡ true
    → All (λ y. before_date b y ≡ true) xs
    → All (λ y. before_date a y ≡ true) xs
All-trans a b [] h k = tt
All-trans a b (x ∷ xs) h k = (before_trans a b x h k.0, All-trans a b xs h k.1)

All-insert :
    (a e : Date) (xs : List Date)
    → before_date a e ≡ true
    → All (λ y. before_date a y ≡ true) xs
    → All (λ y. before_date a y ≡ true) (insert_date e xs)
All-insert a e [] h k = (h, tt)
All-insert a e (x ∷ xs) h k = elim (Bool-cases (same_date e x)) [
  | inl s ↦ rw s k
  | inr s ↦ elim (Bool-cases (before_date e x)) [
    | inl b ↦ rw (s, b) (h, k)
    | inr b ↦ rw (s, b) (k.0, All-insert a e xs h k.1)
  ]
]

insert_date-IsAscending :
    (e : Date) (xs : List Date) → IsAscending xs → IsAscending (insert_date e xs)
insert_date-IsAscending e [] h = (tt, tt)
insert_date-IsAscending e (x ∷ xs) h = elim (Bool-cases (same_date e x)) [
  | inl s ↦ rw s h
  | inr s ↦ elim (Bool-cases (before_date e x)) [
    | inl b ↦ rw (s, b) ((b, All-trans e x xs b h.0), h)
    | inr b ↦
        rw (s, b) (All-insert x e xs (before_total e x s b) h.0, insert_date-IsAscending e xs h.1)
  ]
]

insert_expiry-IsAscending :
    (o : Option Date) (xs : List Date) → IsAscending xs → IsAscending (insert_expiry o xs)
insert_expiry-IsAscending none xs h = h
insert_expiry-IsAscending (some e) xs h = insert_date-IsAscending e xs h

list_expiries-IsAscending : (symbols : List (List ℕ)) → IsAscending (list_expiries symbols)
unfolding list_expiries
list_expiries-IsAscending [] = tt
list_expiries-IsAscending (s ∷ symbols) =
    insert_expiry-IsAscending (parse_expiry_from_symbol s) (list_expiries symbols)
      (list_expiries-IsAscending symbols)

All-filter :
    (a : Date) (q : Date → Bool) (xs : List Date)
    → All (λ y. before_date a y ≡ true) xs
    → All (λ y. before_date a y ≡ true) (filter q xs)
All-filter a q [] h = tt
All-filter a q (x ∷ xs) h = elim (Bool-cases (q x)) [
  | inl e ↦ rw e (h.0, All-filter a q xs h.1)
  | inr e ↦ rw e (All-filter a q xs h.1)
]

filter-IsAscending : (q : Date → Bool) (xs : List Date) → IsAscending xs → IsAscending (filter q xs)
filter-IsAscending q [] h = tt
filter-IsAscending q (x ∷ xs) h = elim (Bool-cases (q x)) [
  | inl e ↦ rw e (All-filter x q xs h.0, filter-IsAscending q xs h.1)
  | inr e ↦ rw e (filter-IsAscending q xs h.1)
]

All-at :
    (a d : Date) (xs : List Date)
    → All (λ y. before_date a y ≡ true) xs
    → In d xs
    → before_date a d ≡ true
All-at a d [] h m = absurd m
All-at a d (x ∷ xs) h m = elim m [ inl i ↦ rw i h.0 | inr k ↦ All-at a d xs h.1 k ]

-- Nothing in an ascending list comes before its head.
head_first :
    (d e : Date) (xs : List Date) → IsAscending (e ∷ xs) → In d (e ∷ xs) → before_date d e ≡ false
head_first d e xs h m = elim m [
  | inl i ↦ rw i (before_irrefl e)
  | inr k ↦ before_asymm e d (All-at e d xs h.0 k)
]

first_or-nearest :
    (live expiries : List Date) (d : Date)
    → IsAscending live
    → In d live
    → (e : Date) × (first_or live expiries ≡ some e) × In e live × (before_date d e ≡ false)
first_or-nearest [] expiries d h m = absurd m
first_or-nearest (e ∷ live) expiries d h m = (e, refl, inl refl, head_first d e live h m)

-- Where some listed expiry has not settled yet, the default expiry is one of the listed expiries, has not settled,
-- and no listed expiry that has not settled comes before it.
pub default_expiry-nearest :
    (symbols : List (List ℕ)) (now : ℕ) (d : Date)
    → In d (list_expiries symbols)
    → is_expiry_live d now ≡ true
    → (e : Date) × (default_expiry (list_expiries symbols) now ≡ some e)
      × In e (list_expiries symbols)
      × (is_expiry_live e now ≡ true)
      × (before_date d e ≡ false)
unfolding default_expiry live_expiries
default_expiry-nearest symbols now d m live =
    let q : Date → Bool = λ x. is_expiry_live x now in
    let xs = list_expiries symbols in
    let (e, eq, k, b) =
      first_or-nearest (filter q xs) xs d
        (filter-IsAscending q xs (list_expiries-IsAscending symbols)) (In-filter q d xs m live) in
    let (i, l) = In-filter_inv q e xs k in (e, eq, i, l, b)
