-- ===== src/Chain/Symbols.antt =====
-- Symbols and their expiries, written and read back.
use delta_paper_trader.Prelude.{
  ℕ, ◌+◌, ◌/◌, ◌%◌, ◌<◌, ◌≡◌, refl, ◌==◌, true, false, some, List, [], ◌∷◌, ◌++◌, All, arith,
}
use delta_paper_trader.Chain.{
  fits, days_in_month, number, is_digit, split, read_token, parse_expiry_from_symbol,
}

-- A number below 100 as two digits.
abbrev pub two_digits : ℕ → List ℕ
two_digits n = (b'0' + n / 10) ∷ (b'0' + n % 10) ∷ []

-- The end of a symbol: day, month, and the year from 2000.
abbrev pub expiry_token : ℕ → ℕ → ℕ → List ℕ
expiry_token y m d = two_digits d ++ two_digits m ++ two_digits y

-- Delta's symbols: a kind, an underlying and a strike, and the expiry, joined by dashes.
abbrev pub symbol_of : List ℕ → List ℕ → List ℕ → ℕ → ℕ → ℕ → List ℕ
symbol_of kind underlying strike y m d =
    kind ++ b'-' ∷ (underlying ++ b'-' ∷ (strike ++ b'-' ∷ expiry_token y m d))

abbrev pub Dashless : List ℕ → Type 0
Dashless = All (λ c. (c == b'-') ≡ false)

split-append : (p rest : List ℕ) → Dashless p → split (p ++ b'-' ∷ rest) ≡ p ∷ split rest
unfolding split
split-append [] rest h = refl
split-append (c ∷ p) rest h = rw (h.0, split-append p rest h.1) refl

split-last : (p : List ℕ) → Dashless p → split p ≡ p ∷ []
unfolding split
split-last [] h = refl
split-last (c ∷ p) h = rw (h.0, split-last p h.1) refl

digit-Dashless : (n : ℕ) → (b'0' + n == b'-') ≡ false
digit-Dashless n = ground arith

number-two_digits : (n : ℕ) → number (b'0' + n / 10) (b'0' + n % 10) ≡ n
number-two_digits n = omega arith

tens-is_digit : (n : ℕ) → n < 100 → is_digit (b'0' + n / 10) ≡ true
tens-is_digit n h = ground arith

units-is_digit : (n : ℕ) → is_digit (b'0' + n % 10) ≡ true
units-is_digit n = ground arith

days_in_month-le : (y m : ℕ) → days_in_month y m < 100
unfolding days_in_month
days_in_month-le y m = ground arith

fits_bounds : (y m d : ℕ) → fits y m d ≡ true → (d < 100) × (m < 100)
fits_bounds y m d h = ground (arith, days_in_month-le y m)

read_digits :
    (y m d : ℕ)
    → y < 100
    → fits (2000 + y) m d ≡ true
    → read_token (two_digits d ++ two_digits m ++ two_digits y)
      ≡ some (record { year = 2000 + y; month = m; day = d })
read_digits y m d hy h =
    let (hd, hm) = fits_bounds (2000 + y) m d h in
    rw
      (
        tens-is_digit d hd,
        tens-is_digit m hm,
        tens-is_digit y hy,
        units-is_digit d,
        units-is_digit m,
        units-is_digit y,
        number-two_digits d,
        number-two_digits m,
        number-two_digits y,
        h,
      )
      refl

two_digits-Dashless : (n : ℕ) → Dashless (two_digits n)
two_digits-Dashless n = (digit-Dashless (n / 10), (digit-Dashless (n % 10), tt))

All-append : (p q : List ℕ) → Dashless p → Dashless q → Dashless (p ++ q)
All-append [] q h k = k
All-append (c ∷ p) q h k = (h.0, All-append p q h.1 k)

-- The symbol of an option that expires on a date from 2000 to 2099, with a kind, an underlying and a strike that
-- have no dash, is read back as that date.
pub parse-symbol_of :
    (kind underlying strike : List ℕ) (y m d : ℕ)
    → Dashless kind
    → Dashless underlying
    → Dashless strike
    → y < 100
    → fits (2000 + y) m d ≡ true
    → parse_expiry_from_symbol (symbol_of kind underlying strike y m d)
      ≡ some (record { year = 2000 + y; month = m; day = d })
unfolding parse_expiry_from_symbol
parse-symbol_of kind underlying strike y m d hk hu hs hy h =
    let token = expiry_token y m d in
    let plain : Dashless token =
      All-append (two_digits d) (two_digits m ++ two_digits y) (two_digits-Dashless d) (
        All-append (two_digits m) (two_digits y) (two_digits-Dashless m) (two_digits-Dashless y)) in
    rw
      (
        split-append kind (underlying ++ b'-' ∷ (strike ++ b'-' ∷ token)) hk,
        split-append underlying (strike ++ b'-' ∷ token) hu,
        split-append strike token hs,
        split-last token plain,
      )
      (read_digits y m d hy h)
