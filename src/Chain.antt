-- ===== src/Chain.antt =====
-- The expiries of the option chain, backend/app/services/chain.py. A text is the list of its code points;
-- a time is in milliseconds since 1970.
pub mod Calendar
pub mod Expiry
pub mod Symbols
unfoldable pub use Calendar.*
use delta_paper_trader.Prelude.{
  ℕ, ◌+◌, ◌-◌, ◌*◌, ◌==◌, ltb, leb, Bool, true, false, ◌&&◌, Option, none, some, List, [], ◌∷◌,
  filter, all, any, length, is_empty, not, if◌then◌else◌,
}

-- `SETTLEMENT_UTC_HOUR`
abbrev pub settlement_utc_hour : ℕ
settlement_utc_hour = 12

-- `str.split("-")`
abbrev pub onto_first : ℕ → List (List ℕ) → List (List ℕ)
onto_first c [] = (c ∷ []) ∷ []
onto_first c (p ∷ ps) = (c ∷ p) ∷ ps

unfoldable pub split : List ℕ → List (List ℕ)
split [] = [] ∷ []
split (c ∷ cs) = let rest = split cs in if c == b'-' then [] ∷ rest else onto_first c rest

-- `parts[-1]`
abbrev pub last_part : List (List ℕ) → List ℕ
last_part [] = []
last_part (p ∷ ps) = let rest = last_part ps in if is_empty ps then p else rest

-- `token.isdigit()`, for ASCII
abbrev pub is_digit : ℕ → Bool
is_digit c = leb b'0' c && leb c b'9'

-- `int` of two digits
abbrev pub number : ℕ → ℕ → ℕ
number a b = (a - b'0') * 10 + (b - b'0')

-- The slices of a token of six digits.
abbrev pub read_token : List ℕ → Option Date
read_token [] = none
read_token (a ∷ []) = none
read_token (a ∷ b ∷ []) = none
read_token (a ∷ b ∷ c ∷ []) = none
read_token (a ∷ b ∷ c ∷ d ∷ []) = none
read_token (a ∷ b ∷ c ∷ d ∷ e ∷ []) = none
read_token (a ∷ b ∷ c ∷ d ∷ e ∷ g ∷ []) =
    if all is_digit (a ∷ b ∷ c ∷ d ∷ e ∷ g ∷ [])
    then date (2000 + number e g) (number c d) (number a b)
    else none
read_token (a ∷ b ∷ c ∷ d ∷ e ∷ g ∷ h ∷ rest) = none

unfoldable pub parse_expiry_from_symbol : List ℕ → Option Date
unfolding split
parse_expiry_from_symbol symbol =
    let parts = split symbol in if ltb (length parts) 4 then none else read_token (last_part parts)

-- `sorted` of the set `seen`: an insertion that leaves out what is there.
abbrev pub insert_date : Date → List Date → List Date
insert_date e [] = e ∷ []
insert_date e (x ∷ xs) =
    let rest = insert_date e xs in
    if same_date e x then x ∷ xs else if before_date e x then e ∷ x ∷ xs else x ∷ rest

abbrev pub insert_expiry : Option Date → List Date → List Date
insert_expiry none seen = seen
insert_expiry (some e) seen = insert_date e seen

unfoldable pub list_expiries : List (List ℕ) → List Date
unfolding parse_expiry_from_symbol
list_expiries [] = []
list_expiries (symbol ∷ symbols) =
    insert_expiry (parse_expiry_from_symbol symbol) (list_expiries symbols)

unfoldable pub expiry_settlement : Date → ℕ
unfolding ordinal
expiry_settlement e = (ordinal e - epoch_day) * 86400000 + settlement_utc_hour * 3600000

unfoldable pub is_expiry_live : Date → ℕ → Bool
unfolding expiry_settlement
is_expiry_live e now = ltb now (expiry_settlement e)

unfoldable pub live_expiries : List Date → ℕ → List Date
unfolding is_expiry_live
live_expiries expiries now = filter (λ e. is_expiry_live e now) expiries

-- `expiries[-1]`
abbrev pub last_date : List Date → Option Date
last_date [] = none
last_date (e ∷ es) = let rest = last_date es in if is_empty es then some e else rest

abbrev pub first_or : List Date → List Date → Option Date
first_or [] expiries = last_date expiries
first_or (e ∷ es) expiries = some e

unfoldable pub default_expiry : List Date → ℕ → Option Date
unfolding live_expiries
default_expiry expiries now = first_or (live_expiries expiries now) expiries

-- `symbol_diff`, of sets as lists with a test of equality
unfoldable pub symbol_diff {ℓ} : {A : Type ℓ} → (A → A → Bool) → List A → List A → List A × List A
symbol_diff same current fresh =
    (filter (λ s. not (any (same s) current)) fresh, filter (λ s. not (any (same s) fresh)) current)
