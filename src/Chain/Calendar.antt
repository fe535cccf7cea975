-- ===== src/Chain/Calendar.antt =====
-- The dates of Python's `datetime` that backend/app/services/chain.py uses.
use delta_paper_trader.Prelude.{
  ℕ, zero, suc, ◌+◌, ◌-◌, ◌*◌, ◌/◌, ◌%◌, ◌==◌, ltb, leb, Bool, not, ◌&&◌, ◌||◌, Option, none, some,
  if◌then◌else◌,
}

pub record Date : Type 0 where
  pub year : ℕ
  pub month : ℕ
  pub day : ℕ

abbrev pub is_leap : ℕ → Bool
is_leap y = (y % 4 == 0) && (not (y % 100 == 0) || (y % 400 == 0))

-- The months of 31 days: the odd ones up to July, the even ones from August.
abbrev long_month : ℕ → Bool
long_month m = if leb m 7 then m % 2 == 1 else m % 2 == 0

unfoldable pub days_in_month : ℕ → ℕ → ℕ
days_in_month year month =
    if month == 2
    then 28 + (if is_leap year then 1 else 0)
    else 30 + (if long_month month then 1 else 0)

abbrev pub fits : ℕ → ℕ → ℕ → Bool
fits y m d = leb 1 m && leb m 12 && leb 1 d && leb d (days_in_month y m)

-- `date(y, m, d)`, with `ValueError` as `none`; the years here are all within its range.
abbrev pub date : ℕ → ℕ → ℕ → Option Date
date y m d = if fits y m d then some (record { year = y; month = m; day = d }) else none

-- The days of a year in the first `n` months, `n` not counted.
abbrev pub days_before : ℕ → ℕ → ℕ
days_before year zero = 0
days_before year (suc k) = (if k == 0 then 0 else days_in_month year k) + days_before year k

-- `date.toordinal`
unfoldable pub ordinal : Date → ℕ
unfolding days_in_month
ordinal e =
    let y = e.year - 1 in y * 365 + y / 4 - y / 100 + y / 400 + days_before e.year e.month + e.day

-- The ordinal of 1970-01-01.
abbrev pub epoch_day : ℕ
epoch_day = 719163

abbrev pub same_date : Date → Date → Bool
same_date a b = (a.year == b.year) && (a.month == b.month) && (a.day == b.day)

abbrev pub before_date : Date → Date → Bool
before_date a b =
    ltb a.year b.year
    || ((a.year == b.year) && (ltb a.month b.month || ((a.month == b.month) && ltb a.day b.day)))
