-- ===== src/Alerts.antt =====
-- The alert book, backend/app/live/alerts.py: one user's alerts by key, as an association list with one
-- entry for a key. Times are seconds, as whole numbers. Message texts and the Telegram call are left
-- out; `raise_alert` says whether a message is due.
pub mod Quiet
use Prim.Native.String.{String}
use delta_paper_trader.Prelude.{
  ℕ, ◌+◌, ◌-◌, ◌==◌, leb, ltb, Bool, true, false, not, ◌&&◌, ◌||◌, Option, none, some, List, [],
  ◌∷◌, filter, find, if◌then◌else◌,
}
use delta_paper_trader.Risk.{Level, info, warning, critical, emergency}

-- A key of the book is a text; here it is its number.
pub record Alert : Type 0 where
  pub key : ℕ
  pub level : Level
  pub sticky : Bool
  pub t : ℕ
  pub sent_at : ℕ
  pub sent_level : Option Level

abbrev pub Book : Type 0
Book = List Alert

-- `LEVELS.index`
abbrev pub rank : Level → ℕ
rank info = 0
rank warning = 1
rank critical = 2
rank emergency = 3

abbrev pub resend_every : ℕ
resend_every = 300

abbrev pub event_ttl : ℕ
event_ttl = 900

-- `book.get(key)`
unfoldable pub lookup : ℕ → Book → Option Alert
lookup key [] = none
lookup key (a ∷ book) = let rest = lookup key book in if a.key == key then some a else rest

-- `book[key] = a`
unfoldable pub store : Alert → Book → Book
store a [] = a ∷ []
store a (b ∷ book) = let rest = store a book in if b.key == a.key then a ∷ book else b ∷ rest

-- `book.pop(key, None)`
unfoldable pub clear : ℕ → Book → Book
clear key book = filter (λ (a : Alert). not (a.key == key)) book

abbrev pub is_escalated : Level → Option Level → Bool
is_escalated level none = true
is_escalated level (some sent) = ltb (rank sent) (rank level)

-- The alert that is in the book after the first lines of `raise_`.
unfoldable pub noted : ℕ → Level → Bool → ℕ → Option Alert → Alert
noted key level sticky now none = record {
  key = key;
  level = level;
  sticky = sticky;
  t = now;
  sent_at = 0;
  sent_level = none;
}
noted key level sticky now (some a) = record a { level = level; t = now; sticky = sticky }

unfoldable pub is_due : Level → ℕ → Alert → Bool
is_due level now a = is_escalated level a.sent_level || leb resend_every (now - a.sent_at)

abbrev pub mark_sent : Bool → Level → ℕ → Alert → Alert
mark_sent true level now a = record a { sent_at = now; sent_level = some level }
mark_sent false level now a = a

-- `raise_`: whether the alert is to be sent now, and the book.
unfoldable pub raise_alert : ℕ → Level → Bool → ℕ → Book → Bool × Book
raise_alert key level sticky now book =
    let a = noted key level sticky now (lookup key book) in
    let due = is_due level now a in (due, store (mark_sent due level now a) book)

-- `active` drops the one-off events that are over.
unfoldable pub expire : ℕ → Book → Book
expire now book = filter (λ (a : Alert). not (not a.sticky && ltb event_ttl (now - a.t))) book

-- The stable sort of `active`, the highest level first.
unfoldable pub insert_alert : Alert → List Alert → List Alert
insert_alert a [] = a ∷ []
insert_alert a (b ∷ bs) =
    let rest = insert_alert a bs in
    if ltb (rank a.level) (rank b.level) then b ∷ rest else a ∷ b ∷ bs

unfoldable pub sort_alerts : List Alert → List Alert
sort_alerts [] = []
sort_alerts (a ∷ rest) = insert_alert a (sort_alerts rest)

unfoldable pub active : ℕ → Book → List Alert × Book
active now book = (sort_alerts (expire now book), expire now book)
