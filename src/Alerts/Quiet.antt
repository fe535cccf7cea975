-- ===== src/Alerts/Quiet.antt =====
-- How often an alert is sent.
use delta_paper_trader.Prelude.{
  ℕ, suc, ◌+◌, ◌<◌, ◌≤◌, ◌==◌, ◌≡◌, refl, ap, sym, ◌∙◌, Bool, true, false, Option, none, some, List,
  [], ◌∷◌, arith, inl, inr, Bool-cases, if◌then◌else◌, In,
}
use mathlib.Core.Path.{subst}
use delta_paper_trader.Risk.{Level}
use delta_paper_trader.Alerts.{
  Alert, Book, rank, resend_every, lookup, store, noted, is_due, mark_sent, raise_alert,
}

lookup-store : (a : Alert) (book : Book) → lookup a.key (store a book) ≡ some a
unfolding lookup store
lookup-store a [] = ground arith
lookup-store a (b ∷ book) = elim (Bool-cases (b.key == a.key)) [
  | inl e ↦ rw e (ground arith)
  | inr e ↦ rw (e, e) (lookup-store a book)
]

lookup-store_other :
    (a : Alert) (key : ℕ) (book : Book)
    → (a.key == key) ≡ false
    → lookup key (store a book) ≡ lookup key book
unfolding lookup store
lookup-store_other a key [] h = ground arith
lookup-store_other a key (b ∷ book) h = elim (Bool-cases (b.key == a.key)) [
  | inl e ↦ ground arith
  | inr e ↦ ground (arith, lookup-store_other a key book h)
]

lookup-key : (key : ℕ) (book : Book) (a : Alert) → lookup key book ≡ some a → a.key ≡ key
unfolding lookup
lookup-key key [] a h = cc
lookup-key key (b ∷ book) a h = elim (Bool-cases (b.key == key)) [
  | inl e ↦ let k : some b ≡ some a = rw e at h in ground (arith, k)
  | inr e ↦ lookup-key key book a (rw e at h)
]

-- A call of `raise_alert`.
pub record Raise : Type 0 where
  pub key : ℕ
  pub level : Level
  pub sticky : Bool
  pub now : ℕ

abbrev after : Raise → Book → Book
after q book = (raise_alert q.key q.level q.sticky q.now book).1

-- How many messages for the key the calls send, one call after the other.
pub sent_for : ℕ → List Raise → Book → ℕ
sent_for key [] book = 0
sent_for key (q ∷ calls) book =
    let rest = sent_for key calls (after q book) in
    if (q.key == key)
    then (if (raise_alert q.key q.level q.sticky q.now book).0 then suc rest else rest)
    else rest

-- The key's alert was last sent at this time with this level.
abbrev WasSent : ℕ → Level → ℕ → Book → Type 0
WasSent key level t book =
    (a : Alert) × (lookup key book ≡ some a) × (a.sent_at ≡ t) × (a.sent_level ≡ some level)

abbrev pub IsQuiet : Level → ℕ → Raise → Type 0
IsQuiet level t q = (rank q.level ≤ rank level) × (q.now < t + resend_every)

noted-key :
    (key : ℕ) (level : Level) (sticky : Bool) (now : ℕ) (book : Book) (o : Option Alert)
    → lookup key book ≡ o
    → (noted key level sticky now o).key ≡ key
unfolding noted
noted-key key level sticky now book none h = refl
noted-key key level sticky now book (some a) h = lookup-key key book a h

mark_sent-key :
    (b : Bool) (level : Level) (now : ℕ) (a : Alert) → (mark_sent b level now a).key ≡ a.key
mark_sent-key true level now a = refl
mark_sent-key false level now a = refl

-- What is stored for the key after a call is found under it.
lookup-after :
    (q : Raise) (book : Book)
    → let a = noted q.key q.level q.sticky q.now (lookup q.key book) in
      lookup q.key (after q book) ≡ some (mark_sent (is_due q.level q.now a) q.level q.now a)
unfolding raise_alert
lookup-after q book =
    let a = noted q.key q.level q.sticky q.now (lookup q.key book) in
    let b = mark_sent (is_due q.level q.now a) q.level q.now a in
    let same : b.key ≡ q.key =
      mark_sent-key (is_due q.level q.now a) q.level q.now a
      ∙ noted-key q.key q.level q.sticky q.now book (lookup q.key book) refl in
    subst (λ k. lookup k (store b book) ≡ some b) same (lookup-store b book)

lookup-after_other :
    (q : Raise) (key : ℕ) (book : Book)
    → (q.key == key) ≡ false
    → lookup key (after q book) ≡ lookup key book
unfolding raise_alert
lookup-after_other q key book h =
    let a = noted q.key q.level q.sticky q.now (lookup q.key book) in
    let b = mark_sent (is_due q.level q.now a) q.level q.now a in
    let same : b.key ≡ q.key =
      mark_sent-key (is_due q.level q.now a) q.level q.now a
      ∙ noted-key q.key q.level q.sticky q.now book (lookup q.key book) refl in
    lookup-store_other b key book (rw same h)

lookup-after_due :
    (q : Raise) (book : Book) (o : Option Alert) (b : Bool)
    → lookup q.key book ≡ o
    → is_due q.level q.now (noted q.key q.level q.sticky q.now o) ≡ b
    → lookup q.key (after q book)
      ≡ some (mark_sent b q.level q.now (noted q.key q.level q.sticky q.now o))
lookup-after_due q book o b h k =
    lookup-after q book
    ∙ ap
        (λ o.
          let a = noted q.key q.level q.sticky q.now o in
          some (mark_sent (is_due q.level q.now a) q.level q.now a))
        h
    ∙ ap (λ b. some (mark_sent b q.level q.now (noted q.key q.level q.sticky q.now o))) k

sent-due :
    (q : Raise) (book : Book)
    → (raise_alert q.key q.level q.sticky q.now book).0
      ≡ is_due q.level q.now (noted q.key q.level q.sticky q.now (lookup q.key book))
unfolding raise_alert
sent-due q book = refl

sent-WasSent :
    (q : Raise) (book : Book)
    → (raise_alert q.key q.level q.sticky q.now book).0 ≡ true
    → WasSent q.key q.level q.now (after q book)
sent-WasSent q book h =
    let a = noted q.key q.level q.sticky q.now (lookup q.key book) in
    (
      mark_sent true q.level q.now a,
      lookup-after_due q book (lookup q.key book) true refl (sym (sent-due q book) ∙ h),
      refl,
      refl,
    )

quiet-is_due :
    (q : Raise) (a : Alert) (level : Level) (t : ℕ)
    → a.sent_at ≡ t
    → a.sent_level ≡ some level
    → IsQuiet level t q
    → is_due q.level q.now (noted q.key q.level q.sticky q.now (some a)) ≡ false
unfolding is_due noted
quiet-is_due q a level t at sent (low, soon) = rw sent (ground (arith, at, low, soon))

quiet-step :
    (q : Raise) (book : Book) (level : Level) (t : ℕ)
    → WasSent q.key level t book
    → IsQuiet level t q
    → ((raise_alert q.key q.level q.sticky q.now book).0 ≡ false)
      × WasSent q.key level t (after q book)
unfolding noted
quiet-step q book level t (a, found, at, sent) quiet =
    let due = quiet-is_due q a level t at sent quiet in
    (
      sent-due q book ∙ rw found due,
      (
        noted q.key q.level q.sticky q.now (some a),
        lookup-after_due q book (some a) false found due,
        at,
        sent,
      ),
    )

quiet-calls :
    (key : ℕ) (level : Level) (t : ℕ) (calls : List Raise) (book : Book)
    → WasSent key level t book
    → ((c : Raise) → In c calls → c.key ≡ key → IsQuiet level t c)
    → sent_for key calls book ≡ 0
unfolding sent_for
quiet-calls key level t [] book w quiet = refl
quiet-calls key level t (q ∷ calls) book w quiet = elim (Bool-cases (q.key == key)) [
  | inl e ↦
      let same : q.key ≡ key = ground arith in
      let (none_now, w') = quiet-step q book level t (rw same w) (quiet q (inl refl) same) in
      rw (e, none_now)
        (quiet-calls key level t calls (after q book)
          (subst (λ k. WasSent k level t (after q book)) same w') (λ c m. quiet c (inr m)))
  | inr e ↦
      let (a, found, at, sent) = w in
      rw e (
        quiet-calls key level t calls (after q book)
          (a, lookup-after_other q key book e ∙ found, at, sent) (λ c m. quiet c (inr m)))
]

-- Once a message for a key is sent, the calls that follow send none for this key, as long as those for
-- this key have the same or a lower level and come within 300 seconds of it, whatever other keys are
-- raised in between.
pub sent_alert_is_not_repeated :
    (q : Raise) (calls : List Raise) (book : Book)
    → (raise_alert q.key q.level q.sticky q.now book).0 ≡ true
    → ((c : Raise) → In c calls → c.key ≡ q.key → IsQuiet q.level q.now c)
    → sent_for q.key calls (raise_alert q.key q.level q.sticky q.now book).1 ≡ 0
sent_alert_is_not_repeated q calls book h quiet =
    quiet-calls q.key q.level q.now calls (after q book) (sent-WasSent q book h) quiet
