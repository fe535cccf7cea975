-- ===== src/RateLimit/Clients.antt =====
-- The clients of the rate limiter do not see each other.
use mathlib.Core.Path.{subst}
use delta_paper_trader.Prelude.{
  ℕ, ◌+◌, ◌==◌, ltb, ◌≡◌, refl, sym, ap, ◌∙◌, Bool, true, false, Option, none, some, List, [], ◌∷◌,
  filter, find, map, length, if_true, Bool-cases, inl, inr, arith,
}
use delta_paper_trader.Float.{Float, ◌⊖◌, ◌≤?◌, ◌≼◌}
use delta_paper_trader.Float.Laws.{IsOrdered, IsRounded}
use delta_paper_trader.RateLimit.{
  Window, Arrival, Reply, address, is_of, put_window, window_length, new_window, restarted, counted,
  is_current, pruned, reply_to, call, replies, max_tracked,
}

abbrev pub replies_to : ℕ → List (ℕ × Reply) → List Reply
replies_to ip rs = map (λ (r : ℕ × Reply). r.1) (filter (λ (r : ℕ × Reply). r.0 == ip) rs)

eq_self : (n : ℕ) → (n == n) ≡ true
eq_self n = ground arith

module _ {A : Type 0} where
  filter-filter_comm :
      (p q : A → Bool) (xs : List A) → filter p (filter q xs) ≡ filter q (filter p xs)
  filter-filter_comm p q [] = refl
  filter-filter_comm p q (x ∷ xs) = elim (Bool-cases (p x)) [
    | inl e ↦ elim (Bool-cases (q x)) [
      | inl k ↦ rw (k, e, k) (ap (λ t. x ∷ t) (filter-filter_comm p q xs))
      | inr k ↦ rw (k, e, k) (filter-filter_comm p q xs)
    ]
    | inr e ↦ elim (Bool-cases (q x)) [
      | inl k ↦ rw (k, e) (filter-filter_comm p q xs)
      | inr k ↦ rw (k, e) (filter-filter_comm p q xs)
    ]
  ]

  filter_twice : (p : A → Bool) (xs : List A) → filter p (filter p xs) ≡ filter p xs
  filter_twice p [] = refl
  filter_twice p (x ∷ xs) = elim (Bool-cases (p x)) [
    | inl e ↦ rw (e, e) (ap (λ t. x ∷ t) (filter_twice p xs))
    | inr e ↦ rw e (filter_twice p xs)
  ]

  abbrev pub first : List A → Option A
  first [] = none
  first (x ∷ xs) = some x

  pub find-first : (p : A → Bool) (xs : List A) → find p xs ≡ first (filter p xs)
  find-first p [] = refl
  find-first p (x ∷ xs) = elim (Bool-cases (p x)) [
    | inl e ↦ rw e refl
    | inr e ↦ rw e (find-first p xs)
  ]

module _ {W : Type 0} where
  -- Storing a window leaves the windows of another address.
  of-put_window_other :
      (ip : ℕ) (w : Window W) (hits : List (Window W))
      → is_of ip w ≡ false
      → filter (is_of ip) (put_window w hits) ≡ filter (is_of ip) hits
  of-put_window_other ip w [] h = rw h refl
  of-put_window_other ip w (x ∷ hits) h = elim (Bool-cases (x.ip == w.ip)) [
    | inl e ↦ let k : (x.ip == ip) ≡ false = ground (arith, e, h) in rw (e, h, k) refl
    | inr e ↦ elim (Bool-cases (x.ip == ip)) [
      | inl k ↦ rw (e, k) (ap (λ t. x ∷ t) (of-put_window_other ip w hits h))
      | inr k ↦ rw (e, k) (of-put_window_other ip w hits h)
    ]
  ]

module _ {W : Type 0} ⦃f : Float W⦄ where
  -- The windows that the table has of an address, `xs`, against the last that the address had, `o`: the
  -- table has it, or has dropped it once it was over.
  abbrev pub IsKnown : W → List (Window W) → Option (Window W) → Type 0
  IsKnown now [] none = Unit
  IsKnown now [] (some w) = is_current now w ≡ false
  IsKnown now (x ∷ []) none = ⊥
  IsKnown now (x ∷ []) (some w) = x ≡ w
  IsKnown now (x ∷ y ∷ xs) o = ⊥

  IsKnown-tail :
      (now : W) (x : Window W) (xs : List (Window W)) (o : Option (Window W))
      → IsKnown now (x ∷ xs) o
      → xs ≡ []
  IsKnown-tail now x [] o h = refl
  IsKnown-tail now x (y ∷ xs) o h = absurd h

  -- An address that has one window at most has the stored one.
  of-put_window_same :
      (now : W) (ip : ℕ) (w : Window W) (hits : List (Window W)) (o : Option (Window W))
      → is_of ip w ≡ true
      → IsKnown now (filter (is_of ip) hits) o
      → filter (is_of ip) (put_window w hits) ≡ w ∷ []
  of-put_window_same now ip w [] o h k = rw h refl
  of-put_window_same now ip w (x ∷ hits) o h k = elim (Bool-cases (x.ip == ip)) [
    | inl e ↦
        let same : (x.ip == w.ip) ≡ true = ground (arith, e, h) in
        rw (same, h) (ap (λ t. w ∷ t) (IsKnown-tail now x (filter (is_of ip) hits) o (rw e at k)))
    | inr e ↦
        let other : (x.ip == w.ip) ≡ false = ground (arith, e, h) in
        rw (other, e) (of-put_window_same now ip w hits o h (rw e at k))
  ]

  -- Dropping the windows that are over keeps what is known.
  current-IsKnown :
      (now : W) (xs : List (Window W)) (o : Option (Window W))
      → IsKnown now xs o
      → IsKnown now (filter (is_current now) xs) o
  current-IsKnown now [] o k = k
  current-IsKnown now (x ∷ []) none k = absurd k
  current-IsKnown now (x ∷ []) (some w) k = elim (Bool-cases (is_current now x)) [
    | inl e ↦ rw e k
    | inr e ↦ rw e (subst (λ v. is_current now v ≡ false) k e)
  ]
  current-IsKnown now (x ∷ y ∷ xs) o k = absurd k

  pruned-IsKnown :
      (ip : ℕ) (now : W) (hits : List (Window W)) (o : Option (Window W))
      → IsKnown now (filter (is_of ip) hits) o
      → IsKnown now (filter (is_of ip) (pruned now hits)) o
  unfolding pruned
  pruned-IsKnown ip now hits o k = elim (Bool-cases (ltb max_tracked (length hits))) [
    | inl e ↦
        rw (e, filter-filter_comm (is_of ip) (is_current now) hits)
          (current-IsKnown now (filter (is_of ip) hits) o k)
    | inr e ↦ rw e k
  ]

  is_over : (now : W) (w : Window W) → is_current now w ≡ false → window_length ≼ now ⊖ w.start
  is_over now w h = ground (arith, h)

  pub restarted_new : (ip : ℕ) (now : W) → restarted ip now (new_window ip now) ≡ new_window ip now
  restarted_new ip now = elim (Bool-cases (window_length ≤? (now ⊖ now))) [
    | inl e ↦ rw e refl
    | inr e ↦ rw e refl
  ]

  -- The window that a request finds does not depend on what the table has dropped.
  counted-IsKnown :
      (ip : ℕ) (now : W) (xs : List (Window W)) (o : Option (Window W))
      → IsKnown now xs o
      → counted ip now (first xs) ≡ counted ip now o
  unfolding counted
  counted-IsKnown ip now [] none k = refl
  counted-IsKnown ip now [] (some w) k =
      ap (λ (v : Window W). record { ip = ip; start = v.start; count = v.count + 1 })
        (restarted_new ip now ∙ sym (if_true _ _ (is_over now w k)))
  counted-IsKnown ip now (x ∷ []) none k = absurd k
  counted-IsKnown ip now (x ∷ []) (some w) k = ap (λ v. counted ip now (some v)) k
  counted-IsKnown ip now (x ∷ y ∷ xs) o k = absurd k

  module _ (o : IsOrdered W) (r : IsRounded W) where
    IsKnown-later :
        (now later : W) (xs : List (Window W)) (w : Option (Window W))
        → now ≼ later
        → IsKnown now xs w
        → IsKnown later xs w
    IsKnown-later now later [] none h k = tt
    IsKnown-later now later [] (some w) h k =
        let e = o.le_trans _ _ _ (is_over now w k) (r.sub_mono now later w.start h) in rw e refl
    IsKnown-later now later (x ∷ []) w h k = k
    IsKnown-later now later (x ∷ y ∷ xs) w h k = absurd k

  -- The requests come at times that do not go back, as `time.monotonic` promises.
  abbrev pub IsMonotonic : W → List (Arrival W) → Type 0
  IsMonotonic t [] = Unit
  IsMonotonic t (a ∷ arrivals) = (t ≼ a.now) × IsMonotonic a.now arrivals

  abbrev pub is_from : ℕ → Arrival W → Bool
  is_from ip a = address a.client == ip

  abbrev pub times : ℕ → List (Arrival W) → List W
  times ip arrivals = map (λ (a : Arrival W). a.now) (filter (is_from ip) arrivals)

  -- The replies to a client that alone has a table, of its own window.
  abbrev pub alone : ℕ → ℕ → Option (Window W) → List W → List Reply
  alone limit ip w [] = []
  alone limit ip w (t ∷ ts) =
      let v = counted ip t w in reply_to limit t v ∷ alone limit ip (some v) ts

  of-counted : (ip j : ℕ) (now : W) (w : Option (Window W)) → is_of ip (counted j now w) ≡ (j == ip)
  unfolding counted
  of-counted ip j now w = refl

  found-IsKnown :
      (ip j : ℕ) (now : W) (hits : List (Window W)) (w : Option (Window W))
      → j ≡ ip
      → IsKnown now (filter (is_of ip) hits) w
      → counted j now (find (is_of j) hits) ≡ counted ip now w
  found-IsKnown ip j now hits w p k = rw p (
      ap (counted ip now) (find-first (is_of ip) hits)
      ∙ counted-IsKnown ip now (filter (is_of ip) hits) w k)

  put-IsKnown :
      (ip : ℕ) (now : W) (hits : List (Window W)) (w : Option (Window W))
      → IsKnown now (filter (is_of ip) hits) w
      → (v : Window W) → is_of ip v ≡ true
      → IsKnown now (filter (is_of ip) (pruned now (put_window v hits))) (some v)
  put-IsKnown ip now hits w k v h =
      pruned-IsKnown ip now (put_window v hits) (some v)
        (subst (λ xs. IsKnown now xs (some v)) (sym (of-put_window_same now ip v hits w h k)) refl)

  module _ (o : IsOrdered W) (r : IsRounded W) (limit ip : ℕ) where
    pub replies-alone :
        (t : W) (arrivals : List (Arrival W)) (hits : List (Window W)) (w : Option (Window W))
        → IsMonotonic t arrivals
        → IsKnown t (filter (is_of ip) hits) w
        → replies_to ip (replies limit arrivals hits) ≡ alone limit ip w (times ip arrivals)
    unfolding call
    replies-alone t [] hits w m k = refl
    replies-alone t (a ∷ arrivals) hits w m k =
        let known = IsKnown-later o r t a.now (filter (is_of ip) hits) w m.0 k in
        elim (Bool-cases (is_from ip a)) [
          | inl e ↦
              let own =
                found-IsKnown ip (address a.client) a.now hits w (ground (arith, e)) known in
              let v = counted ip a.now w in
              let mine = of-counted ip ip a.now w ∙ eq_self ip in
              rw (e, own)
                (ap (λ rest. reply_to limit a.now v ∷ rest)
                  (replies-alone a.now arrivals (pruned a.now (put_window v hits)) (some v) m.1
                    (put-IsKnown ip a.now hits w known v mine)))
          | inr e ↦
              let c = counted (address a.client) a.now (find (is_of (address a.client)) hits) in
              let same = of-put_window_other ip c hits (
                of-counted ip (address a.client) a.now (find (is_of (address a.client)) hits)
                ∙ e) in
              rw e (
                replies-alone a.now arrivals (pruned a.now (put_window c hits)) w m.1 (
                  pruned-IsKnown ip a.now (put_window c hits) w
                    (subst (λ xs. IsKnown a.now xs w) (sym same) known)))
        ]

    earlier :
        (t later : W) (arrivals : List (Arrival W))
        → t ≼ later
        → IsMonotonic later arrivals
        → IsMonotonic t arrivals
    earlier t later [] h m = tt
    earlier t later (a ∷ arrivals) h m = (o.le_trans t later a.now h m.0, m.1)

    IsMonotonic-filter :
        (t : W) (arrivals : List (Arrival W))
        → IsMonotonic t arrivals
        → IsMonotonic t (filter (is_from ip) arrivals)
    IsMonotonic-filter t [] m = tt
    IsMonotonic-filter t (a ∷ arrivals) m =
        let rest = IsMonotonic-filter a.now arrivals m.1 in
        elim (Bool-cases (is_from ip a)) [
          | inl e ↦ rw e (m.0, rest)
          | inr e ↦ rw e (earlier t a.now (filter (is_from ip) arrivals) m.0 rest)
        ]

    -- When the clock does not go back, the replies to a client are those it gets when the limiter sees
    -- its requests alone: requests of other clients, and the windows dropped to bound the table, change
    -- nothing.
    pub clients_are_independent :
        (t : W) (arrivals : List (Arrival W))
        → IsMonotonic t arrivals
        → replies_to ip (replies limit arrivals [])
          ≡ replies_to ip (replies limit (filter (is_from ip) arrivals) [])
    clients_are_independent t arrivals m =
        replies-alone t arrivals [] none m tt
        ∙ ap (λ (xs : List (Arrival W)). alone limit ip none (map (λ (a : Arrival W). a.now) xs))
            (sym (filter_twice (is_from ip) arrivals))
        ∙ sym (
            replies-alone t (filter (is_from ip) arrivals) [] none (IsMonotonic-filter t arrivals m)
              tt)
