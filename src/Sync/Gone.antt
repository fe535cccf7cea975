-- ===== src/Sync/Gone.antt =====
-- Which legs `reconcile` gives up.
use Prim.Native.String.{String}
use mathlib.Core.Path.{subst}
use delta_paper_trader.Prelude.{
  ℕ, ◌==◌, ◌≡◌, ◌≢◌, refl, ap, ◌⊎◌, inl, inr, Bool, true, false, not, ◌&&◌, Option, none, some,
  List, [], ◌∷◌, In, In-append_inv, In-filter_inv, Bool-cases, arith, filter, find, is_some,
}
use delta_paper_trader.Prelude.Int.{is_zero}
use delta_paper_trader.Float.{Float}
use delta_paper_trader.Models.{Position}
use delta_paper_trader.Sync.{
  Contract, DeltaPosition, Hit, GroupKey, Reconciled, member, hit_of, side_of, is_side, open_hits,
  usable, refresh, flip, join_to, join, matching, on_match, pid_of, on_contract, take, take_all,
  sweep_gone, reconcile, get_key, underlying_of, keys_from,
}

find-true : {A : Type 0} (p : A → Bool) (xs : List A) (x : A) → find p xs ≡ some x → p x ≡ true
find-true p [] x h = cc
find-true p (y ∷ xs) x h = elim (Bool-cases (p y)) [
  | inl e ↦ let k : some y ≡ some x = rw e at h in cc
  | inr e ↦ find-true p xs x (rw e at h)
]

module _ {W : Type 0} ⦃f : Float W⦄ (user_id : ℕ) (contract_of : String → Option (Contract W))
    (spot_of : String → W) (days_left : String → W) (now : ℕ) where
  -- The reported position is on the product of the leg, by the contract that the feed gives, and on the other
  -- side.
  abbrev pub Flips : DeltaPosition W → Hit → Type 0
  Flips dp h =
      (c : Contract W × String × ℕ) × (usable (contract_of dp.symbol) ≡ some c)
      × (is_zero dp.size ≡ false)
      × ((h.pid == pid_of dp (c.2)) ≡ true)
      × (is_side h.side (side_of dp.size) ≡ false)

  abbrev pub FlippedBy : List (DeltaPosition W) → Hit → Type 0
  FlippedBy dps h = (dp : DeltaPosition W) × In dp dps × Flips dp h

  join_to-keeps :
      (k : Option GroupKey) (dp : DeltaPosition W) (c : Contract W) (expiry : String) (pid : ℕ)
      (st : Reconciled W)
      → let st' = join_to user_id contract_of spot_of days_left now k dp c expiry pid st in
        (st'.seen ≡ st.seen) × (st'.gone ≡ st.gone)
  join_to-keeps none dp c expiry pid st = (refl, refl)
  join_to-keeps (some k) dp c expiry pid st = (refl, refl)

  flip-seen :
      (found : Option Hit) (pid : ℕ) (st : Reconciled W) → (flip found pid st).seen ≡ st.seen
  flip-seen none pid st = refl
  flip-seen (some h) pid st = refl

  abbrev matched :
      Option Hit
      → Option Hit
      → DeltaPosition W
      → Contract W
      → String
      → ℕ
      → Reconciled W
      → Reconciled W
  matched = on_match user_id contract_of spot_of days_left now

  on_match-seen :
      (m found : Option Hit) (dp : DeltaPosition W) (c : Contract W) (expiry : String) (pid : ℕ)
      (st : Reconciled W)
      → (matched m found dp c expiry pid st).seen ≡ st.seen
  unfolding refresh join
  on_match-seen (some h) found dp c expiry pid st = refl
  on_match-seen none found dp c expiry pid st =
      rw ((join_to-keeps _ dp c expiry pid (flip found pid st)).0) (flip-seen found pid st)

  flip-gone :
      (found : Option Hit) (pid : ℕ) (st : Reconciled W) (h : Hit)
      → In h (flip found pid st).gone
      → In h st.gone ⊎ (found ≡ some h)
  flip-gone none pid st h i = inl i
  flip-gone (some g) pid st h i = elim (In-append_inv h st.gone (g ∷ []) i) [
    | inl k ↦ inl k
    | inr k ↦ elim k [ inl same ↦ inr (rw same refl) | inr bad ↦ absurd bad ]
  ]

  -- What a leg that is given up in the body of the loop is: it was so before, or it is the one found.
  on_match-gone :
      (m found : Option Hit) (dp : DeltaPosition W) (c : Contract W) (expiry : String) (pid : ℕ)
      (st : Reconciled W) (h : Hit)
      → In h (matched m found dp c expiry pid st).gone
      → In h st.gone ⊎ ((m ≡ none) × (found ≡ some h))
  unfolding refresh join
  on_match-gone (some g) found dp c expiry pid st h i = inl i
  on_match-gone none found dp c expiry pid st h i =
      elim (flip-gone found pid st h (
        rw
          ((join_to-keeps (get_key (underlying_of dp.parts) expiry (flip found pid st).by_key) dp c
            expiry pid (flip found pid st)).1)
          at i)) [ inl k ↦ inl k | inr k ↦ inr (refl, k) ]

  -- What holds of the loop's state: what was given up was found flipped by one of the positions, and the
  -- positions gone through are seen.
  abbrev Sound : List (DeltaPosition W) → Reconciled W → Type 0
  Sound dps st = (h : Hit) → In h st.gone → FlippedBy dps h

  member-cons : (n m : ℕ) (ns : List ℕ) → member n ns ≡ true → member n (m ∷ ns) ≡ true
  member-cons n m ns h = ground (arith, h)

  matching-none :
      (dp : DeltaPosition W) (o : Option Hit) (h : Hit)
      → matching dp o ≡ none
      → o ≡ some h
      → is_side h.side (side_of dp.size) ≡ false
  matching-none dp none h e k = cc
  matching-none dp (some g) h e k = elim (Bool-cases (is_side h.side (side_of dp.size))) [
    | inr n ↦ n
    | inl y ↦
        let both : matching dp (some h) ≡ none = subst (λ o. matching dp o ≡ none) k e in
        let bad : some h ≡ none = rw y at both in cc
  ]

  abbrev handled :
      List Hit → Option (Contract W × String × ℕ) → DeltaPosition W → Reconciled W → Reconciled W
  handled = on_contract user_id contract_of spot_of days_left now

  on_contract-Sound :
      (dps : List (DeltaPosition W)) (hits : List Hit) (o : Option (Contract W × String × ℕ))
      (dp : DeltaPosition W) (st : Reconciled W)
      → usable (contract_of dp.symbol) ≡ o
      → In dp dps
      → is_zero dp.size ≡ false
      → Sound dps st
      → Sound dps (handled hits o dp st)
  on_contract-Sound dps hits none dp st e i z k h m =
      elim (Bool-cases (is_some (hit_of dp.product_id hits))) [
        | inl y ↦ k h (rw y at m)
        | inr n ↦ k h (rw n at m)
      ]
  on_contract-Sound dps hits (some (c, expiry, cp)) dp st e i z k h m =
      let pid = pid_of dp cp in
      let found = hit_of pid hits in
      elim (on_match-gone (matching dp found) found dp c expiry pid
        (record st { seen = pid ∷ st.seen }) h m) [
          | inl old ↦ k h old
          | inr (none_fits, is_found) ↦ (
            dp,
            i,
            (
              (c, expiry, cp),
              e,
              z,
              find-true (λ (g : Hit). g.pid == pid) hits h is_found,
              matching-none dp found h none_fits is_found,
            ),
          )
        ]

  on_contract-seen :
      (n : ℕ) (hits : List Hit) (o : Option (Contract W × String × ℕ)) (dp : DeltaPosition W)
      (st : Reconciled W)
      → member n st.seen ≡ true
      → member n (handled hits o dp st).seen ≡ true
  on_contract-seen n hits none dp st h = elim (Bool-cases (is_some (hit_of dp.product_id hits))) [
    | inl y ↦ rw y h
    | inr y ↦ rw y h
  ]
  on_contract-seen n hits (some (c, expiry, cp)) dp st h =
      let pid = pid_of dp cp in
      let found = hit_of pid hits in
      rw
        (on_match-seen (matching dp found) found dp c expiry pid
          (record st { seen = pid ∷ st.seen }))
        (member-cons n pid st.seen h)

  abbrev took : List Hit → DeltaPosition W → Reconciled W → Reconciled W
  took = take user_id contract_of spot_of days_left now

  abbrev took_all : List Hit → List (DeltaPosition W) → Reconciled W → Reconciled W
  took_all = take_all user_id contract_of spot_of days_left now

  take-Sound :
      (dps : List (DeltaPosition W)) (hits : List Hit) (dp : DeltaPosition W) (st : Reconciled W)
      → In dp dps
      → Sound dps st
      → Sound dps (took hits dp st)
  unfolding take
  take-Sound dps hits dp st i k h m = elim (Bool-cases (is_zero dp.size)) [
    | inl z ↦ k h (rw z at m)
    | inr z ↦
        on_contract-Sound dps hits (usable (contract_of dp.symbol)) dp
          (record st { seen = dp.product_id ∷ st.seen }) refl i z k h (rw z at m)
  ]

  take-seen :
      (n : ℕ) (hits : List Hit) (dp : DeltaPosition W) (st : Reconciled W)
      → member n st.seen ≡ true
      → member n (took hits dp st).seen ≡ true
  unfolding take
  take-seen n hits dp st h = elim (Bool-cases (is_zero dp.size)) [
    | inl z ↦ rw z h
    | inr z ↦ rw z (
        on_contract-seen n hits (usable (contract_of dp.symbol)) dp
          (record st { seen = dp.product_id ∷ st.seen }) (member-cons n dp.product_id st.seen h))
  ]

  take-sees :
      (hits : List Hit) (dp : DeltaPosition W) (st : Reconciled W)
      → is_zero dp.size ≡ false
      → member dp.product_id (took hits dp st).seen ≡ true
  unfolding take
  take-sees hits dp st z = rw z (
      on_contract-seen dp.product_id hits (usable (contract_of dp.symbol)) dp
        (record st { seen = dp.product_id ∷ st.seen }) (ground arith))

  take_all-Sound :
      (all dps : List (DeltaPosition W)) (hits : List Hit) (st : Reconciled W)
      → ((dp : DeltaPosition W) → In dp dps → In dp all)
      → Sound all st
      → Sound all (took_all hits dps st)
  unfolding take_all
  take_all-Sound all [] hits st sub k = k
  take_all-Sound all (dp ∷ dps) hits st sub k =
      take_all-Sound all dps hits (took hits dp st) (λ x m. sub x (inr m))
        (take-Sound all hits dp st (sub dp (inl refl)) k)

  take_all-seen :
      (n : ℕ) (dps : List (DeltaPosition W)) (hits : List Hit) (st : Reconciled W)
      → member n st.seen ≡ true
      → member n (took_all hits dps st).seen ≡ true
  unfolding take_all
  take_all-seen n [] hits st h = h
  take_all-seen n (dp ∷ dps) hits st h =
      take_all-seen n dps hits (took hits dp st) (take-seen n hits dp st h)

  take_all-sees :
      (dp : DeltaPosition W) (dps : List (DeltaPosition W)) (hits : List Hit) (st : Reconciled W)
      → In dp dps
      → is_zero dp.size ≡ false
      → member dp.product_id (took_all hits dps st).seen ≡ true
  unfolding take_all
  take_all-sees dp [] hits st i z = absurd i
  take_all-sees dp (x ∷ dps) hits st i z = elim i [
    | inl same ↦
        take_all-seen dp.product_id dps hits (took hits x st)
          (rw same (take-sees hits x st (rw same at z)))
    | inr k ↦ take_all-sees dp dps hits (took hits x st) k z
  ]

  -- A leg is given up for one of two reasons alone: a reported position on its product stands on the other side,
  -- or it is an open leg of the groups and no position that Delta reports with a size names its product, whether
  -- or not the feed can describe the contract.
  pub gone_is_justified :
      (groups : List (Position W)) (dps : List (DeltaPosition W)) (fresh : ℕ) (h : Hit)
      → In h (reconcile user_id contract_of spot_of days_left now groups dps fresh).gone
      → FlippedBy dps h
        ⊎ (In h (open_hits groups)
            × ((dp : DeltaPosition W)
                → In dp dps
                → is_zero dp.size ≡ false
                → dp.product_id ≢ h.pid))
  unfolding reconcile sweep_gone
  gone_is_justified groups dps fresh h m =
      let st₀ : Reconciled W = record {
        groups = groups;
        new_groups = [];
        gone = [];
        untracked = [];
        new_legs = [];
        by_key = keys_from groups [];
        seen = [];
        flipped = [];
        fresh = fresh;
      } in
      let st = took_all (open_hits groups) dps st₀ in
      let left = λ (g : Hit). not (member g.pid st.seen) && not (member g.pid st.flipped) in
      elim (In-append_inv h st.gone (filter left (open_hits groups)) m) [
        | inl k ↦
            inl (take_all-Sound dps dps (open_hits groups) st₀ (λ x i. i) (λ g bad. absurd bad) h k)
        | inr k ↦
            let (i, unseen) = In-filter_inv left h (open_hits groups) k in
            inr (
              i,
              λ dp j z same. ground (
                arith,
                unseen,
                ap (λ n. member n st.seen) same,
                take_all-sees dp dps (open_hits groups) st₀ j z,
              ),
            )
      ]
