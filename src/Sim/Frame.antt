-- ===== src/Sim/Frame.antt =====
-- What the operations on one position leave of the row of another, and of a live row.
use mathlib.Core.Path.{subst}
use delta_paper_trader.Prelude.{
  ℕ, ◌==◌, ◌≡◌, ◌⊎◌, refl, sym, ap, ◌∙◌, Bool, true, false, not, ◌&&◌, ◌||◌, Option, some, List, [],
  ◌∷◌, map, find, filter, all, All, is_empty, if◌then◌else◌, Bool-cases, Option-cases, inl, inr,
  arith,
}
use delta_paper_trader.Float.{Float, ◌⊖◌, truthy}
use delta_paper_trader.Models.{
  Leg, Position, Account, LedgerEntry, CloseReason, is_opened, open_legs,
}
use delta_paper_trader.Sim.{
  lets_through, quote_failed, MarketView, Db, Outcome, done, no_account, MarginReply, Changed,
  get_position, get_account, is_position, is_live, closable, closing, closing_leg, remaining_margin,
  apply_change, close_position, close_leg,
}
use delta_paper_trader.Sim.Closing.{find_holds}

module _ {W : Type 0} where
  abbrev pub live_at : ℕ → ℕ → Position W → Bool
  live_at v j q = not (is_position v j q) || is_live q.source

  -- The row under the key is `p`, and every row under the key is live.
  abbrev pub IsLiveRow : ℕ → ℕ → Position W → List (Position W) → Type 0
  IsLiveRow v j p ps =
      (find (is_position v j) ps ≡ some p)
      × (is_live p.source ≡ true)
      × (all (live_at v j) ps ≡ true)

  find-map_other :
      (q t : Position W → Bool) (g : Position W → Position W) (ps : List (Position W))
      → ((a : Position W) → t a ≡ true → (q a ≡ false) × (q (g a) ≡ false))
      → find q (map (λ (a : Position W). if t a then g a else a) ps) ≡ find q ps
  find-map_other q t g [] h = refl
  find-map_other q t g (a ∷ ps) h = elim (Bool-cases (t a)) [
    | inl e ↦ let (x, y) = h a e in rw (e, x, y) (find-map_other q t g ps h)
    | inr e ↦ elim (Bool-cases (q a)) [
      | inl k ↦ rw (e, k) refl
      | inr k ↦ rw (e, k) (find-map_other q t g ps h)
    ]
  ]

  all-map_other :
      (v j : ℕ) (t : Position W → Bool) (g : Position W → Position W) (ps : List (Position W))
      → ((a : Position W)
          → t a ≡ true
          → (is_position v j a ≡ false) × (is_position v j (g a) ≡ false))
      → all (live_at v j) ps ≡ true
      → all (live_at v j) (map (λ (a : Position W). if t a then g a else a) ps) ≡ true
  all-map_other v j t g [] h k = refl
  all-map_other v j t g (a ∷ ps) h k = elim (Bool-cases (t a)) [
    | inl e ↦
        let (x, y) = h a e in
        let rest : all (live_at v j) ps ≡ true = ground arith in
        rw (e, y) (all-map_other v j t g ps h rest)
    | inr e ↦
        let here : live_at v j a ≡ true = ground arith in
        let rest : all (live_at v j) ps ≡ true = ground arith in
        rw (e, here) (all-map_other v j t g ps h rest)
  ]

  keys_apart :
      (u i v j : ℕ) (a : Position W)
      → (i == j) && (u == v) ≡ false
      → is_position u i a ≡ true
      → is_position v j a ≡ false
  keys_apart u i v j a h k = ground arith

  -- A change of the rows under another key, that keeps their key, leaves a live row.
  pub change-IsLiveRow :
      (u i v j : ℕ) (g : Position W → Position W) (p : Position W) (ps : List (Position W))
      → (i == j) && (u == v) ≡ false
      → ((a : Position W) → is_position u i a ≡ true → is_position u i (g a) ≡ true)
      → IsLiveRow v j p ps
      → IsLiveRow v j p (map (λ (a : Position W). if is_position u i a then g a else a) ps)
  change-IsLiveRow u i v j g p ps ne keep (h, l, k) =
      let other : (a : Position W)
          → is_position u i a ≡ true
          → (is_position v j a ≡ false) × (is_position v j (g a) ≡ false) =
        λ a e. (keys_apart u i v j a ne e, keys_apart u i v j (g a) ne (keep a e)) in
      (
        find-map_other (is_position v j) (is_position u i) g ps other ∙ h,
        l,
        all-map_other v j (is_position u i) g ps other k,
      )

  -- What an operation returns still has the live row.
  abbrev pub KeepsLive : ℕ → ℕ → Position W → Outcome W → Type 0
  KeepsLive v j p (done b db) = IsLiveRow v j p db.positions
  KeepsLive v j p no_account = Unit
  KeepsLive v j p quote_failed = Unit

  -- A row that can be closed does not stand under the key of a live row.
  pub closable_apart :
      (u i v j : ℕ) (p pos : Position W) (db : Db W)
      → IsLiveRow v j p db.positions
      → get_position u i db ≡ some pos
      → closable pos ≡ true
      → (i == j) && (u == v) ≡ false
  unfolding get_position
  closable_apart u i v j p pos db (h, l, k) e c = elim (Bool-cases ((i == j) && (u == v))) [
    | inr ne ↦ ne
    | inl same ↦
        let hi : i ≡ j = ground arith in
        let hu : u ≡ v = ground arith in
        let e' : find (is_position v j) db.positions ≡ some pos = rw (← hi, ← hu) e in
        let q : some p ≡ some pos = sym h ∙ e' in
        let q' : p ≡ pos = cc in
        let l' : is_live pos.source ≡ true =
          sym (ap (λ (x : Position W). is_live x.source) q') ∙ l in
        ground arith
  ]

  apply_change-IsLiveRow :
      (u i v j : ℕ) (p pos : Position W) (c : Changed W) (db : Db W)
      → IsLiveRow v j p db.positions
      → get_position u i db ≡ some pos
      → closable pos ≡ true
      → c.position.id ≡ pos.id
      → c.position.user_id ≡ pos.user_id
      → IsLiveRow v j p (apply_change u i c db).positions
  unfolding apply_change get_position
  apply_change-IsLiveRow u i v j p pos c db live e can hid huser =
      change-IsLiveRow u i v j (λ _. c.position) p db.positions
        (closable_apart u i v j p pos db live e can)
        (λ a t. rw (hid, huser) (find_holds (is_position u i) db.positions pos e)) live

module _ {W : Type 0} ⦃f : Float W⦄ where
  -- The call does nothing, raises, or writes what the change of a row that can be closed says.
  abbrev pub IsChange : ℕ → ℕ → Db W → Outcome W → Type 0
  IsChange u i db out =
      (out ≡ done false db)
      ⊎ (((out ≡ no_account) ⊎ (out ≡ quote_failed))
          ⊎ ((pos : Position W) × (c : Changed W) × (get_position u i db ≡ some pos)
              × (closable pos ≡ true)
              × (c.position.id ≡ pos.id)
              × (c.position.user_id ≡ pos.user_id)
              × (c.account.user_id ≡ u)
              × All (λ (e : LedgerEntry W). e.user_id ≡ pos.user_id) c.entries
              × (out ≡ done true (apply_change u i c db))))

  pub IsChange-KeepsLive :
      (v j : ℕ) (p : Position W) (u i : ℕ) (db : Db W) (out : Outcome W)
      → IsLiveRow v j p db.positions
      → IsChange u i db out
      → KeepsLive v j p out
  IsChange-KeepsLive v j p u i db out live ch = elim ch [
    | inl e ↦ subst (KeepsLive v j p) (sym e) live
    | inr ch' ↦ elim ch' [
      | inl e ↦ elim e [
        | inl a ↦ subst (KeepsLive v j p) (sym a) tt
        | inr q ↦ subst (KeepsLive v j p) (sym q) tt
      ]
      | inr s ↦
          let (pos, c, e, can, hid, huser, ha, es, run) = s in
          subst (KeepsLive v j p) (sym run)
            (apply_change-IsLiveRow u i v j p pos c db live e can hid huser)
    ]
  ]

  pub account_key : (u : ℕ) (db : Db W) (a : Account W) → get_account u db ≡ some a → a.user_id ≡ u
  unfolding get_account
  account_key u db a h =
      let k = find_holds (λ (b : Account W). b.user_id == u) db.accounts a h in ground arith

module _ {W : Type 0} ⦃f : Float W⦄ (mv : MarketView W) (now : ℕ)
    (quotes : Position W → List (Leg W) → MarginReply W) where
  pub close_position-IsChange :
      (u i : ℕ) (why : CloseReason) (db : Db W) → IsChange u i db (close_position mv now u i why db)
  unfolding close_position closing
  close_position-IsChange u i why db = elim (Option-cases (get_position u i db)) [
    | inl n ↦ inl (ground (arith, n))
    | inr s ↦
        let (pos, e) = s in
        elim (Bool-cases (closable pos)) [
          | inr c ↦ inl (ground (arith, e, c))
          | inl c ↦ elim (Option-cases (get_account u db)) [
            | inl n ↦ inr (inl (inl (ground (arith, e, c, n))))
            | inr t ↦
                let (a, k) = t in
                inr (
                  inr (
                    pos,
                    closing mv now why pos a,
                    e,
                    c,
                    refl,
                    refl,
                    account_key u db a k,
                    (refl, (refl, (refl, tt))),
                    ground (arith, e, c, k),
                  ))
          ]
        ]
  ]

  closing_leg-same :
      (why : CloseReason) (settle : Option W) (reply : MarginReply W) (pos : Position W)
      (lg : Leg W) (a : Account W)
      → ((closing_leg mv now why settle reply pos lg a).position.id ≡ pos.id)
        × ((closing_leg mv now why settle reply pos lg a).position.user_id ≡ pos.user_id)
        × ((closing_leg mv now why settle reply pos lg a).account.user_id ≡ a.user_id)
        × All
            (λ (e : LedgerEntry W). e.user_id ≡ pos.user_id)
            (closing_leg mv now why settle reply pos lg a).entries
  unfolding closing_leg
  closing_leg-same why settle reply pos lg a =
      let last = is_empty (filter (λ (l : Leg W). not (l.id == lg.id)) (open_legs pos.legs)) in
      let released = pos.margin ⊖ (remaining_margin mv now last reply pos).0 in
      let entries : All (λ (e : LedgerEntry W). e.user_id ≡ pos.user_id)
          (closing_leg mv now why settle reply pos lg a).entries =
        elim (Bool-cases (truthy released)) [
          | inl t ↦ rw t (refl, (refl, (refl, tt)))
          | inr t ↦ rw t (refl, (refl, tt))
        ] in
      elim (Bool-cases last) [
        | inl e ↦ (rw e refl, rw e refl, refl, entries)
        | inr e ↦ (rw e refl, rw e refl, refl, entries)
      ]

  pub close_leg-IsChange :
      (u i leg_id : ℕ) (why : CloseReason) (settle : Option W) (db : Db W)
      → IsChange u i db (close_leg mv now quotes u i leg_id why settle db)
  unfolding close_leg
  close_leg-IsChange u i leg_id why settle db = elim (Option-cases (get_position u i db)) [
    | inl n ↦ inl (ground (arith, n))
    | inr s ↦
        let (pos, e) = s in
        let test : Leg W → Bool = λ l. (l.id == leg_id) && is_opened l.status in
        elim (Bool-cases (closable pos)) [
          | inr c ↦ inl (ground (arith, e, c))
          | inl c ↦ elim (Option-cases (find test pos.legs)) [
            | inl n ↦ inl (ground (arith, e, c, n))
            | inr l ↦
                let (lg, m) = l in
                let rest = filter (λ (x : Leg W). not (x.id == leg_id)) (open_legs pos.legs) in
                let reply = quotes pos rest in
                elim (Bool-cases (lets_through (is_empty rest) reply)) [
                  | inl q ↦ inr (inl (inr (ground (arith, e, c, m, q))))
                  | inr q ↦ elim (Option-cases (get_account u db)) [
                    | inl n ↦ inr (inl (inl (ground (arith, e, c, m, q, n))))
                    | inr t ↦
                        let (a, k) = t in
                        let (si, su, sa, se) = closing_leg-same why settle reply pos lg a in
                        inr (
                          inr (
                            pos,
                            closing_leg mv now why settle reply pos lg a,
                            e,
                            c,
                            si,
                            su,
                            sa ∙ account_key u db a k,
                            se,
                            ground (arith, e, c, m, q, k),
                          ))
                  ]
                ]
          ]
        ]
  ]
