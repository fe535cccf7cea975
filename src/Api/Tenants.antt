-- ===== src/Api/Tenants.antt =====
-- No call of one user changes a row of another.
use Prim.Native.String.{String}
use mathlib.Core.Path.{subst}
use delta_paper_trader.Prelude.{
  ℕ, ◌==◌, ◌≡◌, refl, sym, ap, ◌∙◌, Bool, true, false, none, some, List, [], ◌∷◌, ◌++◌, map, any,
  filter, is_empty, is_some, All, if◌then◌else◌, Bool-cases, inl, inr, arith,
}
use delta_paper_trader.Float.{Float}
use delta_paper_trader.Models.{Leg, Position, Account, LedgerEntry}
use delta_paper_trader.Sim.{
  quote_failed, get_account, MarketView, Db, Outcome, done, no_account, MarginReply, SeriesRow,
  apply_change, is_position, get_position,
}
use delta_paper_trader.Sim.Closing.{find_holds}
use delta_paper_trader.Sim.Frame.{
  IsChange, account_key, close_position-IsChange, close_leg-IsChange,
}
use delta_paper_trader.Sim.Placing.{
  margin_failed, LegSpec, PlaceRequest, Placed, placed, refused, no_legs, account_missing,
  place_strategy, placing, placed_position, first_row,
}
use delta_paper_trader.Sim.Placing.Settles.{placed_inv}
use delta_paper_trader.Sim.Edits.{
  Note, set_position_risk, set_leg_risk, with_position_risk, add_note,
}
use delta_paper_trader.Api.{
  Reply, failed, Store, Command, place, close, exit_leg, position_risk, leg_risk, note,
  reply_placed, reply_closed, reply_edited, reply_noted, why_of, is_live_row, is_live_leg,
  run_command, run_commands,
}

abbrev pub notes_of : ℕ → List Note → List Note
notes_of v notes = filter (λ (n : Note). n.user_id == v) notes

module _ {W : Type 0} where
  -- The rows of one user.
  abbrev pub accounts_of : ℕ → Db W → List (Account W)
  accounts_of v db = filter (λ (a : Account W). a.user_id == v) db.accounts

  abbrev pub positions_of : ℕ → Db W → List (Position W)
  positions_of v db = filter (λ (p : Position W). p.user_id == v) db.positions

  abbrev pub ledger_of : ℕ → Db W → List (LedgerEntry W)
  ledger_of v db = filter (λ (e : LedgerEntry W). e.user_id == v) db.ledger

  abbrev pub series_of : ℕ → Db W → List (SeriesRow W)
  series_of v db = filter (λ (s : SeriesRow W). s.user_id == v) db.series

  -- The rows of the user are the same.
  abbrev pub SameFor : ℕ → Db W → Db W → Type 0
  SameFor v db db' =
      (accounts_of v db' ≡ accounts_of v db)
      × (positions_of v db' ≡ positions_of v db)
      × (ledger_of v db' ≡ ledger_of v db)
      × (series_of v db' ≡ series_of v db)

  -- What raises is rolled back.
  abbrev pub rolled_back : Db W → Outcome W → Db W
  rolled_back db (done b db') = db'
  rolled_back db no_account = db
  rolled_back db quote_failed = db

  abbrev pub placed_or : Db W → Placed W → Db W
  placed_or db (placed id db') = db'
  placed_or db refused = db
  placed_or db no_legs = db
  placed_or db account_missing = db
  placed_or db margin_failed = db

module _ {A : Type 0} where
  -- Rows that are changed and rows that they become are all left out by the filter.
  filter-map :
      (q t : A → Bool) (g : A → A) (xs : List A)
      → ((a : A) → t a ≡ true → (q a ≡ false) × (q (g a) ≡ false))
      → filter q (map (λ a. if t a then g a else a) xs) ≡ filter q xs
  filter-map q t g [] h = refl
  filter-map q t g (a ∷ xs) h = elim (Bool-cases (t a)) [
    | inl e ↦ let (x, y) = h a e in rw (e, x, y) (filter-map q t g xs h)
    | inr e ↦ elim (Bool-cases (q a)) [
      | inl k ↦ rw (e, k) (ap (λ ys. a ∷ ys) (filter-map q t g xs h))
      | inr k ↦ rw (e, k) (filter-map q t g xs h)
    ]
  ]

  filter-added :
      (q : A → Bool) (xs ys : List A)
      → All (λ a. q a ≡ false) xs
      → filter q (xs ++ ys) ≡ filter q ys
  filter-added q [] ys h = refl
  filter-added q (x ∷ xs) ys h = rw (h.0) (filter-added q xs ys h.1)

other_user : (u v w : ℕ) → (u == v) ≡ false → w ≡ u → (w == v) ≡ false
other_user u v w h e = rw e h

module _ {W : Type 0} ⦃f : Float W⦄ where
  entries_apart :
      (v w : ℕ) (es : List (LedgerEntry W))
      → (w == v) ≡ false
      → All (λ (e : LedgerEntry W). e.user_id ≡ w) es
      → All (λ (e : LedgerEntry W). (e.user_id == v) ≡ false) es
  entries_apart v w [] h k = tt
  entries_apart v w (e ∷ es) h k = (rw k.0 h, entries_apart v w es h k.1)

  owner : (u i : ℕ) (p : Position W) → is_position u i p ≡ true → p.user_id ≡ u
  owner u i p h = ground arith

  IsChange-SameFor :
      (u i v : ℕ) (db : Db W) (out : Outcome W)
      → (u == v) ≡ false
      → IsChange u i db out
      → SameFor v db (rolled_back db out)
  unfolding apply_change get_position
  IsChange-SameFor u i v db out ne ch = elim ch [
    | inl e ↦ subst (λ x. SameFor v db (rolled_back db x)) (sym e) (refl, refl, refl, refl)
    | inr ch' ↦ elim ch' [
      | inl e ↦ elim e [
        | inl a ↦ subst (λ x. SameFor v db (rolled_back db x)) (sym a) (refl, refl, refl, refl)
        | inr q ↦ subst (λ x. SameFor v db (rolled_back db x)) (sym q) (refl, refl, refl, refl)
      ]
      | inr s ↦
          let (pos, c, e, can, hid, huser, ha, es, run) = s in
          let mine = owner u i pos (find_holds (is_position u i) db.positions pos e) in
          subst (λ x. SameFor v db (rolled_back db x)) (sym run)
            (
              filter-map (λ (a : Account W). a.user_id == v) (λ (a : Account W). a.user_id == u)
                  (λ _. c.account) db.accounts
                  (λ a t. (ground arith, other_user u v c.account.user_id ne ha)),
              filter-map (λ (p : Position W). p.user_id == v) (is_position u i) (λ _. c.position)
                  db.positions
                  (λ p t. (
                    other_user u v p.user_id ne (owner u i p t),
                    other_user u v c.position.user_id ne (huser ∙ mine),
                  )),
              filter-added (λ (x : LedgerEntry W). x.user_id == v) c.entries db.ledger
                  (entries_apart v pos.user_id c.entries (other_user u v pos.user_id ne mine) es),
              refl,
            )
    ]
  ]

module _ {W : Type 0} ⦃f : Float W⦄ (mv : MarketView W) (now : ℕ)
    (quotes : Position W → List (Leg W) → MarginReply W)
    (basket : String → List (LegSpec W) → MarginReply W) where
  placing-SameFor :
      (u v fresh : ℕ) (p : Position W) (a : Account W) (db : Db W)
      → (u == v) ≡ false
      → p.user_id ≡ u
      → get_account u db ≡ some a
      → SameFor v db (placing mv now u fresh p a db)
  unfolding placing first_row
  placing-SameFor u v fresh p a db ne mine ha =
      let apart : (p.user_id == v) ≡ false = other_user u v p.user_id ne mine in
      (
        filter-map (λ (b : Account W). b.user_id == v) (λ (b : Account W). b.user_id == u) (λ _. _)
            db.accounts
            (λ b t. (ground arith, other_user u v a.user_id ne (account_key u db a ha))),
        rw apart refl,
        rw apart refl,
        rw ne refl,
      )

  placed-SameFor :
      (u v fresh : ℕ) (req : PlaceRequest W) (db : Db W) (out : Placed W)
      → (u == v) ≡ false
      → place_strategy mv now u fresh basket req db ≡ out
      → SameFor v db (placed_or db out)
  unfolding placed_position
  placed-SameFor u v fresh req db (placed id db') ne e =
      let (fr, first, legs, hl, (margin, badge, a, hq, ha, hi, hd)) =
        placed_inv mv now u fresh basket req db db' id e in
      subst (λ d. SameFor v db d) hd
        (placing-SameFor u v fresh (placed_position mv now u fresh req first margin badge legs) a db
          ne refl ha)
  placed-SameFor u v fresh req db refused ne e = (refl, refl, refl, refl)
  placed-SameFor u v fresh req db no_legs ne e = (refl, refl, refl, refl)
  placed-SameFor u v fresh req db account_missing ne e = (refl, refl, refl, refl)
  placed-SameFor u v fresh req db margin_failed ne e = (refl, refl, refl, refl)

  -- The rows and the notes of the user are the same.
  abbrev pub Untouched : ℕ → Store W → Store W → Type 0
  Untouched v st st' = SameFor v st.db st'.db × (notes_of v st'.notes ≡ notes_of v st.notes)

  unchanged : (v : ℕ) (st : Store W) → Untouched v st st
  unchanged v st = ((refl, refl, refl, refl), refl)

  if-Untouched :
      (v : ℕ) (st : Store W) (b : Bool) (x y : Reply × Store W)
      → Untouched v st x.1
      → Untouched v st y.1
      → Untouched v st (if b then x else y).1
  if-Untouched v st true x y h k = h
  if-Untouched v st false x y h k = k

  reply_placed-Untouched :
      (v : ℕ) (st : Store W) (out : Placed W)
      → SameFor v st.db (placed_or st.db out)
      → Untouched v st (reply_placed st out).1
  reply_placed-Untouched v st (placed id db) h = (h, refl)
  reply_placed-Untouched v st refused h = unchanged v st
  reply_placed-Untouched v st no_legs h = unchanged v st
  reply_placed-Untouched v st account_missing h = unchanged v st
  reply_placed-Untouched v st margin_failed h = unchanged v st

  reply_closed-Untouched :
      (v : ℕ) (st : Store W) (out : Outcome W)
      → SameFor v st.db (rolled_back st.db out)
      → Untouched v st (reply_closed st out).1
  reply_closed-Untouched v st (done true db) h = (h, refl)
  reply_closed-Untouched v st (done false db) h = unchanged v st
  reply_closed-Untouched v st no_account h = unchanged v st
  reply_closed-Untouched v st quote_failed h = unchanged v st

  reply_edited-Untouched :
      (v : ℕ) (st : Store W) (ok : Bool) (db : Db W)
      → SameFor v st.db db
      → Untouched v st (reply_edited st (ok, db)).1
  reply_edited-Untouched v st true db h = (h, refl)
  reply_edited-Untouched v st false db h = unchanged v st

  add_note-Untouched :
      (u v pos_id : ℕ) (kind body : String) (st : Store W)
      → (u == v) ≡ false
      → Untouched v st (reply_noted st (add_note now u pos_id kind body st.db st.notes)).1
  unfolding add_note
  add_note-Untouched u v pos_id kind body st ne =
      elim (Bool-cases (is_some (get_position u pos_id st.db))) [
        | inl e ↦ rw e ((refl, refl, refl, refl), rw ne refl)
        | inr e ↦ rw e (unchanged v st)
      ]

  run_command-Untouched :
      (u v : ℕ) (c : Command W) (st : Store W)
      → (u == v) ≡ false
      → Untouched v st (run_command mv now quotes basket u c st).1
  unfolding run_command set_position_risk set_leg_risk with_position_risk
  run_command-Untouched u v (place fresh req) st ne =
      if-Untouched v st (is_empty req.legs) (failed 400, st) _ (unchanged v st)
        (reply_placed-Untouched v st _ (placed-SameFor u v fresh req st.db _ ne refl))
  run_command-Untouched u v (close pos_id why) st ne = reply_closed-Untouched v st _ (
      IsChange-SameFor u pos_id v st.db _ ne
        (close_position-IsChange mv now quotes u pos_id (why_of why) st.db))
  run_command-Untouched u v (exit_leg pos_id leg_id why) st ne = reply_closed-Untouched v st _ (
      IsChange-SameFor u pos_id v st.db _ ne
        (close_leg-IsChange mv now quotes u pos_id leg_id (why_of why) none st.db))
  run_command-Untouched u v (position_risk pos_id patch) st ne =
      if-Untouched v st (any (is_live_row pos_id) st.db.positions) (failed 409, st) _
        (unchanged v st)
        (reply_edited-Untouched v st _ _ (
          refl,
          filter-map (λ (p : Position W). p.user_id == v) (is_position u pos_id)
              (with_position_risk patch) st.db.positions
              (λ p t. (
                other_user u v p.user_id ne (owner u pos_id p t),
                other_user u v p.user_id ne (owner u pos_id p t),
              )),
          refl,
          refl,
        ))
  run_command-Untouched u v (leg_risk leg_id patch) st ne =
      if-Untouched v st (any (is_live_leg leg_id) st.db.positions) (failed 409, st) _
        (unchanged v st)
        (reply_edited-Untouched v st _ _ (
          refl,
          filter-map (λ (p : Position W). p.user_id == v) (λ (p : Position W). p.user_id == u)
              (λ p. _) st.db.positions (λ p t. (ground arith, ground arith)),
          refl,
          refl,
        ))
  run_command-Untouched u v (note pos_id kind body) st ne =
      add_note-Untouched u v pos_id kind body st ne

  -- Whatever other users place, close, edit and note, in any order and under any keys, the accounts, positions, ledger
  -- entries, chart rows and notes of a user stay the same.
  pub tenants_stay_apart :
      (v : ℕ) (cs : List (ℕ × Command W)) (st : Store W)
      → All (λ (c : ℕ × Command W). (c.0 == v) ≡ false) cs
      → Untouched v st (run_commands mv now quotes basket cs st)
  unfolding run_commands
  tenants_stay_apart v [] st h = unchanged v st
  tenants_stay_apart v (c ∷ cs) st h =
      let ((a, p, l, s), n) = run_command-Untouched c.0 v c.1 st h.0 in
      let ((a', p', l', s'), n') =
        tenants_stay_apart v cs (run_command mv now quotes basket c.0 c.1 st).1 h.1 in
      ((a' ∙ a, p' ∙ p, l' ∙ l, s' ∙ s), n' ∙ n)
