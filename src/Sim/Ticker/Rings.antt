-- ===== src/Sim/Ticker/Rings.antt =====
-- The rings of samples stay bounded, and a window's candle covers its samples.
use mathlib.Core.Path.{subst}
use delta_paper_trader.Prelude.{
  ℕ, ◌+◌, ◌≤◌, ◌==◌, ◌≡◌, refl, sym, ap, ◌∙◌, Bool, not, ◌&&◌, Option, none, some, List, [], ◌∷◌,
  ◌++◌, All, length, leb, filter, is_empty, Bool-cases, inl, inr, arith,
}
use delta_paper_trader.Float.{Float, ◌≼◌}
use delta_paper_trader.Float.Laws.{IsOrdered, le-max_left, le-max_right, min-le_left, min-le_right}
use delta_paper_trader.Models.{Leg, Position, is_opened, open_legs}
use delta_paper_trader.Sim.{MarketView, MarginReply, Db, is_live}
use delta_paper_trader.Sim.Samples.{Sample, Candle, add_mtm, build_sample}
use delta_paper_trader.Sim.Ticker.{
  Ticker, ring_maxlen, drop_oldest, push, get, put, ring_of, record_sample, refresh_margin, sampled,
  own_exit, current, after_exit, tick_positions, and_then, finish_tick, finish, settle_due,
  is_alive, tick,
}
use delta_paper_trader.Sim.Settlement.{Product}

module _ {A : Type 0} where
  length-snoc : (xs : List A) (x : A) → length (xs ++ (x ∷ [])) ≡ length xs + 1
  length-snoc [] x = refl
  length-snoc (y ∷ xs) x = omega (arith, length-snoc xs x)

  length-drop_oldest : (xs : List A) → 1 ≤ length xs → length (drop_oldest xs) + 1 ≡ length xs
  length-drop_oldest [] h = absurd (omega arith)
  length-drop_oldest (x ∷ xs) h = omega arith

  length-push :
      (ring : List A) (x : A) → length ring ≤ ring_maxlen → length (push ring x) ≤ ring_maxlen
  unfolding push
  length-push ring x h = elim (Bool-cases (leb ring_maxlen (length ring))) [
    | inl e ↦ rw e (
        ground
          (arith, length-snoc (drop_oldest ring) x, length-drop_oldest ring (ground (arith, e))))
    | inr e ↦ rw e (ground (arith, length-snoc ring x, e))
  ]

module _ {W : Type 0} ⦃f : Float W⦄ where
  -- No ring is longer than its bound.
  abbrev pub IsShort : List (ℕ × List (Sample W)) → Type 0
  IsShort = All (λ (e : ℕ × List (Sample W)). length e.1 ≤ ring_maxlen)

  get-short :
      (k : ℕ) (es : List (ℕ × List (Sample W)))
      → IsShort es
      → length (ring_of (get k es)) ≤ ring_maxlen
  get-short k [] h = omega arith
  get-short k (e ∷ es) h = elim (Bool-cases (e.0 == k)) [
    | inl t ↦ rw t h.0
    | inr t ↦ rw t (get-short k es h.1)
  ]

  put-IsShort :
      (k : ℕ) (ring : List (Sample W)) (es : List (ℕ × List (Sample W)))
      → length ring ≤ ring_maxlen
      → IsShort es
      → IsShort (put k ring es)
  unfolding put
  put-IsShort k ring [] h hs = (h, tt)
  put-IsShort k ring (e ∷ es) h hs = elim (Bool-cases (e.0 == k)) [
    | inl t ↦ rw t (h, hs.1)
    | inr t ↦ rw t (hs.0, put-IsShort k ring es h hs.1)
  ]

  filter-IsShort :
      (q : (ℕ × List (Sample W)) → Bool) (es : List (ℕ × List (Sample W)))
      → IsShort es
      → IsShort (filter q es)
  filter-IsShort q [] h = tt
  filter-IsShort q (e ∷ es) h = elim (Bool-cases (q e)) [
    | inl t ↦ rw t (h.0, filter-IsShort q es h.1)
    | inr t ↦ rw t (filter-IsShort q es h.1)
  ]

module _ {W : Type 0} ⦃f : Float W⦄ (o : IsOrdered W) where
  -- The window's candle after all its values.
  abbrev pub window : Option (Candle W) → List W → Option (Candle W)
  window c [] = c
  window c (v ∷ vs) = window (some (add_mtm c v)) vs

  -- The candle's range holds the value.
  abbrev pub Ranges : Candle W → W → Type 0
  Ranges c v = (c.low ≼ v) × (v ≼ c.high)

  add_mtm-Ranges :
      (c : Option (Candle W)) (v : W) → Ranges (add_mtm c v) v × ((add_mtm c v).close ≡ v)
  unfolding add_mtm
  add_mtm-Ranges none v = ((o.le_refl v, o.le_refl v), refl)
  add_mtm-Ranges (some c) v = ((min-le_right o c.low v, le-max_right o c.high v), refl)

  window-keeps :
      (c : Candle W) (v : W) (vs : List W)
      → Ranges c v
      → (d : Candle W) × (window (some c) vs ≡ some d) × Ranges d v × (d.open_ ≡ c.open_)
  unfolding add_mtm
  window-keeps c v [] h = (c, refl, h, refl)
  window-keeps c v (x ∷ vs) h =
      window-keeps (add_mtm (some c) x) v vs (
        o.le_trans _ _ _ (min-le_left o c.low x) h.0,
        o.le_trans _ _ _ h.1 (le-max_left o c.high x),
      )

  window-All :
      (c : Candle W) (vs : List W)
      → c.low ≼ c.high
      → (d : Candle W) × (window (some c) vs ≡ some d) × All (Ranges d) vs
  window-All c [] h = (c, refl, tt)
  window-All c (x ∷ vs) h =
      let (here, last) = add_mtm-Ranges (some c) x in
      let next = add_mtm (some c) x in
      let (d, run, rest) = window-All next vs (o.le_trans _ _ _ here.0 here.1) in
      let (d', run', keeps, op) = window-keeps next x vs here in
      let same : some d' ≡ some d = sym run' ∙ run in
      let e : d' ≡ d = cc in (d, run, (subst (λ z. Ranges z x) e keeps, rest))

  -- The candle of a window of the ticker that is given at least one value opens at the first value, and its range
  -- holds each value that it was given.
  pub window-covers :
      (v : W) (vs : List W)
      → (d : Candle W) × (window none (v ∷ vs) ≡ some d) × (d.open_ ≡ v) × All (Ranges d) (v ∷ vs)
  unfolding add_mtm
  window-covers v vs =
      let c = add_mtm none v in
      let (d, run, rest) = window-All c vs (o.le_refl v) in
      let (d', run', keeps, op) = window-keeps c v vs (o.le_refl v, o.le_refl v) in
      let same : some d' ≡ some d = sym run' ∙ run in
      let e : d' ≡ d = cc in
      (d, run, sym (ap (λ (z : Candle W). z.open_) e) ∙ op, (subst (λ z. Ranges z v) e keeps, rest))

module _ {W : Type 0} ⦃f : Float W⦄ (mv : MarketView W) (now : ℕ)
    (quotes : Position W → List (Leg W) → MarginReply W) where
  sampled-IsShort :
      (write_db refresh : Bool) (p : Position W) (st : Ticker W)
      → IsShort st.series
      → IsShort (sampled mv now quotes write_db refresh p st).series
  unfolding refresh_margin record_sample
  sampled-IsShort write_db refresh p st h =
      let ring = ring_of (get p.id st.series) in
      let grown =
        put-IsShort p.id (push ring (build_sample p mv now)) st.series
          (length-push ring (build_sample p mv now) (get-short p.id st.series h)) h in
      elim (Bool-cases (is_opened p.status)) [
        | inr e ↦ rw e h
        | inl e ↦
            elim (Bool-cases
              (refresh && not (is_live p.source) && not (is_empty (open_legs p.legs)))) [
                | inl k ↦ rw (e, k) grown
                | inr k ↦ rw (e, k) grown
              ]
      ]

  pub after_exit_inv :
      (write_db refresh : Bool) (p : Position W) (next : Ticker W → Option (Ticker W))
      (st st' : Ticker W) (d : Option (Db W))
      → and_then (after_exit mv now quotes write_db refresh p st d) next ≡ some st'
      → (db : Db W) × (d ≡ some db)
        × (next (sampled mv now quotes write_db refresh (current p db) (record st { db = db }))
            ≡ some st')
  after_exit_inv write_db refresh p next st st' none e = cc
  after_exit_inv write_db refresh p next st st' (some db) e = (db, refl, e)

  tick_positions-IsShort :
      (write_db refresh : Bool) (ps : List (Position W)) (st st' : Ticker W)
      → IsShort st.series
      → tick_positions mv now quotes write_db refresh ps st ≡ some st'
      → IsShort st'.series
  unfolding tick_positions
  tick_positions-IsShort write_db refresh [] st st' h e =
      let same : st ≡ st' = cc in subst (λ (s : Ticker W). IsShort s.series) same h
  tick_positions-IsShort write_db refresh (p ∷ ps) st st' h e =
      let (db, k, rest) =
        after_exit_inv write_db refresh p (tick_positions mv now quotes write_db refresh ps) st st'
          (own_exit mv now quotes p st.db) e in
      tick_positions-IsShort write_db refresh ps _ st'
        (sampled-IsShort write_db refresh (current p db) (record st { db = db }) h) rest

  settle_due-series :
      (products : Option (List (Product W))) (mono : W) (st : Ticker W)
      → (settle_due mv now quotes products mono st).series ≡ st.series
  unfolding settle_due
  settle_due-series products mono st = ground arith

  finish-IsShort :
      (write_db refresh : Bool) (mono : W) (ps : List (Position W)) (r : Option (Ticker W))
      (st' : Ticker W)
      → ((st : Ticker W) → r ≡ some st → IsShort st.series)
      → finish mv now quotes write_db refresh mono ps r ≡ some st'
      → IsShort st'.series
  unfolding finish_tick
  finish-IsShort write_db refresh mono ps none st' h e = cc
  finish-IsShort write_db refresh mono ps (some st) st' h e =
      let same : finish_tick mv now quotes write_db refresh mono ps st ≡ st' = cc in
      subst (λ (s : Ticker W). IsShort s.series) same
        (filter-IsShort (λ (x : ℕ × List (Sample W)). is_alive ps st.db x.0) st.series (h st refl))

  -- A tick that does not raise keeps every ring of samples at 900 samples at most.
  pub tick-IsShort :
      (products : Option (List (Product W))) (mono : W) (st st' : Ticker W)
      → IsShort st.series
      → tick mv now quotes products mono st ≡ some st'
      → IsShort st'.series
  unfolding tick
  tick-IsShort products mono st st' h e =
      let st1 = settle_due mv now quotes products mono st in
      let h1 : IsShort st1.series = rw (settle_due-series products mono st) h in
      finish-IsShort _ _ mono _ _ st' (λ s k. tick_positions-IsShort _ _ _ st1 s h1 k) e
