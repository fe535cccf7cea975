-- ===== src/Liquidation/Green.antt =====
-- What a green verdict says of the scan.
use delta_paper_trader.Prelude.{
  ℕ, zero, suc, ◌+◌, ◌≤◌, ◌<◌, ◌==◌, ◌≡◌, refl, ◌⊎◌, inl, inr, true, false, Option, none, some,
  List, arith, Bool-cases, is_some,
}
use delta_paper_trader.Float.{Float, ◌⊖◌, ◌⊗◌, ◌≼◌, ◌<?◌, abs}
use delta_paper_trader.Float.Laws.{IsOrdered}
use delta_paper_trader.Risk.{RiskLeg}
use delta_paper_trader.Liquidation.{
  AtSpot, Pass, Direction, up, down, Verdict, green, yellow, red, liq_buffer, is_liquidated, see,
  walk, steps, nothing_seen, one_way, nearer, liq_first, verdict_of, look, marked, equity_now, scan,
  worse, LiqCheck,
}

module _ {W : Type 0} ⦃f : Float W⦄ (view : ℕ → AtSpot W) where
  -- The pass has recorded the stop met at step `j`.
  abbrev Recorded : ℕ → Pass W → Type 0
  Recorded j p =
      ((view j).is_hit ≡ true)
      × (p.sl_spot ≡ some (view j).spot)
      × (p.sl_eq ≡ (view j).after_close)
      × (p.sl_mm ≡ (view j).mm)

  -- How a pass can end that meets a liquidation no later than step `i`: without a stop, at the same spot as its
  -- stop, or with a stop at an earlier step.
  abbrev Ends : ℕ → Pass W → Type 0
  Ends i p =
      ((p.sl_spot ≡ none) × (is_some p.liq_spot ≡ true))
      ⊎ (((s : W) × (p.sl_spot ≡ some s) × (p.liq_spot ≡ some s))
          ⊎ ((j : ℕ) × (j < i) × Recorded j p))

  -- What the pass knows before step `k`.
  abbrev Sofar : ℕ → Pass W → Type 0
  Sofar k p = (p.liq_spot ≡ none) × ((p.sl_spot ≡ none) ⊎ ((j : ℕ) × (j < k) × Recorded j p))

  see-Sofar :
      (k : ℕ) (p : Pass W)
      → Sofar k p
      → is_liquidated (view k) ≡ false
      → Sofar (suc k) (see (view k) p)
  see-Sofar k p (no_liq, inl no_stop) alive = elim (Bool-cases (view k).is_hit) [
    | inl hit ↦ (
      rw (no_stop, hit) (rw no_liq (rw alive refl)),
      inr (k, omega arith, rw (no_stop, hit) (refl, refl, refl, refl)),
    )
    | inr miss ↦ (rw (no_stop, miss) (rw no_liq (rw alive refl)), inl (rw (no_stop, miss) refl))
  ]
  see-Sofar k p (no_liq, inr (j, lt, rec)) alive = (
    rw (rec.1) (rw no_liq (rw alive refl)),
    inr (j, omega arith, rw (rec.1) (rec.0, refl, rec.2, rec.3)),
  )

  see-Ends :
      (k i : ℕ) (p : Pass W)
      → k ≤ i
      → Sofar k p
      → is_liquidated (view k) ≡ true
      → (is_some (see (view k) p).liq_spot ≡ true) × Ends i (see (view k) p)
  see-Ends k i p le (no_liq, inl no_stop) dead = elim (Bool-cases (view k).is_hit) [
    | inl hit ↦ (
      rw (no_stop, hit) (rw no_liq (rw dead refl)),
      inr (
          inl
            ((view k).spot, rw (no_stop, hit) refl, rw (no_stop, hit) (rw no_liq (rw dead refl)))),
    )
    | inr miss ↦ (
      rw (no_stop, miss) (rw no_liq (rw dead refl)),
      inl (rw (no_stop, miss) refl, rw (no_stop, miss) (rw no_liq (rw dead refl))),
    )
  ]
  see-Ends k i p le (no_liq, inr (j, lt, rec)) dead = (
    rw (rec.1) (rw no_liq (rw dead refl)),
    inr (inr (j, omega arith, rw (rec.1) (rec.0, refl, rec.2, rec.3))),
  )

  walk-Ends :
      (n k i : ℕ) (p : Pass W)
      → Sofar k p
      → k ≤ i
      → i < k + n
      → is_liquidated (view i) ≡ true
      → Ends i (walk view n k p)
  unfolding walk
  walk-Ends zero k i p far le lt dead = absurd (omega arith)
  walk-Ends (suc n) k i p far le lt dead = elim (Bool-cases (is_liquidated (view k))) [
    | inl now ↦ let (stops, ends) = see-Ends k i p le far now in rw stops ends
    | inr alive ↦
        let far' = see-Sofar k p far alive in
        elim (Bool-cases (k == i)) [
          | inl same ↦
              let e : k ≡ i = ground arith in
              let alive' : is_liquidated (view i) ≡ false = rw e at alive in cc
          | inr later ↦
              rw (far'.0)
                (walk-Ends n (suc k) i (see (view k) p) far' (ground arith) (omega arith) dead)
        ]
  ]

module _ {W : Type 0} ⦃f : Float W⦄ (o : IsOrdered W) where
  judge-green :
      (view : ℕ → AtSpot W) (spot : W) (i : ℕ) (p : Pass W)
      → Ends view i p
      → verdict_of spot p ≡ green
      → (j : ℕ) × (j < i)
        × ((view j).is_hit ≡ true)
        × (liq_buffer ⊗ (view j).mm ≼ (view j).after_close)
  unfolding verdict_of nearer
  judge-green view spot i p (inl (no_stop, dead)) g =
      let bad : red ≡ green = rw (no_stop, dead) at g in cc
  judge-green view spot i p (inr (inl (s, stop, liq))) g =
      let bad : red ≡ green = rw (stop, liq, o.le_refl (abs (s ⊖ spot))) at g in cc
  judge-green view spot i p (inr (inr (j, lt, (hit, stop, eq, mm)))) g =
      elim (Bool-cases (liq_first p.liq_spot (view j).spot spot)) [
        | inl first ↦ let bad : red ≡ green = rw (stop, first) at g in cc
        | inr late ↦ elim (Bool-cases (p.sl_eq <? liq_buffer ⊗ p.sl_mm)) [
          | inl thin ↦ let bad : yellow ≡ green = rw (stop, late, thin) at g in cc
          | inr enough ↦
              let covers : liq_buffer ⊗ p.sl_mm ≼ p.sl_eq = ground arith in
              (j, lt, hit, rw (eq, mm) at covers)
        ]
      ]

  worse_by :
      (a b : LiqCheck W) (u v : Verdict)
      → a.verdict ≡ u
      → b.verdict ≡ v
      → (worse a b).verdict ≡ green
      → (u ≡ green) × (v ≡ green)
  worse_by a b u v h k g = ground (arith, h, k, g)

  worse-green :
      (a b : LiqCheck W) → (worse a b).verdict ≡ green → (a.verdict ≡ green) × (b.verdict ≡ green)
  worse-green a b h = worse_by a b a.verdict b.verdict refl refl h

  scan-green :
      (legs : List (RiskLeg W)) (spot balance : W) (basket_floor : Option W) (d : Direction)
      → (scan legs spot balance basket_floor).verdict ≡ green
      → verdict_of spot
          (one_way (look (marked spot legs) spot (equity_now legs balance) basket_floor d))
        ≡ green
  unfolding scan
  scan-green legs spot balance basket_floor up g = (worse-green _ _ g).0
  scan-green legs spot balance basket_floor down g = (worse-green _ _ g).1

  one_way-Ends :
      (view : ℕ → AtSpot W) (i : ℕ)
      → 1 ≤ i
      → i ≤ steps
      → is_liquidated (view i) ≡ true
      → Ends view i (one_way view)
  unfolding one_way
  one_way-Ends view i first last dead =
      walk-Ends view steps 1 i nothing_seen (refl, inl refl) first (omega arith) dead

  -- In a check with a green verdict, each step of the scan at which the account would be liquidated comes, in
  -- either direction, after a step at which a stop of the group is met, and where the equity less the
  -- slippage of the close is at least 1.25 times the maintenance margin.
  pub green_stop_is_first :
      (legs : List (RiskLeg W)) (spot balance : W) (basket_floor : Option W) (d : Direction) (i : ℕ)
      → (scan legs spot balance basket_floor).verdict ≡ green
      → 1 ≤ i
      → i ≤ steps
      → is_liquidated (look (marked spot legs) spot (equity_now legs balance) basket_floor d i)
        ≡ true
      → (j : ℕ) × (j < i)
        × ((look (marked spot legs) spot (equity_now legs balance) basket_floor d j).is_hit ≡ true)
        × (liq_buffer ⊗ (look (marked spot legs) spot (equity_now legs balance) basket_floor d j).mm
            ≼ (look (marked spot legs) spot (equity_now legs balance) basket_floor d j).after_close)
  green_stop_is_first legs spot balance basket_floor d i g first last dead =
      let view = look (marked spot legs) spot (equity_now legs balance) basket_floor d in
      judge-green view spot i (one_way view) (one_way-Ends view i first last dead)
        (scan-green legs spot balance basket_floor d g)
