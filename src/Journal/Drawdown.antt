-- ===== src/Journal/Drawdown.antt =====
-- The drawdown of `mtm_stats` is measured against every earlier peak.
use delta_paper_trader.Prelude.{◌≡◌, List, [], ◌∷◌, In, inl, inr, ◌⊎◌, arith}
use delta_paper_trader.Float.{Float, ◌⊖◌, ◌≼◌, nought}
use delta_paper_trader.Float.Laws.{IsOrdered, IsRounded}
use delta_paper_trader.Journal.{
  Sample, Running, raise_peak, fall_to, one_bar, bars, start_of, mtm_stats,
}

module _ {A : Type 0} where
  -- `a` stands in the list before `b`.
  abbrev pub Before : A → A → List A → Type 0
  Before a b [] = ⊥
  Before a b (x ∷ xs) = ((a ≡ x) × In b xs) ⊎ Before a b xs

  Before-In : (a b : A) (xs : List A) → Before a b xs → In b xs
  Before-In a b [] m = m
  Before-In a b (x ∷ xs) m = elim m [ inl k ↦ inr k.1 | inr k ↦ inr (Before-In a b xs k) ]

module _ {W : Type 0} ⦃f : Float W⦄ (o : IsOrdered W) (r : IsRounded W) where
  -- Nothing in the running values falls.
  abbrev Rises : Running W → Running W → Type 0
  Rises a b = (a.peak ≼ b.peak) × (a.dd ≼ b.dd)

  Rises-trans : (a b c : Running W) → Rises a b → Rises b c → Rises a c
  Rises-trans a b c h k =
      (o.le_trans a.peak b.peak c.peak h.0 k.0, o.le_trans a.dd b.dd c.dd h.1 k.1)

  raise_peak-Rises : (x : W) (t : _) (a : Running W) → Rises a (raise_peak x t a)
  raise_peak-Rises x t a = ground (arith, o.le_refl a.peak, o.le_refl a.dd, o.le_total a.peak x)

  raise_peak-le : (x : W) (t : _) (a : Running W) → x ≼ (raise_peak x t a).peak
  raise_peak-le x t a = ground (arith, o.le_refl x)

  fall_to-Rises : (x : W) (t : _) (a : Running W) → Rises a (fall_to x t a)
  fall_to-Rises x t a =
      ground (arith, o.le_refl a.peak, o.le_refl a.dd, o.le_total a.dd (a.peak ⊖ x))

  fall_to-le : (x : W) (t : _) (a : Running W) → a.peak ⊖ x ≼ (fall_to x t a).dd
  fall_to-le x t a = ground (arith, o.le_refl (a.peak ⊖ x))

  one_bar-Rises : (s : Sample W) (a : Running W) → Rises a (one_bar s a)
  unfolding one_bar
  one_bar-Rises s a =
      let b = raise_peak s.opening s.t a in
      let c = fall_to s.low s.t b in
      Rises-trans a b (raise_peak s.high s.t c) (raise_peak-Rises s.opening s.t a) (
        Rises-trans b c (raise_peak s.high s.t c) (fall_to-Rises s.low s.t b)
          (raise_peak-Rises s.high s.t c))

  -- The drawdown after a bar covers the fall from the peak before it, and from its own open.
  one_bar-le :
      (s : Sample W) (a : Running W)
      → (a.peak ⊖ s.low ≼ (one_bar s a).dd)
        × (s.opening ⊖ s.low ≼ (one_bar s a).dd)
        × (s.high ≼ (one_bar s a).peak)
  unfolding one_bar
  one_bar-le s a =
      let b = raise_peak s.opening s.t a in
      let c = fall_to s.low s.t b in
      let d = raise_peak s.high s.t c in
      let reach : b.peak ⊖ s.low ≼ d.dd =
        o.le_trans (b.peak ⊖ s.low) c.dd d.dd (fall_to-le s.low s.t b)
          (raise_peak-Rises s.high s.t c).1 in
      (
        o.le_trans (a.peak ⊖ s.low) (b.peak ⊖ s.low) d.dd
            (r.sub_mono a.peak b.peak s.low (raise_peak-Rises s.opening s.t a).0) reach,
        o.le_trans (s.opening ⊖ s.low) (b.peak ⊖ s.low) d.dd
            (r.sub_mono s.opening b.peak s.low (raise_peak-le s.opening s.t a)) reach,
        raise_peak-le s.high s.t c,
      )

  bars-Rises : (xs : List (Sample W)) (a : Running W) → Rises a (bars xs a)
  unfolding bars
  bars-Rises [] a = (o.le_refl a.peak, o.le_refl a.dd)
  bars-Rises (s ∷ xs) a =
      Rises-trans a (one_bar s a) (bars xs (one_bar s a)) (one_bar-Rises s a)
        (bars-Rises xs (one_bar s a))

  -- Each later low, and each open, is measured.
  bars-le :
      (b : Sample W) (xs : List (Sample W)) (a : Running W)
      → In b xs
      → (a.peak ⊖ b.low ≼ (bars xs a).dd) × (b.opening ⊖ b.low ≼ (bars xs a).dd)
  unfolding bars
  bars-le b [] a m = absurd m
  bars-le b (s ∷ xs) a m =
      let c = one_bar s a in
      let e = bars xs c in
      elim m [
        | inl same ↦ rw same (
          o.le_trans (a.peak ⊖ s.low) c.dd e.dd (one_bar-le s a).0 (bars-Rises xs c).1,
          o.le_trans (s.opening ⊖ s.low) c.dd e.dd (one_bar-le s a).1 (bars-Rises xs c).1,
        )
        | inr k ↦ (
          o.le_trans (a.peak ⊖ b.low) (c.peak ⊖ b.low) e.dd
              (r.sub_mono a.peak c.peak b.low (one_bar-Rises s a).0) (bars-le b xs c k).0,
          (bars-le b xs c k).1,
        )
      ]

  bars-Before :
      (x y : Sample W) (xs : List (Sample W)) (a : Running W)
      → Before x y xs
      → x.high ⊖ y.low ≼ (bars xs a).dd
  unfolding bars
  bars-Before x y [] a m = absurd m
  bars-Before x y (s ∷ xs) a m =
      let c = one_bar s a in
      elim m [
        | inl k ↦ rw k.0 (
            o.le_trans (s.high ⊖ y.low) (c.peak ⊖ y.low) (bars xs c).dd
              (r.sub_mono s.high c.peak y.low (one_bar-le s a).2) (bars-le y xs c k.1).0)
        | inr k ↦ bars-Before x y xs c k
      ]

  -- For any bar and any later bar of the samples, the maximal drawdown is not negative, and is at least
  -- the fall from the high of the first to the low of the later, and the fall from the open of the later
  -- to its low.
  pub drawdown_covers :
      (x y : Sample W) (samples : List (Sample W))
      → Before x y samples
      → (nought ≼ (mtm_stats samples).max_drawdown)
        × (x.high ⊖ y.low ≼ (mtm_stats samples).max_drawdown)
        × (y.opening ⊖ y.low ≼ (mtm_stats samples).max_drawdown)
  unfolding mtm_stats
  drawdown_covers x y [] m = absurd m
  drawdown_covers x y (s ∷ xs) m = (
    (bars-Rises (s ∷ xs) (start_of s)).1,
    bars-Before x y (s ∷ xs) (start_of s) m,
    (bars-le y (s ∷ xs) (start_of s) (Before-In x y (s ∷ xs) m)).1,
  )
