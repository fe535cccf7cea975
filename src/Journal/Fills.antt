-- ===== src/Journal/Fills.antt =====
-- The fills that `fill_run` takes, and the rows of a leg's candles.
use delta_paper_trader.Prelude.{
  ℕ, ◌==◌, ◌≡◌, refl, Bool, List, [], ◌∷◌, filter, if◌then◌else◌, arith, All,
}
use delta_paper_trader.Float.{Float, ◌≼◌, nought}
use delta_paper_trader.Float.Laws.{IsOrdered, IsRounded}
use delta_paper_trader.Types.{Side, buy, sell}
use delta_paper_trader.Money.Laws.{Gains, signed_mono}
use delta_paper_trader.Journal.{
  Fill, Sample, CandleRow, same_side, fill_run, pnl_at, pnl_bar, candle_rows,
}

module _ {A : Type 0} where
  -- The longest prefix whose items pass the test.
  abbrev pub prefix : (A → Bool) → List A → List A
  prefix p [] = []
  prefix p (x ∷ xs) = let rest = prefix p xs in if p x then x ∷ rest else []

module _ {W : Type 0} where
  -- The run is the longest prefix of the product's fills that is on the given side.
  pub fill_run_is_prefix :
      (fills : List (Fill W)) (product_id : ℕ) (side : Side)
      → fill_run fills product_id side
        ≡ prefix
            (λ (x : Fill W). same_side x.side side)
            (filter (λ (x : Fill W). x.product_id == product_id) fills)
  unfolding fill_run
  fill_run_is_prefix [] product_id side = refl
  fill_run_is_prefix (x ∷ fills) product_id side =
      ground (arith, fill_run_is_prefix fills product_id side)

module _ {W : Type 0} ⦃f : Float W⦄ where
  -- The low and the high of a bar enclose its open and its close.
  abbrev pub IsBar : Sample W → Type 0
  IsBar k = (k.low ≼ k.opening) × (k.opening ≼ k.high) × (k.low ≼ k.close) × (k.close ≼ k.high)

module _ {W : Type 0} ⦃f : Float W⦄ (o : IsOrdered W) (r : IsRounded W) where
  pnl_at_mono :
      (s : Side) (entry qty cv a b : W)
      → nought ≼ qty
      → nought ≼ cv
      → Gains s a b
      → pnl_at s entry qty cv a ≼ pnl_at s entry qty cv b
  pnl_at_mono s entry qty cv a b hq hc h =
      r.mul_mono _ _ cv hc (r.mul_mono _ _ qty hq (signed_mono o r s entry a b h))

  pnl_bar-IsBar :
      (s : Side) (entry qty cv : W) (k : Sample W)
      → nought ≼ qty
      → nought ≼ cv
      → IsBar k
      → IsBar (pnl_bar s (pnl_at s entry qty cv) k)
  pnl_bar-IsBar buy entry qty cv k hq hc (a, b, c, d) =
      let m = λ (x : W) (y : W) (h : Gains buy x y). pnl_at_mono buy entry qty cv x y hq hc h in
      (m k.low k.opening a, m k.opening k.high b, m k.low k.close c, m k.close k.high d)
  pnl_bar-IsBar sell entry qty cv k hq hc (a, b, c, d) =
      let m = λ (x : W) (y : W) (h : Gains sell x y). pnl_at_mono sell entry qty cv x y hq hc h in
      (m k.high k.opening b, m k.opening k.low a, m k.high k.close d, m k.close k.low c)

  -- For a leg with a quantity and a contract value that are not negative, the P&L bar of each row of its candles
  -- has its open and its close between its low and its high, where the mark candles have.
  pub candle_rows-IsBar :
      (s : Side) (entry qty cv : W) (candles : List (Sample W))
      → nought ≼ qty
      → nought ≼ cv
      → All IsBar candles
      → All (λ (row : CandleRow W). IsBar row.pnl) (candle_rows s entry qty cv candles)
  unfolding candle_rows
  candle_rows-IsBar s entry qty cv [] hq hc h = tt
  candle_rows-IsBar s entry qty cv (k ∷ candles) hq hc h =
      (pnl_bar-IsBar s entry qty cv k hq hc h.0, candle_rows-IsBar s entry qty cv candles hq hc h.1)
