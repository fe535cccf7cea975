-- ===== src/Margin/BlackScholes.antt =====
-- Black-Scholes prices and greeks, and the implied volatility by bisection (the first part of
-- backend/app/engines/margin.py). An instrument that is not a call is priced as a put.
use delta_paper_trader.Prelude.{ℕ, zero, suc, Bool, true, false, ◌||◌, if◌then◌else◌}
use delta_paper_trader.Float.{Float, ◌⊕◌, ◌⊖◌, ◌⊗◌, ◌⊘◌, ◌≤?◌, ◌<?◌, nought, one, max}
use delta_paper_trader.Types.{OptType, call, put, future}

pub record FullGreeks (W : Type 0) : Type 0 where
  pub delta : W
  pub gamma : W
  pub theta : W
  pub vega : W

abbrev pub is_call : OptType → Bool
is_call call = true
is_call put = false
is_call future = false

module _ {W : Type 0} ⦃f : Float W⦄ where
  abbrev pub half : W
  half = f.lit 5 1

  unfoldable pub ncdf : W → W
  ncdf x = half ⊗ (one ⊕ f.erf (x ⊘ f.sqrt (f.lit 2 0)))

  unfoldable pub intrinsic : OptType → W → W → W
  intrinsic opt s k = if is_call opt then max (s ⊖ k) nought else max (k ⊖ s) nought

  abbrev pub d1_of : W → W → W → W → W → W
  d1_of s k t sigma r = (f.log (s ⊘ k) ⊕ (r ⊕ half ⊗ sigma ⊗ sigma) ⊗ t) ⊘ (sigma ⊗ f.sqrt t)

  -- `bs_price` with its rate `r`
  unfoldable pub bs_price_at : OptType → W → W → W → W → W → W
  unfolding intrinsic ncdf
  bs_price_at opt s k t sigma r =
      let d1 = d1_of s k t sigma r in
      let d2 = d1 ⊖ sigma ⊗ f.sqrt t in
      let disc = f.exp (f.neg r ⊗ t) in
      if (t ≤? nought) || ((sigma ≤? nought) || (s ≤? nought))
      then intrinsic opt s k
      else if is_call opt
      then s ⊗ ncdf d1 ⊖ k ⊗ disc ⊗ ncdf d2
      else k ⊗ disc ⊗ ncdf (f.neg d2) ⊖ s ⊗ ncdf (f.neg d1)

  -- The bisection of `implied_vol`: the bracket after the rounds left.
  unfoldable pub bisect : (W → W) → W → ℕ → W → W → W × W
  bisect value price zero lo hi = (lo, hi)
  bisect value price (suc n) lo hi =
      let mid = half ⊗ (lo ⊕ hi) in
      let high = price <? value mid in
      bisect value price n (if high then lo else mid) (if high then mid else hi)

  -- `implied_vol` with r = 0, 64 rounds and the bracket from `lo` to `hi`
  unfoldable pub implied_vol_in : OptType → W → W → W → W → W → W → W
  implied_vol_in opt s k t price lo hi =
      if (t ≤? nought) || ((price ≤? nought) || (s ≤? nought))
      then nought
      else if price ≤? intrinsic opt s k
      then lo
      else (let (lo', hi') = bisect (λ sigma. bs_price_at opt s k t sigma nought) price 64 lo hi in
          half ⊗ (lo' ⊕ hi'))

  unfoldable pub implied_vol : OptType → W → W → W → W → W
  unfolding implied_vol_in
  implied_vol opt s k t price = implied_vol_in opt s k t price (f.lit 1 3) (f.lit 5 0)

  unfoldable pub npdf : W → W
  npdf x = f.exp (f.neg half ⊗ x ⊗ x) ⊘ f.sqrt (f.lit 2 0 ⊗ f.pi)

  abbrev pub no_greeks : FullGreeks W
  no_greeks = record { delta = nought; gamma = nought; theta = nought; vega = nought }

  -- `bs_greeks` at its default rate 0: theta per day, vega per 1% of volatility
  unfoldable pub bs_greeks : OptType → W → W → W → W → FullGreeks W
  unfolding npdf ncdf
  bs_greeks opt s k t sigma =
      let sqrt_t = f.sqrt t in
      let r : W = nought in
      let d1 = d1_of s k t sigma r in
      let d2 = d1 ⊖ sigma ⊗ sqrt_t in
      let pdf = npdf d1 in
      let disc = f.exp (f.neg r ⊗ t) in
      let decay = f.neg (s ⊗ pdf ⊗ sigma) ⊘ (f.lit 2 0 ⊗ sqrt_t) in
      let theta_year =
        if is_call opt
        then decay ⊖ r ⊗ k ⊗ disc ⊗ ncdf d2
        else decay ⊕ r ⊗ k ⊗ disc ⊗ ncdf (f.neg d2) in
      if (t ≤? nought) || ((sigma ≤? nought) || ((s ≤? nought) || (k ≤? nought)))
      then no_greeks
      else record {
        delta = if is_call opt then ncdf d1 else ncdf d1 ⊖ one;
        gamma = pdf ⊘ (s ⊗ sigma ⊗ sqrt_t);
        theta = theta_year ⊘ f.lit 365 0;
        vega = s ⊗ pdf ⊗ sqrt_t ⊗ f.lit 1 2;
      }
