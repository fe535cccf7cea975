-- ===== src/RateLimit/Passes.antt =====
-- How many requests of a client the rate limiter passes in a window.
use mathlib.Core.Path.{subst}
use delta_paper_trader.Prelude.{
  ℕ, suc, ◌+◌, ltb, leb, ◌-◌, ◌≡◌, refl, sym, ap, ◌∙◌, true, none, some, List, [], ◌∷◌, All, filter,
  find, length, if◌then◌else◌, if_false, Bool-cases, inl, inr, arith,
}
use delta_paper_trader.Float.{Float, ◌⊖◌, ◌<?◌}
use delta_paper_trader.Float.Laws.{IsOrdered, IsRounded}
use delta_paper_trader.RateLimit.{
  Window, Arrival, Reply, passed, too_many, is_of, window_length, new_window, counted, is_current,
  reply_to, replies,
}
use delta_paper_trader.RateLimit.Clients.{
  replies_to, first, find-first, IsKnown, restarted_new, IsMonotonic, is_from, times, alone,
  replies-alone,
}

abbrev pub passes : List Reply → ℕ
passes [] = 0
passes (passed ∷ rs) = suc (passes rs)
passes (too_many n ∷ rs) = passes rs

abbrev pub smaller : ℕ → ℕ → ℕ
smaller a b = if leb a b then a else b

one_more :
    (limit n c : ℕ)
    → (if ltb limit (c + 1) then 0 else 1) + smaller n (limit - (c + 1))
      ≡ smaller (suc n) (limit - c)
one_more limit n c = ground arith

minus_nought : (n : ℕ) → n - 0 ≡ n
minus_nought n = ground arith

none-first : {A : Type 0} (xs : List A) → first xs ≡ none → xs ≡ []
none-first [] h = refl
none-first (x ∷ xs) h = cc

module _ {W : Type 0} ⦃f : Float W⦄ where
  -- The times are less than a window's length from the first.
  abbrev AreWithin : W → List W → Type 0
  AreWithin start [] = Unit
  AreWithin start (t ∷ ts) = (((t ⊖ start) <? window_length) ≡ true) × AreWithin start ts

  counted_current :
      (ip : ℕ) (t : W) (w : Window W)
      → is_current t w ≡ true
      → counted ip t (some w) ≡ record { ip = ip; start = w.start; count = w.count + 1 }
  unfolding counted
  counted_current ip t w h =
      ap (λ (v : Window W). record { ip = ip; start = v.start; count = v.count + 1 })
        (if_false (new_window ip t) w (ground (arith, h)))

  passes-reply :
      (limit : ℕ) (t : W) (w : Window W) (rs : List Reply)
      → passes (reply_to limit t w ∷ rs) ≡ (if ltb limit w.count then 0 else 1) + passes rs
  unfolding reply_to
  passes-reply limit t w rs = elim (Bool-cases (ltb limit w.count)) [
    | inl e ↦ rw e (ground arith)
    | inr e ↦ rw e (ground arith)
  ]

  passes-alone :
      (limit ip : ℕ) (w : Window W) (ts : List W)
      → AreWithin w.start ts
      → passes (alone limit ip (some w) ts) ≡ smaller (length ts) (limit - w.count)
  passes-alone limit ip w [] h = ground arith
  passes-alone limit ip w (t ∷ ts) h =
      let v : Window W = record { ip = ip; start = w.start; count = w.count + 1 } in
      rw (counted_current ip t w h.0) (
        passes-reply limit t v (alone limit ip (some v) ts)
        ∙ ap (λ n. (if ltb limit (w.count + 1) then 0 else 1) + n) (passes-alone limit ip v ts h.1)
        ∙ one_more limit (length ts) w.count)

  within_times :
      (ip : ℕ) (start : W) (arrivals : List (Arrival W))
      → All (λ (b : Arrival W). ((b.now ⊖ start) <? window_length) ≡ true) arrivals
      → AreWithin start (times ip arrivals)
  within_times ip start [] h = tt
  within_times ip start (b ∷ arrivals) h = elim (Bool-cases (is_from ip b)) [
    | inl e ↦ rw e (h.0, within_times ip start arrivals h.1)
    | inr e ↦ rw e (within_times ip start arrivals h.1)
  ]

  counted_first : (ip : ℕ) (t : W) → counted ip t none ≡ record { ip = ip; start = t; count = 1 }
  unfolding counted
  counted_first ip t =
      ap (λ (v : Window W). record { ip = ip; start = v.start; count = v.count + 1 })
        (restarted_new ip t)

  module _ (o : IsOrdered W) (r : IsRounded W) (limit ip : ℕ) where
    -- When the clock does not go back and the table has no window of a client, then of the client's
    -- requests that come in less than 60 seconds from its first, as many pass as the limit allows, and
    -- all of them when they are fewer; the requests of others in between do not matter.
    pub window_admits_limit :
        (t : W) (a : Arrival W) (arrivals : List (Arrival W)) (hits : List (Window W))
        → IsMonotonic t (a ∷ arrivals)
        → is_from ip a ≡ true
        → find (is_of ip) hits ≡ none
        → All (λ (b : Arrival W). ((b.now ⊖ a.now) <? window_length) ≡ true) arrivals
        → passes (replies_to ip (replies limit (a ∷ arrivals) hits))
          ≡ smaller (length (times ip (a ∷ arrivals))) limit
    window_admits_limit t a arrivals hits m e h k =
        let ts = times ip arrivals in
        let v : Window W = record { ip = ip; start = a.now; count = 1 } in
        let empty = none-first (filter (is_of ip) hits) (sym (find-first (is_of ip) hits) ∙ h) in
        let known = subst (λ xs. IsKnown t xs none) (sym empty) tt in
        let start : times ip (a ∷ arrivals) ≡ a.now ∷ ts = rw e refl in
        let first_reply : passes (alone limit ip none (a.now ∷ ts))
            ≡ smaller (suc (length ts)) limit =
          rw (counted_first ip a.now) (
            passes-reply limit a.now v (alone limit ip (some v) ts)
            ∙ ap (λ n. (if ltb limit 1 then 0 else 1) + n)
                (passes-alone limit ip v ts (within_times ip a.now arrivals k))
            ∙ one_more limit (length ts) 0
            ∙ ap (smaller (suc (length ts))) (minus_nought limit)) in
        ap passes (replies-alone o r limit ip t (a ∷ arrivals) hits none m known)
        ∙ subst (λ xs. passes (alone limit ip none xs) ≡ smaller (length xs) limit) (sym start)
            first_reply
