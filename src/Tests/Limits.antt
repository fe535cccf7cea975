-- ===== src/Tests/Limits.antt =====
-- Examples of the rate limiter (backend/app/ratelimit.py).
use delta_paper_trader.Prelude.{ℕ, ◌*◌, ◌≡◌, refl, some, List, [], ◌∷◌, filter}
use delta_paper_trader.Prelude.Int.{ℤ}
use delta_paper_trader.Float.Fixed.{fixed, cents, fixed-IsOrdered, fixed-IsRounded}
use delta_paper_trader.RateLimit.{Arrival, replies}
use delta_paper_trader.RateLimit.Clients.{replies_to, is_from, clients_are_independent}
use delta_paper_trader.RateLimit.Passes.{passes, window_admits_limit}

abbrev arrive : ℕ → ℕ → Arrival ℤ
arrive host second = record { client = some host; now = cents (second * 100) }

abbrev rush : List (Arrival ℤ)
rush = arrive 7 10 ∷ arrive 9 20 ∷ arrive 7 30 ∷ arrive 7 40 ∷ []

clients_are_independent_example :
    replies_to 8 (replies 1 rush []) ≡ replies_to 8 (replies 1 (filter (is_from 8) rush) [])
clients_are_independent_example =
    clients_are_independent fixed-IsOrdered fixed-IsRounded 1 8 (cents 0) rush
      (refl, (refl, (refl, (refl, tt))))

window_admits_limit_example : passes (replies_to 8 (replies 1 rush [])) ≡ 1
window_admits_limit_example =
    window_admits_limit fixed-IsOrdered fixed-IsRounded 1 8 (cents 0) (arrive 7 10)
      (arrive 9 20 ∷ arrive 7 30 ∷ arrive 7 40 ∷ []) [] (refl, (refl, (refl, (refl, tt)))) refl refl
      (refl, (refl, (refl, tt)))
