-- ===== src/RateLimit.antt =====
-- The limit on requests, backend/app/ratelimit.py: one fixed window for each address. The time is that of
-- `time.monotonic`; the text of a refusal is left out.
pub mod Clients
pub mod Passes
use delta_paper_trader.Prelude.{
  ℕ, zero, suc, ◌+◌, ◌==◌, ltb, Bool, Option, none, some, List, [], ◌∷◌, filter, find, length,
  or_default, if◌then◌else◌,
}
use delta_paper_trader.Float.{Float, ◌⊖◌, ◌≤?◌, ◌<?◌}

-- One item of `_hits`: the key and what it holds.
pub record Window (W : Type 0) : Type 0 where
  pub ip : ℕ
  pub start : W
  pub count : ℕ

pub record Arrival (W : Type 0) : Type 0 where
  pub client : Option ℕ
  pub now : W

-- The request goes on, or is refused with status 429 and the seconds to wait.
pub data Reply : Type 0 where
  passed : Reply
  too_many : ℕ → Reply

-- `_MAX_TRACKED`
abbrev pub max_tracked : ℕ
max_tracked = 50000

-- The key of a client: 0 is the "?" of a request without one.
abbrev pub address : Option ℕ → ℕ
address none = 0
address (some host) = suc host

abbrev pub at_least_one : ℕ → ℕ
at_least_one zero = 1
at_least_one (suc n) = suc n

module _ {W : Type 0} where
  abbrev pub is_of : ℕ → Window W → Bool
  is_of ip w = w.ip == ip

  -- `self._hits[ip] = ...`
  abbrev pub put_window : Window W → List (Window W) → List (Window W)
  put_window w [] = w ∷ []
  put_window w (x ∷ hits) = if x.ip == w.ip then w ∷ hits else x ∷ put_window w hits

module _ {W : Type 0} ⦃f : Float W⦄ where
  -- `_WINDOW`
  abbrev pub window_length : W
  window_length = f.lit 60 0

  abbrev pub new_window : ℕ → W → Window W
  new_window ip now = record { ip = ip; start = now; count = 0 }

  abbrev pub restarted : ℕ → W → Window W → Window W
  restarted ip now w = if window_length ≤? (now ⊖ w.start) then new_window ip now else w

  unfoldable pub counted : ℕ → W → Option (Window W) → Window W
  counted ip now old =
      let w = restarted ip now (or_default old (new_window ip now)) in
      record { ip = ip; start = w.start; count = w.count + 1 }

  abbrev pub is_current : W → Window W → Bool
  is_current now w = (now ⊖ w.start) <? window_length

  unfoldable pub pruned : W → List (Window W) → List (Window W)
  pruned now hits = if ltb max_tracked (length hits) then filter (is_current now) hits else hits

  abbrev pub retry_after : W → Window W → ℕ
  retry_after now w = at_least_one (f.truncate (window_length ⊖ (now ⊖ w.start)))

  unfoldable pub reply_to : ℕ → W → Window W → Reply
  reply_to limit now w = if ltb limit w.count then too_many (retry_after now w) else passed

  -- `RateLimiter.__call__`: the reply and the table after it.
  unfoldable pub call : ℕ → Arrival W → List (Window W) → Reply × List (Window W)
  call limit a hits =
      let ip = address a.client in
      let w = counted ip a.now (find (is_of ip) hits) in
      (reply_to limit a.now w, pruned a.now (put_window w hits))

  -- The replies to a run of requests, each with the key of its client.
  abbrev pub replies : ℕ → List (Arrival W) → List (Window W) → List (ℕ × Reply)
  replies limit [] hits = []
  replies limit (a ∷ arrivals) hits =
      let (reply, rest) = call limit a hits in
      (address a.client, reply) ∷ replies limit arrivals rest
