-- ===== src/Scanner/RateLimiter.antt =====
-- The wait between requests: src/utils/rateLimiter.js.
pub mod Spacing
use qa_lab.Base.{ℕ, zero, suc, List, [], ◌∷◌, Bool, if◌then◌else◌, ltb, ◌+◌, ◌-◌}

abbrev pub max : ℕ → ℕ → ℕ
max a b = if ltb a b then b else a

-- One call of `wait`: how long it waits, and the time from which the next may start.
pub record Slot : Type 0 where
  pub wait_for : ℕ
  pub next_allowed : ℕ

unfoldable pub wait : ℕ → ℕ → ℕ → Slot
wait zero next_allowed now = record { wait_for = 0; next_allowed = next_allowed }
wait (suc interval) next_allowed now = record {
  wait_for = next_allowed - now;
  next_allowed = max now next_allowed + suc interval;
}

-- The times at which the calls go on, for the times at which they came.
unfoldable pub starts : ℕ → ℕ → List ℕ → List ℕ
unfolding wait
starts interval next_allowed [] = []
starts interval next_allowed (now ∷ calls) =
    let slot = wait interval next_allowed now in
    (now + slot.wait_for) ∷ starts interval slot.next_allowed calls
