-- ===== src/Scanner/RateLimiter/Spacing.antt =====
-- Requests are apart by the interval, whenever the calls come.
use qa_lab.Base.{ℕ, suc, List, [], ◌∷◌, ◌+◌, ◌≤◌, arith}
use qa_lab.Scanner.RateLimiter.{wait, starts}

-- From `from` on, each time comes no earlier than the interval after the one before.
unfoldable pub Spaced : ℕ → ℕ → List ℕ → Type 0
Spaced interval from [] = Unit
Spaced interval from (t ∷ ts) = (from ≤ t) × Spaced interval (t + interval) ts

Spaced-weaken :
    (interval a b : ℕ) (ts : List ℕ) → a ≤ b → Spaced interval b ts → Spaced interval a ts
unfolding Spaced
Spaced-weaken interval a b [] le h = tt
Spaced-weaken interval a b (t ∷ ts) le h = (omega (arith, le, h.0), h.1)

pub starts-Spaced :
    (interval next_allowed : ℕ) (calls : List ℕ)
    → Spaced (suc interval) next_allowed (starts (suc interval) next_allowed calls)
unfolding starts wait Spaced
starts-Spaced interval next_allowed [] = tt
starts-Spaced interval next_allowed (now ∷ calls) =
    let slot = wait (suc interval) next_allowed now in
    (
      omega arith,
      Spaced-weaken (suc interval) (now + slot.wait_for + suc interval) slot.next_allowed
          (starts (suc interval) slot.next_allowed calls) (ground arith)
          (starts-Spaced interval slot.next_allowed calls),
    )
