-- ===== src/Limiter.antt =====
-- OrgConcurrencyLimiter: qa-lab-backend/src/scans/org-concurrency.limiter.ts. A counter that
-- Redis does not hold counts as 0. INCR and DECR are read one call at a time; Limiter/Workers
-- interleaves the single commands of several workers.
pub mod Laws
pub mod Workers
use qa_lab.Base.{ℕ, ◌+◌, ◌-◌, Bool, true, false, List, [], ◌∷◌, ◌==◌, ltb, if◌then◌else◌}
use qa_lab.Schema.{Db}
use qa_lab.Program.{Action, pure, gets, modify, ◌>>=◌, ◌>>◌}

unfoldable pub counter : ℕ → List (ℕ × ℕ) → ℕ
counter k [] = 0
counter k ((j, n) ∷ m) = if j == k then n else counter k m

unfoldable pub set_counter : ℕ → ℕ → List (ℕ × ℕ) → List (ℕ × ℕ)
set_counter k v [] = (k, v) ∷ []
set_counter k v ((j, n) ∷ m) = if j == k then (k, v) ∷ m else (j, n) ∷ set_counter k v m

abbrev pub put_counter : ℕ → ℕ → Db → Db
put_counter k v db = record db { running = set_counter k v db.running }

-- INCR, and DECR again where the limit is passed.
unfoldable pub acquire : ℕ → ℕ → Action Bool
acquire max_per_org organization_id = do
  n ← gets (λ db. counter organization_id db.running + 1)
  modify (put_counter organization_id (if ltb max_per_org n then n - 1 else n))
  pure (if ltb max_per_org n then false else true)

-- DECR, and SET to 0 where that went below 0.
unfoldable pub release : ℕ → Action (Unit {0})
release organization_id = do
  n ← gets (λ db. counter organization_id db.running)
  modify (put_counter organization_id (n - 1))
