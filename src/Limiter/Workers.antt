-- ===== src/Limiter/Workers.antt =====
-- `acquire` and `release` of several workers on one organization's counter, with every Redis
-- command a step of its own (qa-lab-backend/src/scans/org-concurrency.limiter.ts).
use qa_lab.Base.{
  ℕ, zero, suc, ◌+◌, ◌-◌, ◌≤◌, ◌<◌, ◌≡◌, refl, ◌⊎◌, inl, List, [], ◌∷◌, ltb, if◌then◌else◌, arith,
}

-- Where a worker is: it has no slot; INCR answered within the limit; INCR answered above it, and
-- the DECR that takes it back is still to come.
pub data Phase : Type 0 where
  idle holding backing_off : Phase

pub record Counted : Type 0 where
  pub count : ℕ
  pub phases : List Phase

abbrev after_incr : ℕ → ℕ → Phase
after_incr max_per_org n = if ltb max_per_org n then backing_off else holding

-- The next command of one worker: INCR, the DECR of a refusal, or the DECR of `release`, which
-- does not go below 0.
pub next_command : ℕ → ℕ → Phase → ℕ × Phase
next_command max_per_org n idle = (n + 1, after_incr max_per_org (n + 1))
next_command max_per_org n holding = (n - 1, idle)
next_command max_per_org n backing_off = (n - 1, idle)

advance_at : ℕ → ℕ → ℕ → List Phase → ℕ × List Phase
advance_at max_per_org i n [] = (n, [])
advance_at max_per_org zero n (p ∷ ps) = let (m, q) = next_command max_per_org n p in (m, q ∷ ps)
advance_at max_per_org (suc i) n (p ∷ ps) =
    let (m, qs) = advance_at max_per_org i n ps in (m, p ∷ qs)

-- One command of the worker at place `i`.
pub advance : ℕ → ℕ → Counted → Counted
unfolding advance_at next_command
advance max_per_org i s =
    let (m, qs) = advance_at max_per_org i s.count s.phases in record { count = m; phases = qs }

-- A schedule says which worker sends the next command.
pub run : ℕ → List ℕ → Counted → Counted
run max_per_org [] s = s
run max_per_org (i ∷ is) s = run max_per_org is (advance max_per_org i s)

pub holders : List Phase → ℕ
holders [] = 0
holders (holding ∷ ps) = holders ps + 1
holders (_ ∷ ps) = holders ps

busy : List Phase → ℕ
busy [] = 0
busy (idle ∷ ps) = busy ps
busy (_ ∷ ps) = busy ps + 1

holders-le-busy : (ps : List Phase) → holders ps ≤ busy ps
unfolding holders busy
holders-le-busy [] = omega arith
holders-le-busy (idle ∷ ps) = omega (arith, holders-le-busy ps)
holders-le-busy (holding ∷ ps) = omega (arith, holders-le-busy ps)
holders-le-busy (backing_off ∷ ps) = omega (arith, holders-le-busy ps)

-- The counter moves with the number of busy workers, and a new holder saw it within the limit.
abbrev Moved : ℕ → ℕ → List Phase → ℕ × List Phase → Type 0
Moved max_per_org n ps r =
    (r.0 + busy ps ≡ n + busy r.1)
    × ((holders r.1 ≤ holders ps) ⊎ ((holders r.1 ≡ holders ps + 1) × (r.0 ≤ max_per_org)))

advance_at-Moved :
    (max_per_org i n : ℕ) (ps : List Phase)
    → busy ps ≤ n
    → Moved max_per_org n ps (advance_at max_per_org i n ps)
unfolding advance_at next_command holders busy
advance_at-Moved max_per_org i n [] h = (omega arith, inl (omega arith))
advance_at-Moved max_per_org zero n (idle ∷ ps) h = ground arith
advance_at-Moved max_per_org zero n (holding ∷ ps) h = (omega arith, inl (omega arith))
advance_at-Moved max_per_org zero n (backing_off ∷ ps) h = (omega arith, inl (omega arith))
advance_at-Moved max_per_org (suc i) n (idle ∷ ps) h =
    ground (arith, advance_at-Moved max_per_org i n ps h)
advance_at-Moved max_per_org (suc i) n (holding ∷ ps) h =
    ground (arith, advance_at-Moved max_per_org i n ps (omega arith))
advance_at-Moved max_per_org (suc i) n (backing_off ∷ ps) h =
    ground (arith, advance_at-Moved max_per_org i n ps (omega arith))

pub record IsSound (max_per_org : ℕ) (s : Counted) : Type 0 where
  counted : s.count ≡ busy s.phases
  limited : holders s.phases ≤ max_per_org

advance-IsSound :
    (max_per_org i : ℕ) (s : Counted)
    → IsSound max_per_org s
    → IsSound max_per_org (advance max_per_org i s)
unfolding advance
advance-IsSound max_per_org i s v =
    let (moved, held) = advance_at-Moved max_per_org i s.count s.phases (omega arith) in
    let more = holders-le-busy (advance_at max_per_org i s.count s.phases).1 in
    record { counted = omega arith; limited = ground arith }

run-IsSound :
    (max_per_org : ℕ) (is : List ℕ) (s : Counted)
    → IsSound max_per_org s
    → IsSound max_per_org (run max_per_org is s)
unfolding run
run-IsSound max_per_org [] s v = v
run-IsSound max_per_org (i ∷ is) s v =
    run-IsSound max_per_org is _ (advance-IsSound max_per_org i s v)

pub all_idle : ℕ → List Phase
all_idle zero = []
all_idle (suc n) = idle ∷ all_idle n

all_idle-busy : (n : ℕ) → (busy (all_idle n) ≡ 0) × (holders (all_idle n) ≡ 0)
unfolding all_idle busy holders
all_idle-busy zero = (refl, refl)
all_idle-busy (suc n) = all_idle-busy n

-- From a counter at 0 and idle workers, however the single Redis commands of any number of workers
-- interleave, at most `max_per_org` of them hold a slot, as long as the key does not expire.
pub run-limited :
    (max_per_org workers : ℕ) (schedule : List ℕ)
    → holders (run max_per_org schedule (record { count = 0; phases = all_idle workers })).phases
      ≤ max_per_org
run-limited max_per_org workers schedule =
    let (quiet, none_held) = all_idle-busy workers in
    (run-IsSound max_per_org schedule _
      (record { counted = omega arith; limited = omega arith })).limited

-- Redis drops the key: its time to live is set only when the counter goes from 0 to 1.
pub expire : Counted → Counted
expire s = record s { count = 0 }

-- If the key has expired and the limit is not 0, the next INCR of an idle worker is granted a
-- slot, however many workers hold one already.
expired_grants :
    (max_per_org n : ℕ) (ps : List Phase)
    → 0 < max_per_org
    → holders (advance max_per_org 0 (expire (record { count = n; phases = idle ∷ ps }))).phases
      ≡ holders ps + 1
unfolding advance expire holders
expired_grants max_per_org n ps h = ground arith
