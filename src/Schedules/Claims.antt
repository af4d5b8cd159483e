-- ===== src/Schedules/Claims.antt =====
-- Which schedule a claim takes, and what it writes.
use qa_lab.Base.{
  ℕ, ◌≤◌, ◌≡◌, refl, ◌⊎◌, inl, inr, true, false, List, [], ◌∷◌, Option, none, some, arith, leb, All,
  All-map, Bool-cases,
}
use qa_lab.Schema.{Db, ScanSchedule}
use qa_lab.Schedules.{is_due, due_at, earlier, earliest, advanced, claim_one, set_schedule}

-- Every schedule that is due is due no earlier than `s`.
abbrev pub IsFirst : ℕ → ScanSchedule → List ScanSchedule → Type 0
IsFirst now s = All (λ r. (is_due now r ≡ false) ⊎ (due_at s ≤ due_at r))

-- What the search in the table finds.
abbrev pub Searched : ℕ → List ScanSchedule → Option ScanSchedule → Type 0
Searched now ss none = All (λ r. is_due now r ≡ false) ss
Searched now ss (some s) = (is_due now s ≡ true) × IsFirst now s ss

IsFirst-mono :
    (now : ℕ) (s r : ScanSchedule) (ss : List ScanSchedule)
    → due_at s ≤ due_at r
    → IsFirst now r ss
    → IsFirst now s ss
IsFirst-mono now s r ss le h = All-map _ _ ss (λ x k. later x k) h
  where
    later :
        (x : ScanSchedule)
        → (is_due now x ≡ false) ⊎ (due_at r ≤ due_at x)
        → (is_due now x ≡ false) ⊎ (due_at s ≤ due_at x)
    later x (inl e) = inl e
    later x (inr k) = inr (omega (arith, le, k))

earlier-Searched :
    (now : ℕ) (s : ScanSchedule) (ss : List ScanSchedule) (o : Option ScanSchedule)
    → is_due now s ≡ true
    → Searched now ss o
    → Searched now (s ∷ ss) (earlier s o)
earlier-Searched now s ss none due h = (due, (inr (omega arith), All-map _ _ ss (λ x e. inl e) h))
earlier-Searched now s ss (some r) due (rdue, h) = elim (Bool-cases (leb (due_at s) (due_at r))) [
  | inl e ↦ rw e (due, (inr (omega arith), IsFirst-mono now s r ss (ground (arith, e)) h))
  | inr e ↦ rw e (rdue, (inr (ground (arith, e)), h))
]

later-Searched :
    (now : ℕ) (s : ScanSchedule) (ss : List ScanSchedule) (o : Option ScanSchedule)
    → is_due now s ≡ false
    → Searched now ss o
    → Searched now (s ∷ ss) o
later-Searched now s ss none not_due h = (not_due, h)
later-Searched now s ss (some r) not_due (due, h) = (due, (inl not_due, h))

earliest-Searched : (now : ℕ) (ss : List ScanSchedule) → Searched now ss (earliest now ss)
unfolding earliest
earliest-Searched now [] = tt
earliest-Searched now (s ∷ ss) = elim (Bool-cases (is_due now s)) [
  | inl due ↦ rw due (earlier-Searched now s ss (earliest now ss) due (earliest-Searched now ss))
  | inr late ↦ rw late (later-Searched now s ss (earliest now ss) late (earliest-Searched now ss))
]

-- What a claim does: nothing where no schedule is due; else it takes one that is due, none earlier,
-- and moves its next run by its interval, so that it is not due again at once.
abbrev pub IsClaim : ℕ → Db → Option ScanSchedule × Db → Type 0
IsClaim now db (none, d) = (d ≡ db) × All (λ r. is_due now r ≡ false) db.schedules
IsClaim now db (some s, d) =
    (is_due now s ≡ true) × IsFirst now s db.schedules × (d ≡ set_schedule s.id (advanced now) db)

-- A claim takes nothing and writes nothing where no schedule is due; else it takes one that is
-- due, such that every schedule that is due is due no earlier, and records the run and moves the
-- next one by the schedule's interval.
pub claim_one_lem : (now : ℕ) (db : Db) → IsClaim now db (claim_one now db)
unfolding claim_one
claim_one_lem now db = go (earliest now db.schedules) (earliest-Searched now db.schedules)
  where
    go :
        (o : Option ScanSchedule)
        → Searched now db.schedules o
        → IsClaim now db
            (elim o [ none ↦ (none, db) | some s ↦ (some s, set_schedule s.id (advanced now) db) ])
    go none h = (refl, h)
    go (some s) h = (h.0, h.1, refl)
