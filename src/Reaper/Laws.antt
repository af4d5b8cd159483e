-- ===== src/Reaper/Laws.antt =====
-- What the reaper changes, and what it leaves.
use qa_lab.Base.{
  ℕ, ◌≡◌, refl, false, List, [], ◌∷◌, some, arith, ◌==◌, if◌then◌else◌, All, Bool-cases, inl, inr,
}
use qa_lab.Base.Rows.{find, update_where}
use qa_lab.Schema.{Db, Scan}
use qa_lab.Scans.{find_scan}
use qa_lab.Reaper.{is_stuck, reap, reaped_at}

reaped_not_stuck : (now stuck_ms : ℕ) (s : Scan) → is_stuck now stuck_ms (reaped_at now s) ≡ false
unfolding is_stuck
reaped_not_stuck now stuck_ms s = refl

-- After a pass of the reaper no scan has been RUNNING for longer than the threshold.
reap-none_stuck :
    (now stuck_ms : ℕ) (db : Db)
    → All (λ s. is_stuck now stuck_ms s ≡ false) (reap now stuck_ms db).scans
unfolding reap update_where
reap-none_stuck now stuck_ms db = go db.scans
  where
    go :
        (rs : List Scan)
        → All
            (λ s. is_stuck now stuck_ms s ≡ false)
            (update_where (is_stuck now stuck_ms) (reaped_at now) rs)
    go [] = tt
    go (s ∷ rs) = elim (Bool-cases (is_stuck now stuck_ms s)) [
      | inl e ↦ rw e (reaped_not_stuck now stuck_ms s, go rs)
      | inr e ↦ rw e (e, go rs)
    ]

-- A pass of the reaper marks a scan if it is stuck, and leaves its row as it was if it is not.
find_scan-reap :
    (now stuck_ms id : ℕ) (db : Db) {s : Scan}
    → find_scan id db.scans ≡ some s
    → find_scan id (reap now stuck_ms db).scans
      ≡ some (if is_stuck now stuck_ms s then reaped_at now s else s)
unfolding reap update_where find_scan
find_scan-reap now stuck_ms id db {s} h = go db.scans h
  where
    go :
        (rs : List Scan)
        → find (λ s. s.id == id) rs ≡ some s
        → find (λ s. s.id == id) (update_where (is_stuck now stuck_ms) (reaped_at now) rs)
          ≡ some (if is_stuck now stuck_ms s then reaped_at now s else s)
    go [] e = cc
    go (r ∷ rs) e = ground (arith, go rs)
