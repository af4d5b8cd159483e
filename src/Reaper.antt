-- ===== src/Reaper.antt =====
-- ScanReaperService.reap: qa-lab-backend/src/scans/scan-reaper.service.ts.
pub mod Laws
use qa_lab.Base.{ℕ, ◌+◌, Bool, true, false, ◌&&◌, Option, none, some, ltb}
use qa_lab.Base.Rows.{update_where}
use qa_lab.Schema.{Db, Scan, ScanStatus, ScanError}
use qa_lab.Scans.{status_eq}

-- `startedAt: { lt: now - stuckMs }`; a null never compares.
abbrev pub started_before : ℕ → ℕ → Option ℕ → Bool
started_before now stuck_ms none = false
started_before now stuck_ms (some started) = ltb (started + stuck_ms) now

unfoldable pub is_stuck : ℕ → ℕ → Scan → Bool
is_stuck now stuck_ms s =
    status_eq s.status ScanStatus.running && started_before now stuck_ms s.started_at

abbrev pub reaped_at : ℕ → Scan → Scan
reaped_at now s = record s {
  status = ScanStatus.failed;
  completed_at = some now;
  error = some ScanError.stuck;
}

unfoldable pub reap : ℕ → ℕ → Db → Db
unfolding is_stuck
reap now stuck_ms db = record db {
  scans = update_where (is_stuck now stuck_ms) (reaped_at now) db.scans;
}
