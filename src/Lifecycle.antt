-- ===== src/Lifecycle.antt =====
-- The scans of the whole system over time: requests of users and of API keys, jobs of the worker
-- with other steps served while the scanner runs, and passes of the reaper.
pub mod Reported
use qa_lab.Base.{ℕ, Bool, Option, Text}
use qa_lab.Schema.{Db}
use qa_lab.Program.{after}
use qa_lab.Scans.{CreateScanDto, Principal, create_for_principal, cancel}
use qa_lab.Worker.{Env, process}
use qa_lab.Reaper.{reap}

mutual
  -- One request, job or pass.
  pub data Step : Db → Db → Type 0 where
    creates :
        (safe : Text → Option Text) (now : ℕ) (accepts : Bool) (new_id : ℕ) (who : Principal)
        (dto : CreateScanDto) (db : Db)
        → Step db (after (create_for_principal safe now accepts new_id who dto db))
    cancels :
        (now : ℕ) (removes : Bool) (user_id scan_id : ℕ) (db : Db)
        → Step db (after (cancel now removes user_id scan_id db))
    reaps : (now stuck_ms : ℕ) (db : Db) → Step db (reap now stuck_ms db)
    works :
        (env : Env) (scan_id : ℕ) (db : Db)
        → ((d : Db) → Reach d (env.during d))
        → Step db (after (process env scan_id db))

  pub data Reach : Db → Db → Type 0 where
    here : {db : Db} → Reach db db
    next : {a b c : Db} → Reach a b → Step b c → Reach a c
