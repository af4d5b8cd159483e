-- ===== src/Scans/Cancelling.antt =====
-- Cancelling a scan.
use qa_lab.Base.{ℕ, ◌≡◌, refl, ◌⊎◌, Bool, true, false, not, [], some, arith, ◌==◌}
use qa_lab.Base.Rows.{find_passes, find-update_where_self}
use qa_lab.Schema.{Db, Scan, ScanStatus, OrganizationMember, queued, running}
use qa_lab.Program.Rules.{Ends, done, Unchanged, read_rule, throw_if_rule, modify_rule}
use qa_lab.Organizations.Access.{HasAccess, require_membership_rule}
use qa_lab.Scans.{find_scan, set_scan, can_cancel, cancelled_at, cancel, remove_job}
use qa_lab.Scans.Reading.{IsLoaded, load_scan-Reads}

pub find_scan-set_scan :
    (scan_id : ℕ) (f : Scan → Scan) (db : Db) {s : Scan}
    → find_scan scan_id db.scans ≡ some s
    → ((s : Scan) → (f s).id ≡ s.id)
    → find_scan scan_id (set_scan scan_id f db).scans ≡ some (f s)
unfolding find_scan
find_scan-set_scan scan_id f db {s} found keep =
    find-update_where_self (λ s. s.id == scan_id) f db.scans found
      (ground (arith, find_passes (λ s. s.id == scan_id) db.scans found, keep s))

can_cancel-cases : (s : ScanStatus) → not (can_cancel s) ≡ false → (s ≡ queued) ⊎ (s ≡ running)
can_cancel-cases s h = ground arith

remove_job-scans : (removes : Bool) (id : ℕ) (db : Db) → (remove_job removes id db).scans ≡ db.scans
remove_job-scans true id db = refl
remove_job-scans false id db = refl

pub record Cancelled (now : ℕ) (removes : Bool) (user_id scan_id : ℕ) (db db' : Db) (r : Scan)
    : Type 0 where
  pub loaded : Scan × ℕ
  pub scan : IsLoaded db scan_id loaded
  pub membership : OrganizationMember
  pub access : HasAccess db user_id loaded.1 [] membership
  pub was_open : (loaded.0.status ≡ queued) ⊎ (loaded.0.status ≡ running)
  pub written : db' ≡ set_scan scan_id (cancelled_at now) (remove_job removes scan_id db)
  pub answer : r ≡ cancelled_at now loaded.0
  pub stored : find_scan scan_id db'.scans ≡ some (cancelled_at now loaded.0)

-- A scan is cancelled only by a member of its organization, only while it is QUEUED or RUNNING,
-- and then its row reads CANCELLED. A refused call writes nothing.
pub cancel-Ends :
    (now : ℕ) (removes : Bool) (user_id scan_id : ℕ) (db : Db)
    → Ends
        (λ r db'. Cancelled now removes user_id scan_id db db' r)
        (Unchanged db)
        (cancel now removes user_id scan_id db)
unfolding cancel
cancel-Ends now removes user_id scan_id db =
    read_rule _ _ db (load_scan-Reads scan_id db) (λ e. refl)
      λ loaded scan.
        require_membership_rule user_id loaded.1 [] db _ (λ e. refl)
          λ m access.
            throw_if_rule _ _ _ db (λ _. refl)
              λ open_scan. modify_rule _ _ db (
                modify_rule _ _ _ (
                  done _ _ (record {
                    loaded = loaded;
                    scan = scan;
                    membership = m;
                    access = access;
                    was_open = can_cancel-cases loaded.0.status open_scan;
                    written = refl;
                    answer = refl;
                    stored =
                        find_scan-set_scan scan_id (cancelled_at now)
                          (remove_job removes scan_id db) {s = loaded.0}
                          (rw (remove_job-scans removes scan_id db) scan.found) (λ s. refl);
                  })))
