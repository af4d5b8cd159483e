-- ===== src/Worker/Outcomes.antt =====
-- What a job leaves in the scan's row, on every branch.
use qa_lab.Base.{
  ℕ, ◌+◌, ◌<◌, ◌≤◌, ◌≡◌, refl, inl, inr, Bool, true, false, Option, none, some, Text, arith,
  if◌then◌else◌, Bool-cases, Option-cases, is_some,
}
use qa_lab.Schema.{Db, Scan, ScanStatus, Website, cancelled, completed}
use qa_lab.Program.{
  Outcome, ok, err, plain_error, concurrency_limit, scanner_threw, report_exists, invalid_score,
  or_throw, after, ◌>>=◌,
}
use qa_lab.DomainVerify.{load_website}
use qa_lab.DomainVerify.Laws.{IsLoaded}
use qa_lab.Limiter.{counter, put_counter, acquire, release}
use qa_lab.Scans.{status_eq, find_scan, set_scan, report_of}
use qa_lab.Scans.Cancelling.{find_scan-set_scan}
use qa_lab.Worker.{
  count_completed, Env, ResultStatus, ScanResult, ScanRun, threw, returned, store_report, finish,
  conclude, run_scan, or_fail, then_release, guarded_run, run_if_granted, start, process,
  is_settled, is_cancelled, score_column, rounded, running_at, capped, stopped_at, completed_at,
  failed_at,
}

-- The row that a job leaves, from the row as it stands when the scanner answers, and from whether
-- the scan has a report by then.
abbrev pub row_stored : Env → ScanResult → Bool → Scan → Scan
row_stored env r reported s =
    if reported
    then failed_at env.finished (env.message (plain_error report_exists)) s
    else completed_at env.finished r s

abbrev pub row_scored : Env → ScanResult → Option (Option ℕ) → Bool → Scan → Scan
row_scored env r none reported s =
    failed_at env.finished (env.message (plain_error invalid_score)) s
row_scored env r (some score) reported s = row_stored env r reported s

abbrev pub row_of_status : Env → ScanResult → ResultStatus → Bool → Scan → Scan
row_of_status env r ResultStatus.failed reported s = stopped_at env.finished ScanStatus.failed r s
row_of_status env r ResultStatus.cancelled reported s =
    stopped_at env.finished ScanStatus.cancelled r s
row_of_status env r other reported s =
    row_scored env r (score_column env.nan_column (rounded r.overall_score)) reported s

abbrev pub row_left : Env → ScanRun → Bool → Scan → Scan
row_left env (threw text) reported s =
    failed_at env.finished (env.message (plain_error (scanner_threw text))) s
row_left env (returned r) reported s =
    if status_eq s.status ScanStatus.cancelled then s else row_of_status env r r.status reported s

-- The row of one scan.
abbrev pub HasRow : ℕ → Scan → Db → Type 0
HasRow id s db = find_scan id db.scans ≡ some s

module _ (env : Env) (id : ℕ) where
  store_report-row :
      (r : ScanResult) (report : qa_lab.Schema.Report) (db : Db) (s : Scan)
      → HasRow id s db
      → HasRow id
          (row_stored env r (is_some (report_of db id)) s)
          (after (or_fail env id (store_report env.finished id r report db)))
  unfolding store_report ◌>>=◌
  store_report-row r report db s h = elim (Bool-cases (is_some (report_of db id))) [
    | inl e ↦
        rw (e, store_report) (find_scan-set_scan id (failed_at env.finished _) db h (λ s. refl))
    | inr e ↦
        rw (e, store_report) (find_scan-set_scan id (completed_at env.finished r) db h (λ s. refl))
  ]

  scored-row :
      (r : ScanResult) (report : Option ℕ → qa_lab.Schema.Report) (score : Option (Option ℕ))
      (db : Db) (s : Scan)
      → HasRow id s db
      → HasRow id (row_scored env r score (is_some (report_of db id)) s) (
          after (
            or_fail env id (
              (or_throw score (plain_error invalid_score) >>= λ sc.
              store_report env.finished id r (report sc))
                db)))
  unfolding ◌>>=◌
  scored-row r report none db s h =
      find_scan-set_scan id (failed_at env.finished _) db h (λ s. refl)
  scored-row r report (some score) db s h = store_report-row r (report score) db s h

  finish-row :
      (r : ScanResult) (status : ResultStatus) (db : Db) (s : Scan)
      → HasRow id s db
      → HasRow id
          (row_of_status env r status (is_some (report_of db id)) s)
          (after (or_fail env id (finish env id r status db)))
  unfolding finish ◌>>=◌ report_of
  finish-row r ResultStatus.failed db s h =
      find_scan-set_scan id (stopped_at env.finished ScanStatus.failed r) db h (λ s. refl)
  finish-row r ResultStatus.cancelled db s h =
      find_scan-set_scan id (stopped_at env.finished ScanStatus.cancelled r) db h (λ s. refl)
  finish-row r ResultStatus.completed db s h =
      scored-row r _ (score_column env.nan_column (rounded r.overall_score)) (count_completed db) s
        h
  finish-row r ResultStatus.partial db s h =
      scored-row r _ (score_column env.nan_column (rounded r.overall_score)) (count_completed db) s
        h

  conclude-row :
      (run : ScanRun) (db : Db) (s : Scan)
      → HasRow id s db
      → HasRow id
          (row_left env run (is_some (report_of db id)) s)
          (after (or_fail env id (conclude env id run db)))
  unfolding conclude ◌>>=◌
  conclude-row (threw text) db s h =
      find_scan-set_scan id (failed_at env.finished _) db h (λ s. refl)
  conclude-row (returned r) db s h =
      let seen : is_cancelled (find_scan id db.scans) ≡ status_eq s.status ScanStatus.cancelled =
        rw h refl in
      elim (Bool-cases (status_eq s.status ScanStatus.cancelled)) [
        | inl e ↦ rw (seen, e) h
        | inr e ↦ rw (seen, e) (finish-row r r.status db s h)
      ]

  then_release-row :
      (organization_id : ℕ) (s : Scan) (r : Outcome (Unit {0}))
      → HasRow id s (after r)
      → HasRow id s (after (then_release organization_id r))
  unfolding release ◌>>=◌
  then_release-row organization_id s (ok x d) h = h
  then_release-row organization_id s (err e d) h = h

-- The database when the scanner starts: the slot is taken and the row reads RUNNING.
abbrev pub at_start : Env → Scan → ℕ → Db → Db
at_start env scan organization_id db =
    set_scan scan.id (running_at env.started)
      (put_counter organization_id (counter organization_id db.running + 1) db)

module _ (env : Env) (scan : Scan) (w : Website) (organization_id : ℕ) (db : Db) where
  guarded_run-row :
      {u : Text} {s : Scan} (d : Db)
      → env.safe w.url ≡ some u
      → HasRow scan.id s (env.during (set_scan scan.id (running_at env.started) d))
      → HasRow scan.id
          (row_left env
            (env.scanner w.url (capped env.hard_max_pages scan.options))
            (is_some (report_of (env.during (set_scan scan.id (running_at env.started) d)) scan.id))
            s)
          (after (guarded_run env scan w.url organization_id d))
  unfolding guarded_run run_scan ◌>>=◌
  guarded_run-row {u} {s} d safe h =
      then_release-row env scan.id organization_id _
        (or_fail env scan.id (run_scan env scan w.url d))
        (rw (safe, run_scan) (conclude-row env scan.id _ _ s h))

  process-runs :
      find_scan scan.id db.scans ≡ some scan
      → is_settled scan.status ≡ false
      → IsLoaded db scan.website_id (w, organization_id)
      → counter organization_id db.running < env.max_per_org
      → process env scan.id db
        ≡ guarded_run env scan w.url organization_id
            (put_counter organization_id (counter organization_id db.running + 1) db)
  unfolding process start load_website acquire run_if_granted ◌>>=◌
  process-runs found open_scan loaded room =
      ground (arith, found, open_scan, loaded.found, loaded.organization, room)

  -- For a job whose scan is found and not settled, whose website and organization are found, whose
  -- organization has a slot free and whose URL is accepted: the row it leaves is what `row_left`
  -- computes from the scanner's answer, from the row as it stands when the scanner answers, and
  -- from whether the scan has a report by then. A row that reads CANCELLED stays as it is if the
  -- scanner returned; a `failed` or `cancelled` result makes it FAILED or CANCELLED; any other
  -- result makes it COMPLETED, or FAILED if there is a report already or its score cannot be
  -- stored; an exception of the scanner makes it FAILED, a cancelled scan included.
  pub process-row :
      {u : Text} {s : Scan}
      → find_scan scan.id db.scans ≡ some scan
      → is_settled scan.status ≡ false
      → IsLoaded db scan.website_id (w, organization_id)
      → counter organization_id db.running < env.max_per_org
      → env.safe w.url ≡ some u
      → HasRow scan.id s (env.during (at_start env scan organization_id db))
      → HasRow scan.id
          (row_left env
            (env.scanner w.url (capped env.hard_max_pages scan.options))
            (is_some (report_of (env.during (at_start env scan organization_id db)) scan.id))
            s)
          (after (process env scan.id db))
  process-row {u} {s} found open_scan loaded room safe h =
      rw (process-runs found open_scan loaded room) (guarded_run-row {u = u} {s = s} _ safe h)

  -- A job whose scan is found and not settled, whose website and organization are found, and whose
  -- organization has no slot free, ends in the exception that has it retried, and the tables are
  -- as before.
  pub process-over_limit :
      find_scan scan.id db.scans ≡ some scan
      → is_settled scan.status ≡ false
      → IsLoaded db scan.website_id (w, organization_id)
      → env.max_per_org ≤ counter organization_id db.running
      → process env scan.id db
        ≡ err
            (plain_error concurrency_limit)
            (put_counter organization_id (counter organization_id db.running) db)
  unfolding process start load_website acquire run_if_granted ◌>>=◌
  process-over_limit found open_scan loaded full =
      ground (arith, found, open_scan, loaded.found, loaded.organization, full)

-- If the scan of a job is CANCELLED or COMPLETED, or there is none, the job succeeds and writes
-- nothing.
process_settled :
    (env : Env) (scan_id : ℕ) (db : Db)
    → ((s : Scan) → find_scan scan_id db.scans ≡ some s → is_settled s.status ≡ true)
    → process env scan_id db ≡ ok tt db
unfolding process ◌>>=◌
process_settled env scan_id db h = elim (Option-cases (find_scan scan_id db.scans)) [
  | inl e ↦ rw (e, process)
  | inr (s, e) ↦ rw (e, process) (rw (h s e))
]
