-- ===== src/Lifecycle/Reported.antt =====
-- Scans that read COMPLETED, and their reports (qa-lab-backend/src/scans).
use qa_lab.Base.{
  ℕ, ◌≡◌, ◌≢◌, refl, sym, ap, subst, inl, inr, Bool, true, false, List, [], ◌∷◌, ◌++◌, Option, none,
  some, Text, arith, ◌==◌, is_some, All, All-map, All-append, Bool-cases,
}
use qa_lab.Base.Rows.{find, All-update_where, find-append_some, find-append_hit}
use qa_lab.Schema.{Db, Scan, ScanStatus, Report, queued}
use qa_lab.Program.{Outcome, Exception, after, ◌>>=◌}
use qa_lab.Program.Rules.{
  Ends, done, failed, Ends-after, Ends-of_after, gets_rule, or_throw_rule, throw_if_rule,
  modify_rule, read_rule, bind_ok,
}
use qa_lab.DomainVerify.Laws.{load_website-Reads}
use qa_lab.Limiter.{put_counter}
use qa_lab.Limiter.Laws.{acquire_lem}
use qa_lab.Reaper.{reap, reaped_at}
use qa_lab.Scans.Creation.{NotStored, create_scan-Ends, create_for_principal-Ends}
use qa_lab.Scans.Cancelling.{cancel-Ends}
use qa_lab.Lifecycle.{Step, Reach, creates, cancels, reaps, works, here, next}
use qa_lab.Scans.{
  CreateScanDto, Principal, key_of, user, create_for_principal, cancel, cancelled_at, remove_job,
  not_enqueued, find_scan, set_scan, insert_scan,
}
use qa_lab.Worker.{
  Env, ResultStatus, ScanResult, ScanRun, threw, returned, store_report, finish, conclude, run_scan,
  or_fail, then_release, guarded_run, run_if_granted, start, process_found, process, is_settled,
  is_cancelled, completed_at, running_at,
}

abbrev pub HasReport : List Report → Scan → Type 0
HasReport reports s =
    s.status ≡ ScanStatus.completed → is_some (find (λ r. r.scan_id == s.id) reports) ≡ true

abbrev pub IsReported : Db → Type 0
IsReported db = All (HasReport db.reports) db.scans

-- A change that does not end in COMPLETED.
set_scan-IsReported :
    (id : ℕ) (f : Scan → Scan) (db : Db)
    → ((s : Scan) → (f s).status ≢ ScanStatus.completed)
    → IsReported db
    → IsReported (set_scan id f db)
set_scan-IsReported id f db other h =
    All-update_where (HasReport db.reports) (λ s. s.id == id) f db.scans
      (λ s _ _ e. absurd (other s e)) h

abbrev Safe : {A : Type 0} → Outcome A → Type 0
Safe r = Ends (λ _ d. IsReported d) (λ _ d. IsReported d) r

complete-IsReported :
    (now id : ℕ) (r : ScanResult) (report : Report) (db : Db)
    → report.scan_id ≡ id
    → IsReported db
    → IsReported
        (set_scan id (completed_at now r) (record db { reports = db.reports ++ report ∷ [] }))
complete-IsReported now id r report db same h =
    All-update_where (HasReport (db.reports ++ report ∷ [])) (λ s. s.id == id) (completed_at now r)
      db.scans
      (λ s _ hit _.
        find-append_hit (λ k. k.scan_id == s.id) db.reports report (ground (arith, hit, same)))
      (All-map (HasReport db.reports) (HasReport (db.reports ++ report ∷ [])) db.scans
        (λ s k e. find-append_some (λ r. r.scan_id == s.id) db.reports report (k e)) h)

store_report-Safe :
    (now id : ℕ) (r : ScanResult) (report : Report) (db : Db)
    → report.scan_id ≡ id
    → IsReported db
    → Safe (store_report now id r report db)
unfolding store_report
store_report-Safe now id r report db same h =
    gets_rule _ _ db (
      throw_if_rule _ _ _ db (λ _. h) λ _. done _ _ (complete-IsReported now id r report db same h))

finish-Safe :
    (env : Env) (id : ℕ) (r : ScanResult) (status : ResultStatus) (db : Db)
    → IsReported db
    → Safe (finish env id r status db)
unfolding finish
finish-Safe env id r ResultStatus.failed db h = done _ _ (set_scan-IsReported id _ db (λ s e. cc) h)
finish-Safe env id r ResultStatus.cancelled db h =
    done _ _ (set_scan-IsReported id _ db (λ s e. cc) h)
finish-Safe env id r ResultStatus.completed db h =
    modify_rule _ _ db
      (or_throw_rule _ _ _ _ (λ _. h) λ _ _. store_report-Safe env.finished id r _ _ refl h)
finish-Safe env id r ResultStatus.partial db h =
    modify_rule _ _ db
      (or_throw_rule _ _ _ _ (λ _. h) λ _ _. store_report-Safe env.finished id r _ _ refl h)

conclude-Safe :
    (env : Env) (id : ℕ) (run : ScanRun) (db : Db) → IsReported db → Safe (conclude env id run db)
unfolding conclude
conclude-Safe env id (threw text) db h = failed _ _ h
conclude-Safe env id (returned r) db h =
    gets_rule _ _ db (elim (Bool-cases (is_cancelled (find_scan id db.scans))) [
      | inl e ↦ rw e (done _ _ h)
      | inr e ↦ rw e (finish-Safe env id r r.status db h)
    ])

or_fail-Safe : (env : Env) (id : ℕ) {r : Outcome (Unit {0})} → Safe r → Safe (or_fail env id r)
or_fail-Safe env id (done a d h) = done a d h
or_fail-Safe env id (failed e d h) = failed e _ (set_scan-IsReported id _ d (λ s q. cc) h)

then_release-Safe :
    (organization_id : ℕ) {r : Outcome (Unit {0})}
    → Safe r
    → IsReported (after (then_release organization_id r))
unfolding qa_lab.Limiter.release ◌>>=◌
then_release-Safe organization_id (done a d h) = h
then_release-Safe organization_id (failed e d h) = h

module _ (env : Env) (others : (d : Db) → IsReported d → IsReported (env.during d)) where
  run_scan-Safe :
      (scan : Scan) (url : Text) (db : Db) → IsReported db → Safe (run_scan env scan url db)
  unfolding run_scan
  run_scan-Safe scan url db h =
      let running = set_scan-IsReported scan.id (running_at env.started) db (λ s e. cc) h in
      modify_rule _ _ db (
        or_throw_rule _ _ _ _ (λ _. running)
          λ u checked. modify_rule _ _ _ (conclude-Safe env scan.id _ _ (others _ running)))

  run_if_granted-Safe :
      (scan : Scan) (url : Text) (organization_id : ℕ) (granted : Bool) (db : Db)
      → IsReported db
      → IsReported (after (run_if_granted env scan url organization_id granted db))
  unfolding run_if_granted guarded_run ◌>>=◌
  run_if_granted-Safe scan url organization_id false db h = h
  run_if_granted-Safe scan url organization_id true db h =
      then_release-Safe organization_id (or_fail-Safe env scan.id (run_scan-Safe scan url db h))

  start-Safe : (scan : Scan) (db : Db) → IsReported db → Safe (start env scan db)
  unfolding start
  start-Safe scan db h =
      read_rule _ _ db (load_website-Reads scan.website_id db) (λ e. h)
        λ loaded website.
          let (granted, v, q, a) = acquire_lem env.max_per_org loaded.1 db in
          bind_ok _ _ db q (
            Ends-of_after IsReported _ (
              run_if_granted-Safe scan loaded.0.url loaded.1 granted (put_counter loaded.1 v db) h))

  process_found-Safe :
      (found : Option Scan) (db : Db) → IsReported db → Safe (process_found env found db)
  process_found-Safe none db h = done _ _ h
  process_found-Safe (some scan) db h = elim (Bool-cases (is_settled scan.status)) [
    | inl e ↦ rw e (done _ _ h)
    | inr e ↦ rw e (start-Safe scan db h)
  ]

  process-IsReported :
      (scan_id : ℕ) (db : Db) → IsReported db → IsReported (after (process env scan_id db))
  unfolding process
  process-IsReported scan_id db h =
      Ends-after IsReported
        (gets_rule (λ d. find_scan scan_id d.scans) (process_found env) db
          (process_found-Safe (find_scan scan_id db.scans) db h))
        (λ _ d k. k) (λ _ d k. k)

insert-IsReported :
    (scan : Scan) (db : Db)
    → scan.status ≡ queued
    → IsReported db
    → IsReported (insert_scan scan db)
insert-IsReported scan db q h =
    All-append (HasReport db.reports) db.scans (scan ∷ []) h (λ e. absurd (cc (q, e)), tt)

NotStored-IsReported :
    (now : ℕ) (accepts : Bool) (id : ℕ) (db : Db) (e : Exception) (db' : Db)
    → IsReported db
    → NotStored now accepts id db e db'
    → IsReported db'
NotStored-IsReported now accepts id db e db' h (inl same) = subst IsReported (sym same) h
NotStored-IsReported now accepts id db e db' h (inr (closed, scan, same, q, written, stored)) =
    subst IsReported (sym written) (
      set_scan-IsReported scan.id (not_enqueued now) (insert_scan scan db) (λ s e. cc)
        (insert-IsReported scan db q h))

creates-IsReported :
    (safe : Text → Option Text) (now : ℕ) (accepts : Bool) (new_id : ℕ) (who : Principal)
    (dto : CreateScanDto) (db : Db)
    → IsReported db
    → IsReported (after (create_for_principal safe now accepts new_id who dto db))
unfolding create_for_principal
creates-IsReported safe now accepts new_id (key_of o c) dto db h =
    Ends-after IsReported (create_for_principal-Ends safe now accepts new_id o c dto db)
      (λ r d v.
        subst IsReported (sym v.stored.1) (insert-IsReported r db (ap (λ s. s.status) v.row) h))
      (λ e d v. NotStored-IsReported now accepts new_id db e d h v)
creates-IsReported safe now accepts new_id (user u) dto db h =
    Ends-after IsReported (create_scan-Ends now accepts new_id u dto db)
      (λ r d v.
        subst IsReported (sym v.stored.1) (insert-IsReported r db (ap (λ s. s.status) v.row) h))
      (λ e d v. NotStored-IsReported now accepts new_id db e d h v)

remove_job-IsReported :
    (removes : Bool) (id : ℕ) (db : Db) → IsReported db → IsReported (remove_job removes id db)
remove_job-IsReported true id db h = h
remove_job-IsReported false id db h = h

cancels-IsReported :
    (now : ℕ) (removes : Bool) (user_id scan_id : ℕ) (db : Db)
    → IsReported db
    → IsReported (after (cancel now removes user_id scan_id db))
cancels-IsReported now removes user_id scan_id db h =
    Ends-after IsReported (cancel-Ends now removes user_id scan_id db)
      (λ r d v. subst IsReported (sym v.written) (
        set_scan-IsReported scan_id (cancelled_at now) (remove_job removes scan_id db) (λ s e. cc)
          (remove_job-IsReported removes scan_id db h)))
      (λ e d same. subst IsReported (sym same) h)

reaps-IsReported : (now stuck_ms : ℕ) (db : Db) → IsReported db → IsReported (reap now stuck_ms db)
unfolding reap
reaps-IsReported now stuck_ms db h =
    All-update_where (HasReport db.reports) _ (reaped_at now) db.scans (λ s _ _ e. absurd (cc e)) h

mutual
  Step-IsReported : {a b : Db} → Step a b → IsReported a → IsReported b
  Step-IsReported (creates safe now accepts new_id who dto db) h =
      creates-IsReported safe now accepts new_id who dto db h
  Step-IsReported (cancels now removes user_id scan_id db) h =
      cancels-IsReported now removes user_id scan_id db h
  Step-IsReported (reaps now stuck_ms db) h = reaps-IsReported now stuck_ms db h
  Step-IsReported (works env scan_id db others) h =
      process-IsReported env (λ d k. Reach-keeps (others d) k) scan_id db h

  Reach-keeps : {a b : Db} → Reach a b → IsReported a → IsReported b
  Reach-keeps here h = h
  Reach-keeps (next r st) h = Step-IsReported st (Reach-keeps r h)

-- Through any history of scan requests, cancellations, jobs and reaper passes, with other steps
-- served while a scanner runs: if every scan that reads COMPLETED has a report before, so has
-- every such scan after.
pub Reach-IsReported : {a b : Db} → Reach a b → IsReported a → IsReported b
Reach-IsReported r h = Reach-keeps r h
