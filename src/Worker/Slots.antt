-- ===== src/Worker/Slots.antt =====
-- The organization's slot over a job (`process`, with its `finally`).
use qa_lab.Base.{
  ℕ, ◌-◌, ◌≡◌, refl, ◌∙◌, Bool, true, false, Option, none, some, Text, arith, Bool-cases, inl, inr,
}
use qa_lab.Schema.{Db, Scan}
use qa_lab.Program.{Outcome, after, ◌>>=◌}
use qa_lab.Program.Rules.{
  Ends-of_after, bind_ok, Ends-mono, Ends, done, failed, Ends-after, gets_rule, or_throw_rule,
  throw_if_rule, modify_rule, read_rule,
}
use qa_lab.DomainVerify.Laws.{load_website-Reads}
use qa_lab.Limiter.{counter, set_counter, put_counter, release}
use qa_lab.Limiter.Laws.{counter-set_counter, Acquired, acquire_lem}
use qa_lab.Scans.{find_scan}
use qa_lab.Worker.{
  Env, ResultStatus, ScanResult, ScanRun, threw, returned, store_report, finish, conclude, run_scan,
  or_fail, then_release, guarded_run, run_if_granted, start, process_found, process, is_settled,
  is_cancelled,
}

-- What the run writes, it writes beside the counters.
abbrev Keeps : {A : Type 0} → Db → Outcome A → Type 0
Keeps db r = Ends (λ a d. d.running ≡ db.running) (λ e d. d.running ≡ db.running) r

store_report-Keeps :
    (now scan_id : ℕ) (r : ScanResult) (report : qa_lab.Schema.Report) (db : Db)
    → Keeps db (store_report now scan_id r report db)
unfolding store_report
store_report-Keeps now scan_id r report db =
    gets_rule _ _ db (throw_if_rule _ _ _ db (λ _. refl) λ _. done _ _ refl)

finish-Keeps :
    (env : Env) (scan_id : ℕ) (r : ScanResult) (status : ResultStatus) (db : Db)
    → Keeps db (finish env scan_id r status db)
unfolding finish
finish-Keeps env scan_id r ResultStatus.failed db = done _ _ refl
finish-Keeps env scan_id r ResultStatus.cancelled db = done _ _ refl
finish-Keeps env scan_id r ResultStatus.completed db =
    modify_rule _ _ db
      (or_throw_rule _ _ _ _ (λ _. refl) λ _ _. store_report-Keeps env.finished scan_id r _ _)
finish-Keeps env scan_id r ResultStatus.partial db =
    modify_rule _ _ db
      (or_throw_rule _ _ _ _ (λ _. refl) λ _ _. store_report-Keeps env.finished scan_id r _ _)

conclude-Keeps :
    (env : Env) (scan_id : ℕ) (run : ScanRun) (db : Db) → Keeps db (conclude env scan_id run db)
unfolding conclude
conclude-Keeps env scan_id (threw text) db = failed _ _ refl
conclude-Keeps env scan_id (returned r) db =
    gets_rule _ _ db (elim (Bool-cases (is_cancelled (find_scan scan_id db.scans))) [
      | inl e ↦ rw e (done _ _ refl)
      | inr e ↦ rw e (finish-Keeps env scan_id r r.status db)
    ])

-- Every organization has as many slots taken in the one as in the other.
abbrev pub SameCounters : Db → Db → Type 0
SameCounters db db' = (o : ℕ) → counter o db'.running ≡ counter o db.running

module _ (env : Env) (quiet : (d : Db) → (env.during d).running ≡ d.running) where
  run_scan-Keeps : (scan : Scan) (url : Text) (db : Db) → Keeps db (run_scan env scan url db)
  unfolding run_scan
  run_scan-Keeps scan url db = modify_rule _ _ db (
      or_throw_rule _ _ _ _ (λ _. refl)
        λ u checked. modify_rule _ _ _ (
          Ends-mono (λ a d e. e ∙ quiet _) (λ x d e. e ∙ quiet _) (conclude-Keeps env scan.id _ _)))

  or_fail-Keeps :
      (scan_id : ℕ) (db : Db) {r : Outcome (Unit {0})}
      → Keeps db r
      → Keeps db (or_fail env scan_id r)
  or_fail-Keeps scan_id db (done a d h) = done a _ h
  or_fail-Keeps scan_id db (failed e d h) = failed e _ h

  -- One slot of the organization is given back, and no other counter moves.
  abbrev GivesBack : ℕ → Db → Outcome (Unit {0}) → Type 0
  GivesBack organization_id db r =
      (after r).running
      ≡ set_counter organization_id (counter organization_id db.running - 1) db.running

  then_release-GivesBack :
      (organization_id : ℕ) (db : Db) {r : Outcome (Unit {0})}
      → Keeps db r
      → GivesBack organization_id db (then_release organization_id r)
  unfolding release ◌>>=◌
  then_release-GivesBack organization_id db (done a d h) = rw h
  then_release-GivesBack organization_id db (failed e d h) = rw h

  guarded_run-GivesBack :
      (scan : Scan) (url : Text) (organization_id : ℕ) (db : Db)
      → GivesBack organization_id db (guarded_run env scan url organization_id db)
  unfolding guarded_run
  guarded_run-GivesBack scan url organization_id db =
      then_release-GivesBack organization_id db
        (or_fail-Keeps scan.id db (run_scan-Keeps scan url db))

  run_if_granted-same :
      (scan : Scan) (url : Text) (organization_id v : ℕ) (db : Db) (granted : Bool)
      → Acquired env.max_per_org organization_id db (put_counter organization_id v db) granted
      → SameCounters db (
          after (
            run_if_granted env scan url organization_id granted (put_counter organization_id v db)))
  unfolding run_if_granted ◌>>=◌
  run_if_granted-same scan url organization_id v db false a o = a.counted o ∙ omega arith
  run_if_granted-same scan url organization_id v db true a o =
      let d = put_counter organization_id v db in
      rw (guarded_run-GivesBack scan url organization_id d) (
        ground (
          arith,
          counter-set_counter o organization_id (counter organization_id d.running - 1) d.running,
          a.counted o,
          a.counted organization_id,
        ))

  start-same :
      (scan : Scan) (db : Db)
      → Ends (λ _ d. SameCounters db d) (λ _ d. SameCounters db d) (start env scan db)
  unfolding start
  start-same scan db =
      read_rule _ _ db (load_website-Reads scan.website_id db) (λ e o. refl)
        λ loaded website.
          let (granted, v, q, a) = acquire_lem env.max_per_org loaded.1 db in
          bind_ok _ _ db q (
            Ends-of_after (SameCounters db) _
              (run_if_granted-same scan loaded.0.url loaded.1 v db granted a))

  process_found-same :
      (found : Option Scan) (db : Db)
      → Ends (λ _ d. SameCounters db d) (λ _ d. SameCounters db d) (process_found env found db)
  process_found-same none db = done _ _ (λ o. refl)
  process_found-same (some scan) db = elim (Bool-cases (is_settled scan.status)) [
    | inl e ↦ rw e (done _ _ (λ o. refl))
    | inr e ↦ rw e (start-same scan db)
  ]

  -- However a job ends (skipped, turned away at the limit, completed, failed, cancelled, or by an
  -- exception), every organization has as many slots taken as before the job, if the requests that
  -- are served during the run leave the counters alone.
  pub process-same : (scan_id : ℕ) (db : Db) → SameCounters db (after (process env scan_id db))
  unfolding process
  process-same scan_id db =
      Ends-after (SameCounters db)
        (gets_rule (λ d. find_scan scan_id d.scans) (process_found env) db
          (process_found-same (find_scan scan_id db.scans) db))
        (λ _ d h. h) (λ _ d h. h)
