-- ===== src/Tests/Jobs.antt =====
-- Scans, jobs of the worker, the reaper and child processes at example data.
use qa_lab.Base.{◌≡◌, ◌⊎◌, refl, inl, true, false, ◌∷◌, none, some, codes, arith}
use qa_lab.Base.Rows.{update_where}
use qa_lab.Schema.{ScanStatus}
use qa_lab.Program.{err, after, plain_error, concurrency_limit}
use qa_lab.Program.Rules.{Ends, Unchanged}
use qa_lab.Projects.{find_project}
use qa_lab.DomainVerify.{find_website, organization_of}
use qa_lab.Scans.{
  find_scan, create, create_for_principal, key_of, queued_scan, options_of, get_one,
  list_by_website, cancel, report_of,
}
use qa_lab.Scans.Creation.{
  CreatedByUser, NotStored, create_scan-Ends, CreatedByKey, MayScan, create_by_key-Ends,
}
use qa_lab.Scans.Cancelling.{Cancelled, cancel-Ends}
use qa_lab.Limiter.{counter, put_counter}
use qa_lab.Worker.{Env, process, capped}
use qa_lab.Worker.Slots.{SameCounters, process-same}
use qa_lab.Worker.Outcomes.{HasRow, row_left, process-row, process-over_limit}
use qa_lab.Lifecycle.{here, next, works}
use qa_lab.Lifecycle.Reported.{IsReported, Reach-IsReported}
use qa_lab.ChildRunner.{exit, drive, initial}
use qa_lab.ChildRunner.Laws.{ticks, silent_exit_hangs}
use qa_lab.Tests.{db, env, keep_https, scan_dto, scan_at, site_at, options}

create_scan-Ends_example :
    Ends
      (λ r d. CreatedByUser 9 true 52 1 scan_dto db d r)
      (NotStored 9 true 52 db)
      (create 9 true 52 1 scan_dto db)
create_scan-Ends_example = create_scan-Ends 9 true 52 1 scan_dto db

-- The website whose domain nobody has verified, with probes asked for.
abbrev probe_dto : qa_lab.Scans.CreateScanDto
probe_dto = record scan_dto { website_id = 31; max_pages = some 500 }

create_by_key-Ends_example :
    Ends
      (λ r d. CreatedByKey keep_https 9 true 52 10 probe_dto db d r)
      (λ e d.
        NotStored 9 true 52 db e d
        × ((true ≡ false) ⊎ ¬ MayScan keep_https 10 probe_dto.website_id db))
      (create_for_principal keep_https 9 true 52 (key_of 10 none) probe_dto db)
create_by_key-Ends_example = create_by_key-Ends keep_https 9 true 52 10 none probe_dto db

cancel-Ends_example :
    Ends (λ r d. Cancelled 9 true 1 50 db d r) (Unchanged db) (cancel 9 true 1 50 db)
cancel-Ends_example = cancel-Ends 9 true 1 50 db

process-same_example : SameCounters db (after (process env 50 db))
process-same_example = process-same env (λ d. refl) 50 db

process-row_example :
    HasRow 50
      (row_left env
        (env.scanner (codes "https://a.test") (capped 50 options))
        false
        (qa_lab.Worker.running_at 100 (scan_at 50 ScanStatus.queued none)))
      (after (process env 50 db))
unfolding find_scan find_website organization_of find_project counter report_of update_where
process-row_example =
    process-row env (scan_at 50 ScanStatus.queued none) (site_at 30 (some 5)) 10 db
      {u = codes "https://a.test"}
      {s = qa_lab.Worker.running_at 100 (scan_at 50 ScanStatus.queued none)} refl refl
      (record { found = refl; organization = refl }) (omega arith) refl refl

abbrev tight : Env
tight = record env { max_per_org = 1 }

process-over_limit_example :
    process tight 50 db ≡ err (plain_error concurrency_limit) (put_counter 10 1 db)
unfolding find_scan find_website organization_of find_project counter
process-over_limit_example =
    process-over_limit tight (scan_at 50 ScanStatus.queued none) (site_at 30 (some 5)) 10 db refl
      refl (record { found = refl; organization = refl }) (omega arith)

Reach-IsReported_example : IsReported (after (process env 50 db))
Reach-IsReported_example =
    Reach-IsReported (next here (works env 50 db (λ d. here))) ((λ e. cc), ((λ e. cc), tt))

silent_exit_hangs_example : (drive (exit none ∷ ticks 3) initial).settled ≡ none
silent_exit_hangs_example = silent_exit_hangs none 3 (inl refl)
