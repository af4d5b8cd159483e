-- ===== src/Tests/Schedules.antt =====
-- Schedules at example data: one that is due, and one that is not yet.
use qa_lab.Base.{ℕ, ◌+◌, ◌≡◌, refl, Bool, true, [], ◌∷◌, none, some, arith, ◌==◌}
use qa_lab.Base.Rows.{count_where, All-find}
use qa_lab.Schema.{Db, ScanSchedule}
use qa_lab.Quotas.{scans_since, website_in, project_in}
use qa_lab.Schedules.{claim_one, process_due}
use qa_lab.Schedules.Claims.{IsClaim, claim_one_lem}
use qa_lab.Schedules.Quota.{WithinDay, process_due-WithinDay}
use qa_lab.Tests.{db}

abbrev schedule_at : ℕ → ℕ → ScanSchedule
schedule_at id next = record {
  id = id;
  website_id = 30;
  interval_hours = 24;
  enabled = true;
  options = record { max_pages = none; max_depth = some 3 };
  last_run_at = none;
  next_run_at = some next;
}

abbrev timed : Db
timed = record db { schedules = schedule_at 80 400 ∷ schedule_at 81 90 ∷ [] }

abbrev accepts : ℕ → Bool
accepts turn = true

abbrev ids : ℕ → ℕ
ids turn = 100 + turn

claim_one_lem_example : IsClaim 100 timed (claim_one 100 timed)
claim_one_lem_example = claim_one_lem 100 timed

timed-WithinDay : WithinDay 100 timed
unfolding scans_since count_where website_in project_in
timed-WithinDay organization_id org found =
    let five : org.max_scans_per_day ≡ 5 =
      All-find (λ o. o.max_scans_per_day ≡ 5) (λ o. o.id == organization_id) timed.organizations
        (refl, (refl, tt)) found in
    ground (arith, five)

process_due-WithinDay_example : WithinDay 100 (process_due 100 accepts ids timed).1
process_due-WithinDay_example = process_due-WithinDay 100 accepts ids timed timed-WithinDay
