-- ===== src/Schedules.antt =====
-- SchedulesService: qa-lab-backend/src/schedules/schedules.service.ts. The rows of one table that
-- a claim locks are not seen by another claim, so a claim is one step.
pub mod Editing
pub mod Claims
pub mod Ticks
pub mod Quota
use mathlib.Core.List.{reverse}
use qa_lab.Base.{
  ℕ, zero, suc, ◌+◌, ◌*◌, Bool, true, false, ◌&&◌, ◌||◌, not, List, [], ◌∷◌, ◌++◌, Option, none,
  some, Text, ◌==◌, if◌then◌else◌, is_some, or_default, leb,
}
use qa_lab.Base.Rows.{find, update_where, delete_where, select_where}
use qa_lab.Schema.{
  Db, Website, Scan, ScanOptions, ScanTrigger, ScanSchedule, ScheduleOptions, owner, admin,
}
use qa_lab.Program.{
  Action, Outcome, ok, err, pure, throw, gets, or_throw, throw_if, modify, ◌>>=◌, ◌>>◌, bad_request,
  not_found, unsafe_url, schedule_not_found,
}
use qa_lab.Organizations.{require_membership}
use qa_lab.Projects.{editors}
use qa_lab.DomainVerify.{find_website, organization_of, assert_verified}
use qa_lab.Websites.{require_website_access}
use qa_lab.Quotas.{assert_schedule_interval, assert_can_create_scan}
use qa_lab.Scans.{queued_scan, insert_scan}

pub record CreateScheduleDto : Type 0 where
  pub website_id : ℕ
  pub interval_hours : Option ℕ
  pub enabled : Option Bool
  pub max_pages : Option ℕ
  pub max_depth : Option ℕ

abbrev pub hour_ms : ℕ
hour_ms = 60 * 60 * 1000

abbrev pub new_schedule : ℕ → ℕ → CreateScheduleDto → ScanSchedule
new_schedule now id dto = record {
  id = id;
  website_id = dto.website_id;
  interval_hours = or_default dto.interval_hours 24;
  enabled = or_default dto.enabled true;
  options = record {
    max_pages = some (or_default dto.max_pages 50);
    max_depth = some (or_default dto.max_depth 2);
  };
  last_run_at = none;
  next_run_at = some (now + or_default dto.interval_hours 24 * hour_ms);
}

abbrev pub insert_schedule : ScanSchedule → Db → Db
insert_schedule s db = record db { schedules = db.schedules ++ s ∷ [] }

unfoldable pub create : (Text → Option Text) → ℕ → ℕ → ℕ → CreateScheduleDto → Action ScanSchedule
create safe now new_id user_id dto = do
  loaded ← require_website_access user_id dto.website_id
  require_membership user_id loaded.1 editors
  assert_verified dto.website_id
  url ← or_throw (safe loaded.0.url) (bad_request unsafe_url)
  assert_schedule_interval loaded.1 (or_default dto.interval_hours 24)
  modify (insert_schedule (new_schedule now new_id dto))
  pure (new_schedule now new_id dto)

-- Newest first: rows stand in the order of their creation.
unfoldable pub list_by_website : ℕ → ℕ → Action (List ScanSchedule)
unfolding select_where
list_by_website user_id website_id = do
  require_website_access user_id website_id
  gets (λ db. reverse (select_where (λ s. s.website_id == website_id) db.schedules))

unfoldable pub find_schedule : ℕ → List ScanSchedule → Option ScanSchedule
unfolding find
find_schedule id = find (λ s. s.id == id)

abbrev pub set_schedule : ℕ → (ScanSchedule → ScanSchedule) → Db → Db
set_schedule id f db = record db { schedules = update_where (λ s. s.id == id) f db.schedules }

-- The schedule, and the organization of its website through the required relations.
abbrev pub organization_of_schedule : Db → ScanSchedule → Option ℕ
organization_of_schedule db s = elim (find_website s.website_id db.websites) [
  | none ↦ none
  | some w ↦ organization_of db w
]

unfoldable pub load_schedule : ℕ → Action (ScanSchedule × ℕ)
load_schedule id = do
  schedule ← or_throw (← gets (λ db. find_schedule id db.schedules)) (not_found schedule_not_found)
  organization_id ←
      or_throw (← gets (λ db. organization_of_schedule db schedule)) (not_found schedule_not_found)
  pure (schedule, organization_id)

abbrev pub switched : ℕ → Bool → ScanSchedule → ScanSchedule
switched now enabled s = record s {
  enabled = enabled;
  next_run_at = if enabled then some (now + s.interval_hours * hour_ms) else none;
}

unfoldable pub set_enabled : ℕ → ℕ → ℕ → Bool → Action ScanSchedule
set_enabled now user_id id enabled = do
  loaded ← load_schedule id
  require_membership user_id loaded.1 editors
  modify (set_schedule id (switched now enabled))
  pure (switched now enabled loaded.0)

unfoldable pub remove : ℕ → ℕ → Action (Unit {0})
unfolding delete_where
remove user_id id = do
  loaded ← load_schedule id
  require_membership user_id loaded.1 (owner ∷ admin ∷ [])
  modify (λ db. record db { schedules = delete_where (λ s. s.id == id) db.schedules })

-- `enabled = true AND "nextRunAt" IS NOT NULL AND "nextRunAt" <= NOW()`
abbrev pub is_due : ℕ → ScanSchedule → Bool
is_due now s = s.enabled && elim s.next_run_at [ none ↦ false | some t ↦ leb t now ]

abbrev pub due_at : ScanSchedule → ℕ
due_at s = or_default s.next_run_at 0

abbrev pub earlier : ScanSchedule → Option ScanSchedule → Option ScanSchedule
earlier s none = some s
earlier s (some r) = if leb (due_at s) (due_at r) then some s else some r

-- `ORDER BY "nextRunAt" ASC LIMIT 1`; of two with the same time, the first in the table.
unfoldable pub earliest : ℕ → List ScanSchedule → Option ScanSchedule
earliest now [] = none
earliest now (s ∷ ss) = let rest = earliest now ss in if is_due now s then earlier s rest else rest

abbrev pub advanced : ℕ → ScanSchedule → ScanSchedule
advanced now s = record s {
  last_run_at = some now;
  next_run_at = some (now + s.interval_hours * hour_ms);
}

-- `claimOneDueSchedule`
unfoldable pub claim_one : ℕ → Db → Option ScanSchedule × Db
claim_one now db = elim (earliest now db.schedules) [
  | none ↦ (none, db)
  | some s ↦ (some s, set_schedule s.id (advanced now) db)
]

-- `website.findUnique({ where: { id }, include: { project: true } })`
abbrev pub site_of : ℕ → Db → Option (Website × ℕ)
site_of website_id db = elim (find_website website_id db.websites) [
  | none ↦ none
  | some w ↦ elim (organization_of db w) [ none ↦ none | some o ↦ some (w, o) ]
]

abbrev pub scheduled_options : ScheduleOptions → ScanOptions
scheduled_options o = record {
  max_pages = or_default o.max_pages 50;
  max_depth = or_default o.max_depth 2;
  concurrency = 5;
  respect_robots_txt = true;
  check_exposed_paths = false;
  check_assets = false;
}

abbrev pub scheduled_scan : ℕ → ℕ → Website → ScanSchedule → Scan
scheduled_scan now id w s = queued_scan now id w ScanTrigger.scheduled (scheduled_options s.options)

-- The row is stored first; a queue that refuses the job throws, and the throw is only logged.
abbrev pub store_scheduled : Bool → Scan → Db → Bool × Db
store_scheduled accepts scan db =
    if accepts
    then (true, record (insert_scan scan db) { jobs = db.jobs ++ scan.id ∷ [] })
    else (false, insert_scan scan db)

-- The inner `try` around the quota.
abbrev pub after_quota : ℕ → Bool → ℕ → ScanSchedule → Website → Outcome ℕ → Bool × Db
after_quota now accepts new_id s w (err e db) = (false, db)
after_quota now accepts new_id s w (ok pages db) =
    store_scheduled accepts (scheduled_scan now new_id w s) db

unfoldable pub run_site : ℕ → Bool → ℕ → ScanSchedule → Option (Website × ℕ) → Db → Bool × Db
run_site now accepts new_id s none db = (false, db)
run_site now accepts new_id s (some (w, o)) db =
    if not w.is_active || not (is_some w.domain_verified_at)
    then (false, db)
    else after_quota now accepts new_id s w (assert_can_create_scan now o s.options.max_pages db)

-- The body of the loop, behind the claim: whether a scan was enqueued.
unfoldable pub run_claimed : ℕ → Bool → ℕ → ScanSchedule → Db → Bool × Db
run_claimed now accepts new_id s db = run_site now accepts new_id s (site_of s.website_id db) db

-- The loop, with the turns that are left; what the queue says and the identifier of a new scan
-- are given for each turn.
unfoldable pub process_from : ℕ → (ℕ → Bool) → (ℕ → ℕ) → ℕ → Db → ℕ × Db
process_from now accepts ids zero db = (0, db)
process_from now accepts ids (suc left) db =
    let (claimed, d) = claim_one now db in
    elim claimed [
      | none ↦ (0, d)
      | some s ↦
          let (enqueued, d') = run_claimed now (accepts left) (ids left) s d in
          let (n, d'') = process_from now accepts ids left d' in
          ((if enqueued then n + 1 else n), d'')
    ]

-- `processDueSchedules`
unfoldable pub process_due : ℕ → (ℕ → Bool) → (ℕ → ℕ) → Db → ℕ × Db
process_due now accepts ids = process_from now accepts ids 20
