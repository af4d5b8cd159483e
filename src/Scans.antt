-- ===== src/Scans.antt =====
-- ScansService (qa-lab-backend/src/scans/scans.service.ts) with ScanQueueService
-- (queue/scan-queue.service.ts). `accepts` says whether the queue takes the job: it does not where
-- the queue is not initialised or Redis refuses. `safe` is `assertSafeExternalUrl`.
pub mod Reading
pub mod Creation
pub mod Cancelling
use qa_lab.Base.{
  ℕ, Bool, true, false, ◌&&◌, ◌||◌, not, List, [], ◌∷◌, ◌++◌, Option, none, some, Text, ◌==◌,
  if◌then◌else◌, or_default, take,
}
use qa_lab.Base.Rows.{find, update_where, delete_where, select_where}
use qa_lab.Schema.{
  Db, Scan, ScanOptions, ScanStatus, ScanTrigger, ScanError, Report, Website, OrganizationRole,
}
use qa_lab.Program.{
  Outcome, forbidden, not_a_member, Action, ok, err, pure, throw, gets, or_throw, throw_if, modify,
  ◌>>=◌, ◌>>◌, Exception, bad_request, not_found, plain_error, unsafe_url, website_inactive,
  enqueue_failed, scan_not_found, project_not_found, cannot_cancel,
}
use qa_lab.Organizations.{require_membership}
use qa_lab.Projects.{find_project}
use qa_lab.Quotas.{assert_can_create_scan}
use qa_lab.DomainVerify.{assert_verified, load_website}
use qa_lab.Websites.{require_website_access, require_website_in_organization}
use mathlib.Core.List.{reverse}

abbrev pub status_eq : ScanStatus → ScanStatus → Bool
status_eq ScanStatus.queued ScanStatus.queued = true
status_eq ScanStatus.running ScanStatus.running = true
status_eq ScanStatus.completed ScanStatus.completed = true
status_eq ScanStatus.failed ScanStatus.failed = true
status_eq ScanStatus.cancelled ScanStatus.cancelled = true
status_eq _ _ = false

unfoldable pub find_scan : ℕ → List Scan → Option Scan
unfolding find
find_scan id = find (λ s. s.id == id)

-- `scan.update({ where: { id }, data })`
abbrev pub set_scan : ℕ → (Scan → Scan) → Db → Db
set_scan id f db = record db { scans = update_where (λ s. s.id == id) f db.scans }

pub record CreateScanDto : Type 0 where
  pub website_id : ℕ
  pub max_pages : Option ℕ
  pub max_depth : Option ℕ
  pub concurrency : Option ℕ
  pub respect_robots_txt : Option Bool
  pub check_exposed_paths : Option Bool
  pub check_assets : Option Bool

abbrev pub options_of : CreateScanDto → ℕ → ScanOptions
options_of dto pages = record {
  max_pages = pages;
  max_depth = or_default dto.max_depth 2;
  concurrency = or_default dto.concurrency 5;
  respect_robots_txt = or_default dto.respect_robots_txt true;
  check_exposed_paths = or_default dto.check_exposed_paths false;
  check_assets = or_default dto.check_assets false;
}

-- `scan.create({ data })`, with the columns that the schema fills.
abbrev pub queued_scan : ℕ → ℕ → Website → ScanTrigger → ScanOptions → Scan
queued_scan now id website trigger options = record {
  id = id;
  project_id = website.project_id;
  website_id = website.id;
  status = ScanStatus.queued;
  trigger = trigger;
  options = options;
  queued_at = now;
  started_at = none;
  completed_at = none;
  pages_scanned = none;
  error = none;
  created_at = now;
}

abbrev pub insert_scan : Scan → Db → Db
insert_scan s db = record db { scans = db.scans ++ s ∷ [] }

abbrev pub not_enqueued : ℕ → Scan → Scan
not_enqueued now s = record s {
  status = ScanStatus.failed;
  error = some ScanError.failed_to_enqueue;
  completed_at = some now;
}

-- `ScanQueueService.enqueue`
unfoldable pub enqueue : Bool → ℕ → Action (Unit {0})
enqueue accepts scan_id = do
  throw_if (not accepts) (plain_error enqueue_failed)
  modify (λ db. record db { jobs = db.jobs ++ scan_id ∷ [] })

-- `ScanQueueService.removeJob(scanId).catch(() => undefined)`: the job goes where Redis has it
-- and lets it go.
abbrev pub remove_job : Bool → ℕ → Db → Db
remove_job removes scan_id db =
    if removes then record db { jobs = delete_where (λ j. j == scan_id) db.jobs } else db

-- The `catch` around `enqueue`.
abbrev pub or_mark_failed : ℕ → Scan → Action (Unit {0}) → Action Scan
or_mark_failed now scan m db = elim (m db) [
  | ok x db' ↦ ok scan db'
  | err e db' ↦ err e (set_scan scan.id (not_enqueued now) db')
]

-- The common end of `enqueueScan` and `create`.
unfoldable pub store_and_enqueue : ℕ → Bool → Scan → Action Scan
store_and_enqueue now accepts scan = do
  modify (insert_scan scan)
  or_mark_failed now scan (enqueue accepts scan.id)

unfoldable pub enqueue_scan :
    (Text → Option Text) → ℕ → Bool → ℕ → Website → CreateScanDto → ScanTrigger → Action Scan
enqueue_scan safe now accepts new_id website dto trigger = do
  url ← or_throw (safe website.url) (bad_request unsafe_url)
  store_and_enqueue now accepts
      (queued_scan now new_id website trigger (options_of dto (or_default dto.max_pages 50)))

-- `if (dto.checkExposedPaths) await this.domainVerify.assertVerified(website.id)`
unfoldable pub assert_probe_allowed : Option Bool → ℕ → Action (Unit {0})
assert_probe_allowed none website_id = pure tt
assert_probe_allowed (some false) website_id = pure tt
assert_probe_allowed (some true) website_id = assert_verified website_id

unfoldable pub create : ℕ → Bool → ℕ → ℕ → CreateScanDto → Action Scan
create now accepts new_id user_id dto = do
  loaded ← require_website_access user_id dto.website_id
  throw_if (not loaded.0.is_active) (bad_request website_inactive)
  pages ← assert_can_create_scan now loaded.1 dto.max_pages
  assert_probe_allowed dto.check_exposed_paths loaded.0.id
  store_and_enqueue now accepts
      (queued_scan now new_id loaded.0 ScanTrigger.manual (options_of dto pages))

-- `principal`: the API key's organization, if that is what authenticated the request, and the
-- user otherwise (`principal.userId || principal.id`).
pub data Principal : Type 0 where
  key_of : (organization_id : ℕ) (created_by : Option ℕ) → Principal
  user : (user_id : ℕ) → Principal

unfoldable pub create_for_principal :
    (Text → Option Text) → ℕ → Bool → ℕ → Principal → CreateScanDto → Action Scan
create_for_principal safe now accepts new_id (key_of organization_id created_by) dto = do
  website ← require_website_in_organization organization_id dto.website_id
  throw_if (not website.is_active) (bad_request website_inactive)
  enqueue_scan safe now accepts new_id website dto ScanTrigger.api
create_for_principal safe now accepts new_id (user user_id) dto =
    create now accepts new_id user_id dto

-- A scan with its report, if there is one.
unfoldable pub report_of : Db → ℕ → Option Report
unfolding find
report_of db scan_id = find (λ r. r.scan_id == scan_id) db.reports

unfoldable pub summaries : Db → List Scan → List (Scan × Option Report)
summaries db [] = []
summaries db (s ∷ ss) = (s, report_of db s.id) ∷ summaries db ss

-- Newest first: rows stand in the order of their creation.
unfoldable pub newest : ℕ → (Scan → Bool) → Db → List Scan
newest n p db = take n (reverse (select_where p db.scans))

unfoldable pub list_by_website : ℕ → ℕ → Action (List (Scan × Option Report))
list_by_website user_id website_id = do
  require_website_access user_id website_id
  gets (λ db. summaries db (newest 50 (λ s. s.website_id == website_id) db))

unfoldable pub list_by_website_for_principal : Principal → ℕ → Action (List (Scan × Option Report))
list_by_website_for_principal (key_of organization_id created_by) website_id = do
  require_website_in_organization organization_id website_id
  gets (λ db. summaries db (newest 100 (λ s. s.website_id == website_id) db))
list_by_website_for_principal (user user_id) website_id = list_by_website user_id website_id

unfoldable pub list_by_project : ℕ → ℕ → Action (List (Scan × Option Report))
list_by_project user_id project_id = do
  project ←
      or_throw (← gets (λ db. find_project project_id db.projects)) (not_found project_not_found)
  require_membership user_id project.organization_id []
  gets (λ db. summaries db (newest 50 (λ s. s.project_id == project_id) db))

-- The scan and the organization of its project.
unfoldable pub load_scan : ℕ → Action (Scan × ℕ)
load_scan scan_id = do
  scan ← or_throw (← gets (λ db. find_scan scan_id db.scans)) (not_found scan_not_found)
  project ←
      or_throw (← gets (λ db. find_project scan.project_id db.projects)) (not_found scan_not_found)
  pure (scan, project.organization_id)

unfoldable pub get_one : ℕ → ℕ → Action (Scan × Option Report)
get_one user_id scan_id = do
  loaded ← load_scan scan_id
  require_membership user_id loaded.1 []
  gets (λ db. (loaded.0, report_of db scan_id))

-- `getOne(...).catch(() => fallback)`: the fallback answers with the row that was already read.
abbrev pub or_fallback : Scan → Outcome (Scan × Option Report) → Outcome (Scan × Option Report)
or_fallback scan (ok r db) = ok r db
or_fallback scan (err e db) = ok (scan, report_of db scan.id) db

-- `principal.userId || 'api'`: no user is called 'api', so a key without a creator falls back.
abbrev pub get_one_as : Option ℕ → ℕ → Action (Scan × Option Report)
get_one_as none scan_id = throw (forbidden not_a_member)
get_one_as (some user_id) scan_id = get_one user_id scan_id

unfoldable pub get_by_id_for_principal : Principal → ℕ → Action (Scan × Option Report)
get_by_id_for_principal (key_of organization_id created_by) scan_id = do
  scan ← or_throw (← gets (λ db. find_scan scan_id db.scans)) (not_found scan_not_found)
  loaded ← load_website scan.website_id
  throw_if (not (loaded.1 == organization_id)) (not_found scan_not_found)
  λ db. or_fallback scan (get_one_as created_by scan_id db)
get_by_id_for_principal (user user_id) scan_id = get_one user_id scan_id

abbrev pub can_cancel : ScanStatus → Bool
can_cancel status = status_eq status ScanStatus.queued || status_eq status ScanStatus.running

abbrev pub cancelled_at : ℕ → Scan → Scan
cancelled_at now s = record s {
  status = ScanStatus.cancelled;
  completed_at = some now;
  error = some ScanError.cancelled_by_user;
}

unfoldable pub cancel : ℕ → Bool → ℕ → ℕ → Action Scan
cancel now removes user_id scan_id = do
  loaded ← load_scan scan_id
  require_membership user_id loaded.1 []
  throw_if (not (can_cancel loaded.0.status)) (bad_request cannot_cancel)
  modify (remove_job removes scan_id)
  modify (set_scan scan_id (cancelled_at now))
  pure (cancelled_at now loaded.0)
