-- ===== src/Quotas.antt =====
-- QuotasService: qa-lab-backend/src/quotas/quotas.service.ts.
pub mod Laws
use qa_lab.Base.{
  ℕ, ◌-◌, ◌%◌, Bool, true, false, ◌&&◌, List, Option, none, some, ◌==◌, ltb, leb, min, or_default,
}
use qa_lab.Base.Rows.{find, count_where}
use qa_lab.Schema.{Db, Organization, Project, Website, Scan}
use qa_lab.Program.{
  Action, ok, err, pure, throw, gets, or_throw, throw_if, ◌>>=◌, ◌>>◌, forbidden, payment_required,
  too_many_requests, organization_not_found, website_limit, daily_scan_limit, min_schedule_interval,
}

unfoldable pub get_org : ℕ → Action Organization
unfolding find
get_org organization_id = do
  org ←
      or_throw (← gets (λ db. find (λ o. o.id == organization_id) db.organizations))
        (forbidden organization_not_found)
  pure org

-- The organization that a project belongs to, for the relation filters.
unfoldable pub project_in : ℕ → List Project → ℕ → Bool
unfolding find
project_in organization_id projects project_id = elim (find (λ p. p.id == project_id) projects) [
  | none ↦ false
  | some p ↦ p.organization_id == organization_id
]

unfoldable pub website_in : ℕ → Db → ℕ → Bool
unfolding find project_in
website_in organization_id db website_id = elim (find (λ w. w.id == website_id) db.websites) [
  | none ↦ false
  | some w ↦ project_in organization_id db.projects w.project_id
]

-- `website.count({ where: { project: { organizationId } } })`
unfoldable pub website_count : ℕ → Db → ℕ
unfolding count_where project_in
website_count organization_id db =
    count_where (λ w. project_in organization_id db.projects w.project_id) db.websites

-- `scan.count({ where: { website: { project: { organizationId } }, createdAt: { gte } } })`
unfoldable pub scans_since : ℕ → ℕ → Db → ℕ
unfolding count_where website_in
scans_since organization_id start db =
    count_where (λ s. website_in organization_id db s.website_id && leb start s.created_at) db.scans

unfoldable pub assert_can_add_website : ℕ → Action (Unit {0})
assert_can_add_website organization_id = do
  org ← get_org organization_id
  count ← gets (website_count organization_id)
  throw_if (leb org.max_websites count) (payment_required website_limit)

-- The start of the UTC day of `now`, in milliseconds.
abbrev pub start_of_day : ℕ → ℕ
start_of_day now = now - now % 86400000

unfoldable pub assert_can_create_scan : ℕ → ℕ → Option ℕ → Action ℕ
assert_can_create_scan now organization_id requested = do
  org ← get_org organization_id
  today ← gets (scans_since organization_id (start_of_day now))
  throw_if (leb org.max_scans_per_day today) (too_many_requests daily_scan_limit)
  pure (min (or_default requested org.max_pages_per_scan) org.max_pages_per_scan)

unfoldable pub assert_schedule_interval : ℕ → ℕ → Action (Unit {0})
assert_schedule_interval organization_id interval_hours = do
  org ← get_org organization_id
  throw_if (ltb interval_hours org.min_schedule_interval_hours)
      (payment_required min_schedule_interval)
