-- ===== src/Schedules/Quota.antt =====
-- The day's scans of an organization against its plan, over a tick of the schedules.
use qa_lab.Base.{
  ℕ, zero, suc, ◌+◌, ◌≤◌, ◌≡◌, sym, subst, inl, inr, Bool, true, false, ◌&&◌, Option, none, some,
  arith, ◌==◌, if◌then◌else◌, leb, Bool-cases, Option-cases,
}
use qa_lab.Base.Rows.{count_where-append, find_passes}
use qa_lab.Schema.{Db, Website, Scan, ScanSchedule, Organization}
use qa_lab.Projects.{find_project}
use qa_lab.DomainVerify.{find_website, organization_of}
use qa_lab.Quotas.{scans_since, start_of_day, website_in, project_in}
use qa_lab.Quotas.Laws.{IsOrg}
use qa_lab.Scans.{insert_scan}
use qa_lab.Schedules.Claims.{IsClaim, claim_one_lem}
use qa_lab.Schedules.{claim_one, run_claimed, site_of, scheduled_scan, process_from, process_due}
use qa_lab.Schedules.Ticks.{Ran, IsRun, run_claimed-IsRun}

-- No organization has had more scans today than its plan allows.
abbrev pub WithinDay : ℕ → Db → Type 0
WithinDay now db =
    (organization_id : ℕ) (org : Organization)
    → IsOrg db organization_id org
    → scans_since organization_id (start_of_day now) db ≤ org.max_scans_per_day

scans_since-insert :
    (o start : ℕ) (s : Scan) (db : Db)
    → scans_since o start (insert_scan s db)
      ≡ scans_since o start db
        + (if website_in o db s.website_id && leb start s.created_at then 1 else 0)
unfolding scans_since
scans_since-insert o start s db =
    count_where-append (λ x. website_in o db x.website_id && leb start x.created_at) db.scans s

site_of-parts :
    (website_id : ℕ) (db : Db) {w : Website} {o : ℕ}
    → site_of website_id db ≡ some (w, o)
    → (find_website website_id db.websites ≡ some w) × (organization_of db w ≡ some o)
site_of-parts website_id db {w} {o} h = elim (Option-cases (find_website website_id db.websites)) [
  | inl e ↦ absurd (ground (arith, h, e))
  | inr (x, e) ↦ elim (Option-cases (organization_of db x)) [
    | inl k ↦ absurd (ground (arith, h, e, k))
    | inr (p, k) ↦ (ground (arith, h, e, k), ground (arith, h, e, k))
  ]
]

-- A website has one organization.
website_in-owner :
    (o organization_id website_id : ℕ) (db : Db) (w : Website)
    → site_of website_id db ≡ some (w, organization_id)
    → website_in o db w.id ≡ true
    → organization_id ≡ o
unfolding website_in project_in find_website organization_of find_project
website_in-owner o organization_id website_id db w found inside =
    let (site, owner) = site_of-parts website_id db found in
    let same : w.id ≡ website_id =
      ground (arith, find_passes (λ x. x.id == website_id) db.websites site) in
    ground (arith, site, owner, inside, same)

scan_admitted :
    (now : ℕ) (accepts : Bool) (new_id : ℕ) (s : ScanSchedule) (db : Db) (r : Bool × Db)
    → WithinDay now db
    → (ran : Ran now accepts new_id s db r)
    → WithinDay now (insert_scan (scheduled_scan now new_id ran.website s) db)
scan_admitted now accepts new_id s db r h ran o org found =
    let scan = scheduled_scan now new_id ran.website s in
    elim (Bool-cases (website_in o db ran.website.id)) [
      | inl inside ↦
          let same =
            website_in-owner o ran.organization_id s.website_id db ran.website ran.found inside in
          ground (
            arith,
            scans_since-insert o (start_of_day now) scan db,
            same,
            ran.quota.room,
            ran.quota.found,
            found,
          )
      | inr outside ↦
          ground (arith, scans_since-insert o (start_of_day now) scan db, outside, h o org found)
    ]

run_claimed-WithinDay :
    (now : ℕ) (accepts : Bool) (new_id : ℕ) (s : ScanSchedule) (db : Db)
    → WithinDay now db
    → WithinDay now (run_claimed now accepts new_id s db).1
unfolding scans_since
run_claimed-WithinDay now accepts new_id s db h =
    go accepts _ (run_claimed-IsRun now accepts new_id s db)
  where
    go : (accepts : Bool) (r : Bool × Db) → IsRun now accepts new_id s db r → WithinDay now r.1
    go accepts r (inl e) = subst (λ x. WithinDay now x.1) (sym e) h
    go true r (inr ran) =
        subst (λ x. WithinDay now x.1) (sym ran.stored) (scan_admitted now true new_id s db r h ran)
    go false r (inr ran) =
        subst (λ x. WithinDay now x.1) (sym ran.stored)
          (scan_admitted now false new_id s db r h ran)

claim_one-WithinDay : (now : ℕ) (db : Db) → WithinDay now db → WithinDay now (claim_one now db).1
unfolding scans_since
claim_one-WithinDay now db h = go (claim_one now db) (claim_one_lem now db)
  where
    go : (c : Option ScanSchedule × Db) → IsClaim now db c → WithinDay now c.1
    go (none, d) (same, _) = subst (WithinDay now) (sym same) h
    go (some s, d) (_, _, written) = subst (WithinDay now) (sym written) h

process_from-WithinDay :
    (now : ℕ) (accepts : ℕ → Bool) (ids : ℕ → ℕ) (left : ℕ) (db : Db)
    → WithinDay now db
    → WithinDay now (process_from now accepts ids left db).1
unfolding process_from
process_from-WithinDay now accepts ids zero db h = h
process_from-WithinDay now accepts ids (suc left) db h = elim (Option-cases (claim_one now db).0) [
  | inl e ↦ rw (e, process_from) (claim_one-WithinDay now db h)
  | inr (s, e) ↦
      rw (e, process_from)
        (process_from-WithinDay now accepts ids left _ (
          run_claimed-WithinDay now (accepts left) (ids left) s (claim_one now db).1
            (claim_one-WithinDay now db h)))
]

-- If no organization has had more scans today than its plan allows before a tick of the schedules,
-- then none has after it.
pub process_due-WithinDay :
    (now : ℕ) (accepts : ℕ → Bool) (ids : ℕ → ℕ) (db : Db)
    → WithinDay now db
    → WithinDay now (process_due now accepts ids db).1
unfolding process_due
process_due-WithinDay now accepts ids db h = process_from-WithinDay now accepts ids 20 db h
