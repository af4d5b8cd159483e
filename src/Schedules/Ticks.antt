-- ===== src/Schedules/Ticks.antt =====
-- What a tick of the schedules enqueues (`processDueSchedules`).
use qa_lab.Base.{
  ℕ, zero, suc, ◌+◌, ◌≤◌, ◌≡◌, refl, ap, ◌∙◌, ◌⊎◌, inl, inr, Bool, true, false, not, ◌||◌, Option,
  none, some, arith, if◌then◌else◌, length, length-append, Bool-cases, Option-cases, is_some,
}
use qa_lab.Schema.{Db, Website, ScanSchedule}
use qa_lab.Program.{Outcome}
use qa_lab.Program.Rules.{Reads, done, failed}
use qa_lab.Quotas.Laws.{AdmitsScan, assert_can_create_scan-Reads}
use qa_lab.Schedules.{
  claim_one, run_claimed, run_site, site_of, after_quota, store_scheduled, scheduled_scan,
  process_from, process_due, earliest,
}

-- A turn of the loop enqueues nothing and writes nothing, or stores a scan of a website that is
-- active and verified, under a plan that admits it.
pub record Ran (now : ℕ) (accepts : Bool) (new_id : ℕ) (s : ScanSchedule) (db : Db) (r : Bool × Db)
    : Type 0 where
  pub website : Website
  pub organization_id : ℕ
  pub found : site_of s.website_id db ≡ some (website, organization_id)
  pub active : website.is_active ≡ true
  pub proved : is_some website.domain_verified_at ≡ true
  pub pages : ℕ
  pub quota : AdmitsScan now organization_id s.options.max_pages db pages
  pub stored : r ≡ store_scheduled accepts (scheduled_scan now new_id website s) db

abbrev pub IsRun : ℕ → Bool → ℕ → ScanSchedule → Db → Bool × Db → Type 0
IsRun now accepts new_id s db r = (r ≡ (false, db)) ⊎ Ran now accepts new_id s db r

run_site-IsRun :
    (now : ℕ) (accepts : Bool) (new_id : ℕ) (s : ScanSchedule) (db : Db) (o : Option (Website × ℕ))
    → site_of s.website_id db ≡ o
    → IsRun now accepts new_id s db (run_site now accepts new_id s o db)
unfolding run_site
run_site-IsRun now accepts new_id s db none e = inl refl
run_site-IsRun now accepts new_id s db (some (w, o)) e =
    elim (Bool-cases (not w.is_active || not (is_some w.domain_verified_at))) [
      | inl closed ↦ rw closed (inl refl)
      | inr fit ↦ rw fit (go fit _ (assert_can_create_scan-Reads now o s.options.max_pages db))
    ]
  where
    go :
        (not w.is_active || not (is_some w.domain_verified_at)) ≡ false
        → (r : Outcome ℕ) → Reads db (AdmitsScan now o s.options.max_pages db) r
        → IsRun now accepts new_id s db (after_quota now accepts new_id s w r)
    go fit r (failed x d same) = inl (ap (λ k. (false, k)) same)
    go fit r (done pages d (admits, same)) = inr (record {
      website = w;
      organization_id = o;
      found = e;
      active = ground (arith, fit);
      proved = ground (arith, fit);
      pages = pages;
      quota = admits;
      stored = ap (λ k. store_scheduled accepts (scheduled_scan now new_id w s) k) same;
    })

pub run_claimed-IsRun :
    (now : ℕ) (accepts : Bool) (new_id : ℕ) (s : ScanSchedule) (db : Db)
    → IsRun now accepts new_id s db (run_claimed now accepts new_id s db)
unfolding run_claimed
run_claimed-IsRun now accepts new_id s db =
    run_site-IsRun now accepts new_id s db (site_of s.website_id db) refl

-- The number of jobs that wait, and how far it has grown.
abbrev pub Grown : Db → ℕ × Db → Type 0
Grown db (n, d) = length d.jobs ≡ length db.jobs + n

Ran-jobs :
    (now : ℕ) (accepts : Bool) (new_id : ℕ) (s : ScanSchedule) (db : Db) (r : Bool × Db)
    → IsRun now accepts new_id s db r
    → length r.1.jobs ≡ length db.jobs + (if r.0 then 1 else 0)
Ran-jobs now accepts new_id s db r (inl e) = rw e (omega arith)
Ran-jobs now true new_id s db r (inr ran) = rw ran.stored (length-append db.jobs _)
Ran-jobs now false new_id s db r (inr ran) = rw ran.stored (omega arith)

turn :
    (b : Bool) (n left before mid last : ℕ)
    → n ≤ left
    → mid ≡ before + (if b then 1 else 0)
    → last ≡ mid + n
    → ((if b then n + 1 else n) ≤ suc left) × (last ≡ before + (if b then n + 1 else n))
turn true n left before mid last le e k = (omega (arith, le), omega (arith, e, k))
turn false n left before mid last le e k = (omega (arith, le), omega (arith, e, k))

claim_one-jobs : (now : ℕ) (db : Db) → length (claim_one now db).1.jobs ≡ length db.jobs
unfolding claim_one
claim_one-jobs now db = elim (Option-cases (earliest now db.schedules)) [
  | inl e ↦ ground (arith, e)
  | inr (s, e) ↦ ground (arith, e)
]

process_from_lem :
    (now : ℕ) (accepts : ℕ → Bool) (ids : ℕ → ℕ) (left : ℕ) (db : Db)
    → ((process_from now accepts ids left db).0 ≤ left)
      × Grown db (process_from now accepts ids left db)
unfolding process_from
process_from_lem now accepts ids zero db = (omega arith, omega arith)
process_from_lem now accepts ids (suc left) db = elim (Option-cases (claim_one now db).0) [
  | inl e ↦ rw (e, process_from) (omega arith, omega (arith, claim_one-jobs now db))
  | inr (s, e) ↦
      rw (e, process_from)
        (let claimed = (claim_one now db).1 in
          let ran = run_claimed now (accepts left) (ids left) s claimed in
          let rest = process_from now accepts ids left ran.1 in
          let (le, grown) = process_from_lem now accepts ids left ran.1 in
          turn ran.0 rest.0 left (length db.jobs) (length ran.1.jobs) (length rest.1.jobs) le
            (Ran-jobs now (accepts left) (ids left) s claimed ran
                (run_claimed-IsRun now (accepts left) (ids left) s claimed)
              ∙ ap (λ k. k + (if ran.0 then 1 else 0)) (claim_one-jobs now db))
            grown)
]

-- A tick enqueues at most twenty scans, and the queue is longer afterwards by just the number that
-- it reports.
process_due_lem :
    (now : ℕ) (accepts : ℕ → Bool) (ids : ℕ → ℕ) (db : Db)
    → ((process_due now accepts ids db).0 ≤ 20) × Grown db (process_due now accepts ids db)
unfolding process_due
process_due_lem now accepts ids db = process_from_lem now accepts ids 20 db
