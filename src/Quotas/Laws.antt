-- ===== src/Quotas/Laws.antt =====
-- What each quota check rests on.
use qa_lab.Base.{ℕ, ◌≤◌, ◌<◌, ◌≡◌, refl, Option, some, arith, ◌==◌, or_default, min}
use qa_lab.Base.Rows.{find}
use qa_lab.Schema.{Db, Organization}
use qa_lab.Program.Rules.{
  Reads, read_rule, throw_if-Reads, Reads-mono, done, gets_rule, or_throw_rule, throw_if_rule,
}
use qa_lab.Quotas.{
  get_org, website_count, scans_since, start_of_day, assert_can_add_website, assert_can_create_scan,
  assert_schedule_interval,
}

abbrev pub IsOrg : Db → ℕ → Organization → Type 0
IsOrg db organization_id o = find (λ o. o.id == organization_id) db.organizations ≡ some o

pub get_org-Reads :
    (organization_id : ℕ) (db : Db)
    → Reads db (IsOrg db organization_id) (get_org organization_id db)
unfolding get_org
get_org-Reads organization_id db =
    gets_rule _ _ db (or_throw_rule _ _ _ db (λ _. refl) λ o found. done o db (found, refl))

-- The plan admits one more scan today, and `pages` is within the request and the plan.
pub record AdmitsScan (now organization_id : ℕ) (requested : Option ℕ) (db : Db) (pages : ℕ)
    : Type 0 where
  pub org : Organization
  pub found : IsOrg db organization_id org
  pub room : scans_since organization_id (start_of_day now) db < org.max_scans_per_day
  pub capped : pages ≤ org.max_pages_per_scan
  pub granted : pages ≡ min (or_default requested org.max_pages_per_scan) org.max_pages_per_scan

pub assert_can_create_scan-Reads :
    (now organization_id : ℕ) (requested : Option ℕ) (db : Db)
    → Reads db
        (AdmitsScan now organization_id requested db)
        (assert_can_create_scan now organization_id requested db)
unfolding assert_can_create_scan
assert_can_create_scan-Reads now organization_id requested db =
    read_rule _ _ db (get_org-Reads organization_id db) (λ e. refl)
      λ o found. gets_rule _ _ db (
        throw_if_rule _ _ _ db (λ _. refl)
          λ below. done _ db (
            record {
              org = o;
              found = found;
              room = ground (arith, below);
              capped = ground arith;
              granted = refl;
            },
            refl,
          ))

-- The plan admits one more website.
pub record AdmitsWebsite (organization_id : ℕ) (db : Db) : Type 0 where
  pub org : Organization
  pub found : IsOrg db organization_id org
  pub room : website_count organization_id db < org.max_websites

pub assert_can_add_website-Reads :
    (organization_id : ℕ) (db : Db)
    → Reads db (λ _. AdmitsWebsite organization_id db) (assert_can_add_website organization_id db)
unfolding assert_can_add_website
assert_can_add_website-Reads organization_id db =
    read_rule _ _ db (get_org-Reads organization_id db) (λ e. refl)
      λ o found. gets_rule _ _ db (
        Reads-mono db (λ _ below. record { org = o; found = found; room = ground (arith, below) })
          (throw_if-Reads _ _ db))

-- The plan allows the interval.
pub record AdmitsInterval (organization_id hours : ℕ) (db : Db) : Type 0 where
  pub org : Organization
  pub found : IsOrg db organization_id org
  pub long : org.min_schedule_interval_hours ≤ hours

pub assert_schedule_interval-Reads :
    (organization_id hours : ℕ) (db : Db)
    → Reads db
        (λ _. AdmitsInterval organization_id hours db)
        (assert_schedule_interval organization_id hours db)
unfolding assert_schedule_interval
assert_schedule_interval-Reads organization_id hours db =
    read_rule _ _ db (get_org-Reads organization_id db) (λ e. refl)
      λ o found.
        Reads-mono db (λ _ fine. record { org = o; found = found; long = ground (arith, fine) })
          (throw_if-Reads _ _ db)
