-- ===== src/Websites/Quota.antt =====
-- The number of websites of an organization against its plan, over creations.
use qa_lab.Base.{
  ℕ, ◌+◌, ◌≤◌, ◌≡◌, subst, sym, true, Option, some, arith, Text, if◌then◌else◌, Bool-cases, inl,
  inr,
}
use qa_lab.Base.Rows.{count_where-append}
use qa_lab.Schema.{Db, Website, Project, Organization}
use qa_lab.Program.{TextOps, after}
use qa_lab.Program.Rules.{Ends-after}
use qa_lab.Projects.{find_project}
use qa_lab.Quotas.{website_count, project_in}
use qa_lab.Quotas.Laws.{IsOrg}
use qa_lab.Websites.{create, CreateWebsiteDto, insert_website}
use qa_lab.Websites.Editing.{Created, create_website-Ends}

-- No organization has more websites than its plan allows.
abbrev pub WithinQuota : Db → Type 0
WithinQuota db =
    (organization_id : ℕ) (org : Organization)
    → IsOrg db organization_id org
    → website_count organization_id db ≤ org.max_websites

website_count-insert :
    (o : ℕ) (w : Website) (db : Db)
    → website_count o (insert_website w db)
      ≡ website_count o db + (if project_in o db.projects w.project_id then 1 else 0)
unfolding website_count
website_count-insert o w db =
    count_where-append (λ w. project_in o db.projects w.project_id) db.websites w

project_in-owner :
    (o project_id : ℕ) (db : Db) {p : Project}
    → find_project project_id db.projects ≡ some p
    → project_in o db.projects project_id ≡ true
    → p.organization_id ≡ o
unfolding project_in find_project
project_in-owner o project_id db found h = ground (arith, found, h)

Created-WithinQuota :
    (js : TextOps) (safe : Text → Option Text) (new_id user_id : ℕ) (dto : CreateWebsiteDto)
    (db : Db) (w : Website) (db' : Db)
    → WithinQuota db
    → Created js safe new_id user_id dto db db' w
    → WithinQuota (insert_website w db)
Created-WithinQuota js safe new_id user_id dto db w db' h c o org found =
    elim (Bool-cases (project_in o db.projects w.project_id)) [
      | inl inside ↦
          let same =
            project_in-owner o w.project_id db
              (subst (λ k. find_project k db.projects ≡ some c.project) (sym c.home) c.reach.found)
              inside in
          ground (arith, website_count-insert o w db, same, c.quota.room, c.quota.found, found)
      | inr outside ↦ ground (arith, website_count-insert o w db, outside, h o org found)
    ]

-- If no organization has more websites than its plan allows, then none has after any call that
-- creates a website, accepted or refused.
pub create-WithinQuota :
    (js : TextOps) (safe : Text → Option Text) (new_id user_id : ℕ) (dto : CreateWebsiteDto)
    (db : Db)
    → WithinQuota db
    → WithinQuota (after (create js safe new_id user_id dto db))
create-WithinQuota js safe new_id user_id dto db h =
    Ends-after WithinQuota (create_website-Ends js safe new_id user_id dto db)
      (λ w d c.
        subst WithinQuota (sym c.written)
          (Created-WithinQuota js safe new_id user_id dto db w d h c))
      (λ e d same. subst WithinQuota (sym same) h)
