-- ===== src/Scans/Reading.antt =====
-- What a list of scans holds, and for whom.
use qa_lab.Base.{
  ℕ, ◌≤◌, ◌≡◌, refl, Bool, true, List, [], ◌∷◌, Option, some, arith, ◌==◌, All, length, All-take,
  All-reverse, length-take,
}
use qa_lab.Base.Rows.{select_where, select_where-Passes}
use mathlib.Core.List.{reverse}
use qa_lab.Schema.{Db, Scan, Report, Website, OrganizationMember}
use qa_lab.Program.Rules.{done, Reads, read_rule, gets_rule, or_throw_rule}
use qa_lab.Organizations.Access.{HasAccess, require_membership_rule}
use qa_lab.Projects.{find_project}
use qa_lab.Websites.Access.{Reaches, require_website_access-Reads}
use qa_lab.Scans.{find_scan, load_scan, get_one, report_of, summaries, newest, list_by_website}

pub record IsLoaded (db : Db) (scan_id : ℕ) (loaded : Scan × ℕ) : Type 0 where
  pub found : find_scan scan_id db.scans ≡ some loaded.0
  pub organization :
      (p : qa_lab.Schema.Project) × (find_project loaded.0.project_id db.projects ≡ some p)
      × (p.organization_id ≡ loaded.1)

pub load_scan-Reads :
    (scan_id : ℕ) (db : Db) → Reads db (IsLoaded db scan_id) (load_scan scan_id db)
unfolding load_scan
load_scan-Reads scan_id db = gets_rule _ _ db (
    or_throw_rule _ _ _ db (λ _. refl)
      λ s found. gets_rule _ _ db (
        or_throw_rule _ _ _ db (λ _. refl)
          λ p project.
            done (s, p.organization_id) db
              (record { found = found; organization = (p, project, refl) }, refl)))

-- The scan is in the user's organization.
pub record MayRead (db : Db) (user_id scan_id : ℕ) (s : Scan) : Type 0 where
  pub organization_id : ℕ
  pub scan : IsLoaded db scan_id (s, organization_id)
  pub membership : OrganizationMember
  pub access : HasAccess db user_id organization_id [] membership

-- A scan and its report are shown only to members of the organization whose project it is in, and
-- reading writes nothing.
get_one-Reads :
    (user_id scan_id : ℕ) (db : Db)
    → Reads db
        (λ r. MayRead db user_id scan_id r.0 × (r.1 ≡ report_of db scan_id))
        (get_one user_id scan_id db)
unfolding get_one
get_one-Reads user_id scan_id db =
    read_rule _ _ db (load_scan-Reads scan_id db) (λ e. refl)
      λ loaded scan.
        require_membership_rule user_id loaded.1 [] db _ (λ e. refl)
          λ m access. done _ db (
            (
              record { organization_id = loaded.1; scan = scan; membership = m; access = access },
              refl,
            ),
            refl,
          )

summaries-length : (db : Db) (ss : List Scan) → length (summaries db ss) ≡ length ss
unfolding summaries
summaries-length db [] = refl
summaries-length db (s ∷ ss) = omega (arith, summaries-length db ss)

summaries-All :
    (P : Scan → Type 0) (db : Db) (ss : List Scan)
    → All P ss
    → All (λ r. P r.0 × (r.1 ≡ report_of db r.0.id)) (summaries db ss)
unfolding summaries
summaries-All P db [] h = tt
summaries-All P db (s ∷ ss) h = ((h.0, refl), summaries-All P db ss h.1)

-- A list of a website's scans: its own, each with its report, at most fifty.
pub record IsListing (db : Db) (website_id : ℕ) (rows : List (Scan × Option Report)) : Type 0 where
  pub own : All (λ r. ((r.0.website_id == website_id) ≡ true) × (r.1 ≡ report_of db r.0.id)) rows
  pub short : length rows ≤ 50

-- Only a member of the website's organization gets its list of scans, which holds at most fifty,
-- all of that website, each with its own report; reading writes nothing.
list_by_website-Reads :
    (user_id website_id : ℕ) (db : Db)
    → Reads db
        (λ rows.
          ((loaded : Website × ℕ) × Reaches db user_id website_id loaded)
          × IsListing db website_id rows)
        (list_by_website user_id website_id db)
unfolding list_by_website newest
list_by_website-Reads user_id website_id db =
    read_rule _ _ db (require_website_access-Reads user_id website_id db) (λ e. refl)
      λ loaded reach.
        let p : Scan → Bool = λ s. s.website_id == website_id in
        let ss = newest 50 p db in
        done _ db (
          ((
            (loaded, reach),
            record {
              own =
                  summaries-All (λ s. p s ≡ true) db ss
                    (All-take _ 50 _ (All-reverse _ _ (select_where-Passes p db.scans)));
              short = omega (
                arith,
                summaries-length db ss,
                length-take 50 (reverse (select_where p db.scans)),
              );
            },
          )),
          refl,
        )
