-- ===== src/Projects/Access.antt =====
-- Access to projects goes by membership of the project's organization.
use qa_lab.Base.{ℕ, ◌==◌, false, ◌≡◌, refl, [], some, Text}
use qa_lab.Base.Rows.{update_where}
use qa_lab.Schema.{Db, OrganizationMember, Project}
use qa_lab.Program.{TextOps}
use qa_lab.Program.Rules.{Reads, Ends, done, Unchanged, gets_rule, or_throw_rule, modify_rule}
use qa_lab.Organizations.Access.{HasAccess, require_membership_rule}
use qa_lab.Slug.Unique.{unique_slug-free}
use qa_lab.Projects.{
  slug_taken, editors, find_project, require_project_access, update, UpdateProjectDto, edited,
  create, CreateProjectDto, insert_project,
}

-- The project exists and the user is in its organization.
pub record Reaches (db : Db) (user_id project_id : ℕ) (p : Project) : Type 0 where
  pub found : find_project project_id db.projects ≡ some p
  pub membership : OrganizationMember
  pub access : HasAccess db user_id p.organization_id [] membership

pub require_project_access-Reads :
    (user_id project_id : ℕ) (db : Db)
    → Reads db (Reaches db user_id project_id) (require_project_access user_id project_id db)
unfolding require_project_access
require_project_access-Reads user_id project_id db = gets_rule _ _ db (
    or_throw_rule _ _ _ db (λ _. refl)
      λ p found.
        require_membership_rule user_id p.organization_id [] db _ (λ e. refl)
          λ m access. done p db (record { found = found; membership = m; access = access }, refl))

-- What an accepted update has done.
pub record Updated (js : TextOps) (user_id project_id : ℕ) (dto : UpdateProjectDto) (db db' : Db)
    (r : Project) : Type 0 where
  pub old : Project
  pub found : find_project project_id db.projects ≡ some old
  pub editor : OrganizationMember
  pub access : HasAccess db user_id old.organization_id editors editor
  pub written :
      db'
      ≡ record db { projects = update_where (λ p. p.id == project_id) (edited js dto) db.projects }
  pub answer : r ≡ edited js dto old

-- A project is changed only by an OWNER, ADMIN or MEMBER of its organization, and its row is
-- changed as asked for. A refused change writes nothing.
update_project-Ends :
    (js : TextOps) (user_id project_id : ℕ) (dto : UpdateProjectDto) (db : Db)
    → Ends
        (λ r db'. Updated js user_id project_id dto db db' r)
        (Unchanged db)
        (update js user_id project_id dto db)
unfolding update
update_project-Ends js user_id project_id dto db = gets_rule _ _ db (
    or_throw_rule _ _ _ db (λ _. refl)
      λ p found.
        require_membership_rule user_id p.organization_id editors db _ (λ e. refl)
          λ m access. modify_rule _ _ db (
            done _ _ (record {
              old = p;
              found = found;
              editor = m;
              access = access;
              written = refl;
              answer = refl;
            })))

-- What an accepted creation has done.
pub record Created (js : TextOps) (new_id user_id : ℕ) (dto : CreateProjectDto) (db db' : Db)
    (r : Project) : Type 0 where
  pub editor : OrganizationMember
  pub access : HasAccess db user_id dto.organization_id editors editor
  pub id : r.id ≡ new_id
  pub organization : r.organization_id ≡ dto.organization_id
  pub free : slug_taken dto.organization_id db.projects r.slug ≡ false
  pub written : db' ≡ insert_project r db

-- A project is created only by an OWNER, ADMIN or MEMBER of its organization, under a slug that no
-- project of that organization has. A refused creation writes nothing.
create_project-Ends :
    (js : TextOps) (draw : ℕ → Text) (new_id user_id : ℕ) (dto : CreateProjectDto) (db : Db)
    → Ends
        (λ r db'. Created js new_id user_id dto db db' r)
        (Unchanged db)
        (create js draw new_id user_id dto db)
unfolding create
create_project-Ends js draw new_id user_id dto db =
    require_membership_rule user_id dto.organization_id editors db _ (λ e. refl)
      λ m access. gets_rule _ _ db (
        or_throw_rule _ _ _ db (λ _. refl)
          λ slug drawn. modify_rule _ _ db (
            done _ _ (record {
              editor = m;
              access = access;
              id = refl;
              organization = refl;
              free = unique_slug-free _ draw _ drawn;
              written = refl;
            })))
