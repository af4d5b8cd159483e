-- ===== src/Projects.antt =====
-- ProjectsService: qa-lab-backend/src/projects/projects.service.ts.
pub mod Access
use mathlib.Core.List.{reverse}
use qa_lab.Base.{
  ℕ, Bool, true, false, ◌&&◌, List, [], ◌∷◌, ◌++◌, Option, none, some, Text, codes, ◌==◌, is_some,
}
use qa_lab.Base.Texts.{text_eq}
use qa_lab.Base.Rows.{find, update_where, select_where, count_where}
use qa_lab.Schema.{
  Db, OrganizationRole, OrganizationMember, owner, admin, member, Project, Website, Scan,
}
use qa_lab.Program.{
  Action, ok, err, pure, throw, gets, or_throw, throw_if, modify, ◌>>=◌, ◌>>◌, TextOps, conflict,
  not_found, slug_exhausted, project_not_found,
}
use qa_lab.Slug.{or_else, unique_slug}
use qa_lab.Slug
use qa_lab.Organizations.{require_membership}

-- The roles that may change what belongs to an organization.
abbrev pub editors : List OrganizationRole
editors = OrganizationRole.owner ∷ OrganizationRole.admin ∷ OrganizationRole.member ∷ []

unfoldable pub slugify : (Text → Text) → Text → Text
unfolding Slug.slugify
slugify norm = Slug.slugify norm (codes "project")

-- A row with this slug in the organization: `findUnique({ where: { organizationId_slug } })`.
unfoldable pub slug_taken : ℕ → List Project → Text → Bool
unfolding find
slug_taken organization_id rows slug =
    is_some (find (λ p. p.organization_id == organization_id && text_eq p.slug slug) rows)

unfoldable pub find_project : ℕ → List Project → Option Project
unfolding find
find_project id = find (λ p. p.id == id)

pub record CreateProjectDto : Type 0 where
  pub organization_id : ℕ
  pub name : Text
  pub slug : Option Text
  pub description : Option Text

-- `text || null`
abbrev pub or_null : Text → Option Text
or_null [] = none
or_null (c ∷ s) = some (c ∷ s)

-- `dto.description?.trim() || null`
abbrev pub trimmed_or_null : TextOps → Option Text → Option Text
trimmed_or_null js none = none
trimmed_or_null js (some s) = or_null (js.trim s)

unfoldable pub base_slug : TextOps → Option Text → Text → Text
unfolding slugify
base_slug js none name = slugify (λ s. js.trim (js.lower_case s)) name
base_slug js (some s) name = or_else (js.trim s) (slugify (λ s. js.trim (js.lower_case s)) name)

abbrev pub insert_project : Project → Db → Db
insert_project p db = record db { projects = db.projects ++ p ∷ [] }

unfoldable pub create : TextOps → (ℕ → Text) → ℕ → ℕ → CreateProjectDto → Action Project
create js draw new_id user_id dto = do
  require_membership user_id dto.organization_id editors
  let name = js.trim dto.name
  slug ←
      or_throw
        (← gets (λ db.
          unique_slug (slug_taken dto.organization_id db.projects) draw
            (base_slug js dto.slug name)))
        (conflict slug_exhausted)
  let project : Project = record {
    id = new_id;
    organization_id = dto.organization_id;
    name = name;
    slug = slug;
    description = trimmed_or_null js dto.description;
  }
  modify (insert_project project)
  pure project

pub record ProjectListItem : Type 0 where
  pub project : Project
  pub website_count : ℕ
  pub scan_count : ℕ

abbrev pub with_counts : Db → Project → ProjectListItem
with_counts db p = record {
  project = p;
  website_count = count_where (λ w. w.project_id == p.id) db.websites;
  scan_count = count_where (λ s. s.project_id == p.id) db.scans;
}

unfoldable pub with_counts_all : Db → List Project → List ProjectListItem
with_counts_all db [] = []
with_counts_all db (p ∷ ps) = with_counts db p ∷ with_counts_all db ps

-- Newest first: rows stand in the order of their creation.
unfoldable pub list_by_organization : ℕ → ℕ → Action (List ProjectListItem)
unfolding with_counts_all
list_by_organization user_id organization_id = do
  require_membership user_id organization_id []
  gets (λ db.
      with_counts_all db
        (reverse (select_where (λ p. p.organization_id == organization_id) db.projects)))

pub record ProjectDetail : Type 0 where
  pub item : ProjectListItem
  pub websites : List Website

unfoldable pub get_one : ℕ → ℕ → Action ProjectDetail
get_one user_id project_id = do
  project ←
      or_throw (← gets (λ db. find_project project_id db.projects)) (not_found project_not_found)
  require_membership user_id project.organization_id []
  gets (λ db. record {
    item = with_counts db project;
    websites = select_where (λ w. w.project_id == project_id) db.websites;
  })

pub record UpdateProjectDto : Type 0 where
  pub name : Option Text
  pub description : Option Text

abbrev pub apply_name : TextOps → Option Text → Project → Project
apply_name js none p = p
apply_name js (some s) p = record p { name = js.trim s }

abbrev pub apply_description : TextOps → Option Text → Project → Project
apply_description js none p = p
apply_description js (some s) p = record p { description = or_null (js.trim s) }

abbrev pub edited : TextOps → UpdateProjectDto → Project → Project
edited js dto p = apply_description js dto.description (apply_name js dto.name p)

unfoldable pub update : TextOps → ℕ → ℕ → UpdateProjectDto → Action Project
update js user_id project_id dto = do
  project ←
      or_throw (← gets (λ db. find_project project_id db.projects)) (not_found project_not_found)
  require_membership user_id project.organization_id editors
  modify (λ db. record db {
    projects = update_where (λ p. p.id == project_id) (edited js dto) db.projects;
  })
  pure (edited js dto project)

unfoldable pub require_project_access : ℕ → ℕ → Action Project
require_project_access user_id project_id = do
  project ←
      or_throw (← gets (λ db. find_project project_id db.projects)) (not_found project_not_found)
  require_membership user_id project.organization_id []
  pure project
