-- ===== src/Organizations.antt =====
-- OrganizationsService: qa-lab-backend/src/organizations/organizations.service.ts.
pub mod Access
pub mod Invite
use qa_lab.Base.{
  ℕ, Bool, true, false, ◌&&◌, not, List, [], ◌∷◌, ◌++◌, Option, none, some, Text, codes, ◌==◌,
  if◌then◌else◌, is_some, or_default,
}
use qa_lab.Base.Texts.{text_eq}
use qa_lab.Base.Rows.{find, update_where, select_where, count_where}
use qa_lab.Schema.{
  Db, Organization, OrganizationMember, OrganizationRole, owner, admin, User, Project,
}
use qa_lab.Program.{
  Action, ok, err, pure, throw, gets, or_throw, throw_if, modify, ◌>>=◌, ◌>>◌, TextOps, forbidden,
  conflict, not_found, not_a_member, requires_role, cannot_assign_owner, no_such_user,
  already_member, slug_exhausted, organization_not_found,
}
use qa_lab.Slug.{or_else, unique_slug}
use qa_lab.Slug

abbrev pub role_eq : OrganizationRole → OrganizationRole → Bool
role_eq OrganizationRole.owner OrganizationRole.owner = true
role_eq OrganizationRole.admin OrganizationRole.admin = true
role_eq OrganizationRole.member OrganizationRole.member = true
role_eq OrganizationRole.viewer OrganizationRole.viewer = true
role_eq _ _ = false

abbrev pub includes : OrganizationRole → List OrganizationRole → Bool
includes r [] = false
includes r (x ∷ xs) = if role_eq r x then true else includes r xs

-- `findUnique({ where: { organizationId_userId } })`
unfoldable pub find_member : ℕ → ℕ → List OrganizationMember → Option OrganizationMember
unfolding find
find_member organization_id user_id =
    find (λ m. m.organization_id == organization_id && m.user_id == user_id)

-- `roles && roles.length > 0 && !roles.includes(role)`
abbrev pub role_refused : List OrganizationRole → OrganizationRole → Bool
role_refused [] r = false
role_refused (x ∷ xs) r = not (includes r (x ∷ xs))

-- An absent `roles` argument is the empty list, which the code treats alike.
unfoldable pub require_membership : ℕ → ℕ → List OrganizationRole → Action OrganizationMember
require_membership user_id organization_id roles = do
  membership ←
      or_throw (← gets (λ db. find_member organization_id user_id db.members))
        (forbidden not_a_member)
  throw_if (role_refused roles membership.role) (forbidden requires_role)
  pure membership

unfoldable pub slugify : (Text → Text) → Text → Text
unfolding Slug.slugify
slugify norm = Slug.slugify norm (codes "organization")

unfoldable pub slug_taken : List Organization → Text → Bool
unfolding find
slug_taken rows slug = is_some (find (λ o. text_eq o.slug slug) rows)

pub record CreateOrganizationDto : Type 0 where
  pub name : Text
  pub slug : Option Text

pub record OrganizationSummary : Type 0 where
  pub id : ℕ
  pub name : Text
  pub slug : Text
  pub role : OrganizationRole

-- A new row, with the quota columns at the schema's defaults.
abbrev pub new_organization : ℕ → Text → Text → Organization
new_organization id name slug = record {
  id = id;
  name = name;
  slug = slug;
  max_websites = 5;
  max_pages_per_scan = 50;
  max_scans_per_day = 20;
  min_schedule_interval_hours = 24;
}

-- The row and the creator's membership are one nested write.
abbrev pub insert_organization : ℕ → Organization → Db → Db
insert_organization user_id o db = record db {
  organizations = db.organizations ++ o ∷ [];
  members =
      db.members
      ++ record { organization_id = o.id; user_id = user_id; role = OrganizationRole.owner } ∷ [];
}

-- `dto.slug?.trim() || this.slugify(name)`
unfoldable pub base_slug : TextOps → Option Text → Text → Text
unfolding slugify
base_slug js none name = slugify (λ s. js.trim (js.lower_case s)) name
base_slug js (some s) name = or_else (js.trim s) (slugify (λ s. js.trim (js.lower_case s)) name)

-- `new_id` is the identifier that the database draws, `draw n` the n-th random suffix.
unfoldable pub create :
    TextOps → (ℕ → Text) → ℕ → ℕ → CreateOrganizationDto → Action OrganizationSummary
create js draw new_id user_id dto = do
  let name = js.trim dto.name
  slug ←
      or_throw
        (← gets (λ db. unique_slug (slug_taken db.organizations) draw (base_slug js dto.slug name)))
        (conflict slug_exhausted)
  modify (insert_organization user_id (new_organization new_id name slug))
  pure (record { id = new_id; name = name; slug = slug; role = OrganizationRole.owner })

pub record OrganizationListItem : Type 0 where
  pub organization : Organization
  pub role : OrganizationRole
  pub member_count : ℕ
  pub project_count : ℕ

abbrev pub list_item : Db → OrganizationMember → Option OrganizationListItem
list_item db m = elim (find (λ o. o.id == m.organization_id) db.organizations) [
  | none ↦ none
  | some o ↦ some (record {
    organization = o;
    role = m.role;
    member_count = count_where (λ k. k.organization_id == o.id) db.members;
    project_count = count_where (λ p. p.organization_id == o.id) db.projects;
  })
]

list_items : Db → List OrganizationMember → List OrganizationListItem
list_items db [] = []
list_items db (m ∷ ms) = elim (list_item db m) [
  | none ↦ list_items db ms
  | some i ↦ i ∷ list_items db ms
]

-- Rows stand in the order of their creation, so `orderBy: { createdAt: 'asc' }` keeps the order.
unfoldable pub list_for_user : ℕ → Action (List OrganizationListItem)
unfolding list_items select_where
list_for_user user_id =
    gets (λ db. list_items db (select_where (λ m. m.user_id == user_id) db.members))

pub record OrganizationDetail : Type 0 where
  pub organization : Organization
  pub role : OrganizationRole
  pub members : List OrganizationMember
  pub member_count : ℕ
  pub project_count : ℕ

unfoldable pub get_one : ℕ → ℕ → Action OrganizationDetail
get_one user_id organization_id = do
  membership ← require_membership user_id organization_id []
  organization ←
      or_throw (← gets (λ db. find (λ o. o.id == organization_id) db.organizations))
        (not_found organization_not_found)
  gets (λ db. record {
    organization = organization;
    role = membership.role;
    members = select_where (λ m. m.organization_id == organization_id) db.members;
    member_count = count_where (λ m. m.organization_id == organization_id) db.members;
    project_count = count_where (λ p. p.organization_id == organization_id) db.projects;
  })

abbrev pub rename : TextOps → Option Text → Organization → Organization
rename js none o = o
rename js (some name) o = record o { name = js.trim name }

unfoldable pub update : TextOps → ℕ → ℕ → Option Text → Action (Option Organization)
update js user_id organization_id name = do
  require_membership user_id organization_id (OrganizationRole.owner ∷ OrganizationRole.admin ∷ [])
  modify (λ db. record db {
    organizations = update_where (λ o. o.id == organization_id) (rename js name) db.organizations;
  })
  gets (λ db. find (λ o. o.id == organization_id) db.organizations)

pub record InviteResult : Type 0 where
  pub user_id : ℕ
  pub email : Text
  pub role : OrganizationRole
  pub organization_id : ℕ

abbrev pub add_member : OrganizationMember → Db → Db
add_member m db = record db { members = db.members ++ m ∷ [] }

-- `email` is matched after `toLowerCase().trim()`.
unfoldable pub invite_member : TextOps → ℕ → ℕ → Text → OrganizationRole → Action InviteResult
invite_member js actor_id organization_id email role = do
  require_membership actor_id organization_id (OrganizationRole.owner ∷ OrganizationRole.admin ∷ [])
  throw_if (role_eq role OrganizationRole.owner) (forbidden cannot_assign_owner)
  user ←
      or_throw (← gets (λ db. find (λ u. text_eq u.email (js.trim (js.lower_case email))) db.users))
        (not_found no_such_user)
  existing ← gets (λ db. find_member organization_id user.id db.members)
  throw_if (is_some existing) (conflict already_member)
  modify (add_member (record { organization_id = organization_id; user_id = user.id; role = role }))
  pure (record {
    user_id = user.id;
    email = user.email;
    role = role;
    organization_id = organization_id;
  })
