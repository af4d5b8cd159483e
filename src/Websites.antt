-- ===== src/Websites.antt =====
-- WebsitesService: qa-lab-backend/src/websites/websites.service.ts.
-- `safe url` stands for `assertSafeExternalUrl(url)`: the accepted URL, or `none` where it throws.
pub mod Access
pub mod Editing
pub mod Quota
use qa_lab.Base.{
  ℕ, Bool, true, false, ◌&&◌, not, List, [], ◌∷◌, ◌++◌, Option, none, some, Text, ◌==◌, is_some,
}
use qa_lab.Base.Texts.{text_eq}
use qa_lab.Base.Rows.{find, select_where, count_where}
use qa_lab.Schema.{Db, Website, Scan}
use qa_lab.Program.{
  Action, ok, err, pure, throw, gets, or_throw, throw_if, modify, ◌>>=◌, ◌>>◌, TextOps, conflict,
  bad_request, forbidden, not_found, duplicate_url, unsafe_url, outside_key_organization,
  website_not_found,
}
use qa_lab.Organizations.{require_membership}
use qa_lab.Projects.{editors, require_project_access}
use qa_lab.Quotas.{assert_can_add_website}
use qa_lab.DomainVerify.{find_website, load_website, set_website}

pub record CreateWebsiteDto : Type 0 where
  pub project_id : ℕ
  pub name : Text
  pub url : Text

-- Another row of the project has this URL: the unique index on (projectId, url), error P2002.
unfoldable pub url_taken : ℕ → ℕ → Text → List Website → Bool
unfolding find
url_taken id project_id url rows =
    is_some (find (λ w. w.project_id == project_id && (text_eq w.url url && not (w.id == id))) rows)

abbrev pub insert_website : Website → Db → Db
insert_website w db = record db { websites = db.websites ++ w ∷ [] }

unfoldable pub create : TextOps → (Text → Option Text) → ℕ → ℕ → CreateWebsiteDto → Action Website
create js safe new_id user_id dto = do
  project ← require_project_access user_id dto.project_id
  require_membership user_id project.organization_id editors
  assert_can_add_website project.organization_id
  url ← or_throw (safe (js.trim dto.url)) (bad_request unsafe_url)
  duplicate ← gets (λ db. url_taken new_id dto.project_id url db.websites)
  throw_if duplicate (conflict duplicate_url)
  let website : Website = record {
    id = new_id;
    project_id = dto.project_id;
    name = js.trim dto.name;
    url = url;
    is_active = true;
    domain_verify_token = none;
    domain_verified_at = none;
  }
  modify (insert_website website)
  pure website

unfoldable pub list_by_project : ℕ → ℕ → Action (List Website)
list_by_project user_id project_id = do
  require_project_access user_id project_id
  gets (λ db. select_where (λ w. w.project_id == project_id) db.websites)

-- The website and its number of scans.
unfoldable pub get_one : ℕ → ℕ → Action (Website × ℕ)
get_one user_id website_id = do
  loaded ← load_website website_id
  require_membership user_id loaded.1 []
  gets (λ db. (loaded.0, count_where (λ s. s.website_id == website_id) db.scans))

pub record UpdateWebsiteDto : Type 0 where
  pub name : Option Text
  pub url : Option Text
  pub is_active : Option Bool

-- The checked URL, if one is given: the outer `none` is the exception.
abbrev pub checked_url : TextOps → (Text → Option Text) → Option Text → Option (Option Text)
checked_url js safe none = some none
checked_url js safe (some url) = elim (safe (js.trim url)) [ none ↦ none | some u ↦ some (some u) ]

abbrev pub put_name : TextOps → Option Text → Website → Website
put_name js none w = w
put_name js (some s) w = record w { name = js.trim s }

abbrev pub put_url : Option Text → Website → Website
put_url none w = w
put_url (some u) w = record w { url = u }

abbrev pub put_active : Option Bool → Website → Website
put_active none w = w
put_active (some b) w = record w { is_active = b }

abbrev pub edited : TextOps → UpdateWebsiteDto → Option Text → Website → Website
edited js dto url w = put_active dto.is_active (put_url url (put_name js dto.name w))

abbrev pub url_collides : Website → Option Text → List Website → Bool
url_collides w none rows = false
url_collides w (some u) rows = url_taken w.id w.project_id u rows

unfoldable pub update : TextOps → (Text → Option Text) → ℕ → ℕ → UpdateWebsiteDto → Action Website
update js safe user_id website_id dto = do
  loaded ← load_website website_id
  require_membership user_id loaded.1 editors
  url ← or_throw (checked_url js safe dto.url) (bad_request unsafe_url)
  duplicate ← gets (λ db. url_collides loaded.0 url db.websites)
  throw_if duplicate (conflict duplicate_url)
  modify (set_website website_id (edited js dto url))
  pure (edited js dto url loaded.0)

unfoldable pub require_website_in_organization : ℕ → ℕ → Action Website
require_website_in_organization organization_id website_id = do
  loaded ← load_website website_id
  throw_if (not (loaded.1 == organization_id)) (forbidden outside_key_organization)
  pure loaded.0

-- The website with the organization that its project belongs to.
unfoldable pub require_website_access : ℕ → ℕ → Action (Website × ℕ)
require_website_access user_id website_id = do
  loaded ← load_website website_id
  require_membership user_id loaded.1 []
  pure loaded
