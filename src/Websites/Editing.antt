-- ===== src/Websites/Editing.antt =====
-- Creating and changing websites: SSRF check, quota, unique URLs; and what an edit does to a
-- verified domain.
use qa_lab.Base.{ap, ℕ, ◌≡◌, refl, false, Option, none, some, arith, Text, is_some}
use qa_lab.Schema.{Db, Website, OrganizationMember, Project}
use qa_lab.Program.{TextOps, after}
use qa_lab.Program.Rules.{
  Ends-after, Ends, done, Unchanged, read_rule, gets_rule, or_throw_rule, throw_if_rule,
  modify_rule,
}
use qa_lab.Organizations.Access.{HasAccess, require_membership_rule}
use qa_lab.Projects.{editors}
use qa_lab.Projects.Access.{require_project_access-Reads}
use qa_lab.Projects.Access
use qa_lab.Quotas.Laws.{AdmitsWebsite, assert_can_add_website-Reads}
use qa_lab.DomainVerify.{set_website, is_verified}
use qa_lab.DomainVerify.Laws.{IsLoaded, load_website-Reads, find_website-set_website}
use qa_lab.Websites.{
  create, CreateWebsiteDto, url_taken, insert_website, update, UpdateWebsiteDto, checked_url,
  url_collides, edited,
}

-- What an accepted creation has done.
pub record Created (js : TextOps) (safe : Text → Option Text) (new_id user_id : ℕ)
    (dto : CreateWebsiteDto) (db db' : Db) (w : Website) : Type 0 where
  pub project : Project
  pub reach : Access.Reaches db user_id dto.project_id project
  pub editor : OrganizationMember
  pub access : HasAccess db user_id project.organization_id editors editor
  pub quota : AdmitsWebsite project.organization_id db
  pub checked : safe (js.trim dto.url) ≡ some w.url
  pub unverified : w.domain_verified_at ≡ none
  pub home : w.project_id ≡ dto.project_id
  pub fresh_url : url_taken new_id dto.project_id w.url db.websites ≡ false
  pub written : db' ≡ insert_website w db

-- A website is created only by an OWNER, ADMIN or MEMBER of its project's organization, while the
-- plan has room, under a URL that passed the SSRF check and that no website of the project has,
-- and unverified. A refused creation writes nothing.
pub create_website-Ends :
    (js : TextOps) (safe : Text → Option Text) (new_id user_id : ℕ) (dto : CreateWebsiteDto)
    (db : Db)
    → Ends
        (λ w db'. Created js safe new_id user_id dto db db' w)
        (Unchanged db)
        (create js safe new_id user_id dto db)
unfolding create
create_website-Ends js safe new_id user_id dto db =
    read_rule _ _ db (require_project_access-Reads user_id dto.project_id db) (λ e. refl)
      λ p reach.
        require_membership_rule user_id p.organization_id editors db _ (λ e. refl)
          λ m access.
            read_rule _ _ db (assert_can_add_website-Reads p.organization_id db) (λ e. refl)
              λ _ quota.
                or_throw_rule _ _ _ db (λ _. refl)
                  λ url checked. gets_rule _ _ db (
                    throw_if_rule _ _ _ db (λ _. refl)
                      λ fresh_url. modify_rule _ _ db (
                        done _ _ (record {
                          project = p;
                          reach = reach;
                          editor = m;
                          access = access;
                          quota = quota;
                          checked = checked;
                          unverified = refl;
                          home = refl;
                          fresh_url = fresh_url;
                          written = refl;
                        })))

-- What an accepted edit has done.
pub record Updated (js : TextOps) (safe : Text → Option Text) (user_id website_id : ℕ)
    (dto : UpdateWebsiteDto) (db db' : Db) (r : Website) : Type 0 where
  pub loaded : Website × ℕ
  pub website : IsLoaded db website_id loaded
  pub editor : OrganizationMember
  pub access : HasAccess db user_id loaded.1 editors editor
  pub url : Option Text
  pub checked : checked_url js safe dto.url ≡ some url
  pub fresh_url : url_collides loaded.0 url db.websites ≡ false
  pub written : db' ≡ set_website website_id (edited js dto url) db
  pub answer : r ≡ edited js dto url loaded.0

-- A website is changed only by an OWNER, ADMIN or MEMBER of its organization, a new URL having
-- passed the SSRF check and colliding with no other website of the project, and the row is changed
-- as asked for. A refused change writes nothing.
update_website-Ends :
    (js : TextOps) (safe : Text → Option Text) (user_id website_id : ℕ) (dto : UpdateWebsiteDto)
    (db : Db)
    → Ends
        (λ r db'. Updated js safe user_id website_id dto db db' r)
        (Unchanged db)
        (update js safe user_id website_id dto db)
unfolding update
update_website-Ends js safe user_id website_id dto db =
    read_rule _ _ db (load_website-Reads website_id db) (λ e. refl)
      λ loaded website.
        require_membership_rule user_id loaded.1 editors db _ (λ e. refl)
          λ m access.
            or_throw_rule _ _ _ db (λ _. refl)
              λ url checked. gets_rule _ _ db (
                throw_if_rule _ _ _ db (λ _. refl)
                  λ fresh_url. modify_rule _ _ db (
                    done _ _ (record {
                      loaded = loaded;
                      website = website;
                      editor = m;
                      access = access;
                      url = url;
                      checked = checked;
                      fresh_url = fresh_url;
                      written = refl;
                      answer = refl;
                    })))

edited-keeps :
    (js : TextOps) (dto : UpdateWebsiteDto) (url : Option Text) (w : Website)
    → ((edited js dto url w).id ≡ w.id)
      × ((edited js dto url w).domain_verified_at ≡ w.domain_verified_at)
edited-keeps js dto url w = ground arith

-- No edit of a website, a change of its URL included, changes whether it counts as verified.
pub update-is_verified :
    (js : TextOps) (safe : Text → Option Text) (user_id website_id : ℕ) (dto : UpdateWebsiteDto)
    (db : Db)
    → is_verified website_id (after (update js safe user_id website_id dto db))
      ≡ is_verified website_id db
unfolding is_verified
update-is_verified js safe user_id website_id dto db =
    Ends-after (λ d. is_verified website_id d ≡ is_verified website_id db)
      (update_website-Ends js safe user_id website_id dto db)
      (λ r d v.
        let now =
          find_website-set_website website_id (edited js dto v.url) db v.website.found
            (λ w. (edited-keeps js dto v.url w).0) in
        rw (v.written, now, v.website.found, is_verified)
          (ap is_some (edited-keeps js dto v.url v.loaded.0).1))
      (λ e d same. rw same refl)
