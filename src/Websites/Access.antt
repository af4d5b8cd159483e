-- ===== src/Websites/Access.antt =====
-- Who reaches a website: a member of its organization, or an API key of that organization.
use qa_lab.Base.{ℕ, refl, [], arith}
use qa_lab.Schema.{Db, Website, OrganizationMember}
use qa_lab.Program.Rules.{done, Reads, read_rule, throw_if_rule}
use qa_lab.Organizations.Access.{HasAccess, require_membership_rule}
use qa_lab.DomainVerify.Laws.{IsLoaded, load_website-Reads}
use qa_lab.Websites.{require_website_access, require_website_in_organization}

pub record Reaches (db : Db) (user_id website_id : ℕ) (loaded : Website × ℕ) : Type 0 where
  pub website : IsLoaded db website_id loaded
  pub membership : OrganizationMember
  pub access : HasAccess db user_id loaded.1 [] membership

pub require_website_access-Reads :
    (user_id website_id : ℕ) (db : Db)
    → Reads db (Reaches db user_id website_id) (require_website_access user_id website_id db)
unfolding require_website_access
require_website_access-Reads user_id website_id db =
    read_rule _ _ db (load_website-Reads website_id db) (λ e. refl)
      λ loaded website.
        require_membership_rule user_id loaded.1 [] db _ (λ e. refl)
          λ m access.
            done loaded db (record { website = website; membership = m; access = access }, refl)

pub require_website_in_organization-Reads :
    (organization_id website_id : ℕ) (db : Db)
    → Reads db
        (λ w. IsLoaded db website_id (w, organization_id))
        (require_website_in_organization organization_id website_id db)
unfolding require_website_in_organization
require_website_in_organization-Reads organization_id website_id db =
    read_rule _ _ db (load_website-Reads website_id db) (λ e. refl)
      λ loaded website.
        throw_if_rule _ _ _ db (λ _. refl)
          λ inside. done loaded.0 db (
            record {
              found = website.found;
              organization = ground (arith, website.organization, inside);
            },
            refl,
          )
