-- ===== src/Tests/Sites.antt =====
-- Projects, websites, domains, slugs and limits at example data.
use qa_lab.Base.{Text, Option, ◌≤◌, ◌≡◌, refl, [], ◌∷◌, none, some, codes, arith, ◌==◌}
use qa_lab.Base.Rows.{count_where, All-find}
use qa_lab.Program.{after}
use qa_lab.Program.Rules.{Ends, Unchanged}
use qa_lab.Quotas.{website_count, website_in, project_in}
use qa_lab.DomainVerify.{Lookups, verify, is_verified}
use qa_lab.DomainVerify.Laws.{Verified, verify-Ends}
use qa_lab.Websites.{CreateWebsiteDto, UpdateWebsiteDto}
use qa_lab.Websites
use qa_lab.Websites.Editing.{update-is_verified}
use qa_lab.Websites.Quota.{WithinQuota, create-WithinQuota}
use qa_lab.Limiter.Workers.{run, holders, all_idle, run-limited}
use qa_lab.Tests.{ascii, db, keep_https}

-- The URL parser and the lookups: every host publishes the token "tok" in its TXT records.
abbrev hostname : Text → Option Text
hostname url = some url

abbrev lookups : Lookups
lookups = record {
  records = λ host. some (codes "qa-lab-verification=tok" ∷ []);
  body = λ host. none;
}

verify-Ends_example :
    Ends
      (λ method d. Verified hostname lookups 100 1 31 db d method)
      (Unchanged db)
      (verify hostname lookups 100 1 31 db)
verify-Ends_example = verify-Ends hostname lookups 100 1 31 db

abbrev website_dto : CreateWebsiteDto
website_dto = record { project_id = 20; name = codes "Docs"; url = codes "https://docs.test" }

-- The website's address moves to another host.
abbrev move : UpdateWebsiteDto
move = record { name = none; url = some (codes "https://other.test"); is_active = none }

update-is_verified_example :
    is_verified 30 (after (Websites.update ascii keep_https 1 30 move db)) ≡ is_verified 30 db
update-is_verified_example = update-is_verified ascii keep_https 1 30 move db

db-WithinQuota : WithinQuota db
unfolding website_count count_where website_in project_in
db-WithinQuota organization_id org found =
    let three : org.max_websites ≡ 3 =
      All-find (λ o. o.max_websites ≡ 3) (λ o. o.id == organization_id) db.organizations
        (refl, (refl, tt)) found in
    ground (arith, three)

create-WithinQuota_example :
    WithinQuota (after (Websites.create ascii keep_https 32 1 website_dto db))
create-WithinQuota_example = create-WithinQuota ascii keep_https 32 1 website_dto db db-WithinQuota

run-limited_example :
    holders (run 1 (0 ∷ 1 ∷ 1 ∷ 0 ∷ 1 ∷ []) (record { count = 0; phases = all_idle 2 })).phases ≤ 1
run-limited_example = run-limited 1 2 (0 ∷ 1 ∷ 1 ∷ 0 ∷ 1 ∷ [])
