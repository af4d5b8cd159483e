-- ===== src/DomainVerify.antt =====
-- DomainVerifyService: qa-lab-backend/src/domain-verify/domain-verify.service.ts.
-- The URL parser and the DNS and HTTPS lookups are arguments: functions of the URL and of the host,
-- with `none` where they throw.
pub mod Laws
use qa_lab.Base.{
  ℕ, not, Bool, true, false, ◌||◌, List, [], ◌∷◌, ◌++◌, Option, none, some, Text, codes, ◌==◌,
  if◌then◌else◌, is_some,
}
use qa_lab.Base.Rows.{find, update_where}
use qa_lab.Schema.{Db, Website}
use qa_lab.Program.{
  Action, ok, err, pure, throw, gets, or_throw, throw_if, modify, ◌>>=◌, ◌>>◌, not_found,
  bad_request, website_not_found, verification_not_started, token_not_found, not_verified,
  plain_error, no_hostname,
}
use qa_lab.Organizations.{require_membership}
use qa_lab.Projects.{editors, find_project}

unfoldable pub find_website : ℕ → List Website → Option Website
unfolding find
find_website id = find (λ w. w.id == id)

-- The organization of a website, through the required relation to its project.
unfoldable pub organization_of : Db → Website → Option ℕ
organization_of db w = elim (find_project w.project_id db.projects) [
  | none ↦ none
  | some p ↦ some p.organization_id
]

-- `website.findUnique({ where: { id }, include: { project: true } })` and the check for null.
-- The foreign key makes the second lookup succeed whenever the first does.
unfoldable pub load_website : ℕ → Action (Website × ℕ)
load_website website_id = do
  website ←
      or_throw (← gets (λ db. find_website website_id db.websites)) (not_found website_not_found)
  organization_id ←
      or_throw (← gets (λ db. organization_of db website)) (not_found website_not_found)
  pure (website, organization_id)

abbrev pub set_website : ℕ → (Website → Website) → Db → Db
set_website website_id f db = record db {
  websites = update_where (λ w. w.id == website_id) f db.websites;
}

abbrev pub started : Text → Website → Website
started token w = record w { domain_verify_token = some token; domain_verified_at = none }

abbrev pub verified : ℕ → Website → Website
verified now w = record w { domain_verified_at = some now }

-- What the user is told to publish.
pub record Instructions : Type 0 where
  pub website_id : ℕ
  pub host : Text
  pub dns_txt : Text
  pub well_known_url : Text
  pub well_known_body : Text

abbrev pub instructions : ℕ → Text → Text → Instructions
instructions website_id host token = record {
  website_id = website_id;
  host = host;
  dns_txt = codes "qa-lab-verification=" ++ token;
  well_known_url = codes "https://" ++ host ++ codes "/.well-known/qa-lab-verification.txt";
  well_known_body = token;
}

-- `random` is the hexadecimal text of the sixteen drawn bytes.
unfoldable pub start_verification : (Text → Option Text) → Text → ℕ → ℕ → Action Instructions
start_verification hostname random user_id website_id = do
  loaded ← load_website website_id
  require_membership user_id loaded.1 editors
  let token = codes "qalab-verify-" ++ random
  modify (set_website website_id (started token))
  host ← or_throw (hostname loaded.0.url) (plain_error no_hostname)
  pure (instructions website_id host token)

-- `s.includes(part)`
unfoldable pub starts_with : Text → Text → Bool
starts_with [] s = true
starts_with (c ∷ part) [] = false
starts_with (c ∷ part) (d ∷ s) = let rest = starts_with part s in if c == d then rest else false

unfoldable pub text_includes : Text → Text → Bool
unfolding starts_with
text_includes part [] = starts_with part []
text_includes part (c ∷ s) = starts_with part (c ∷ s) || text_includes part s

unfoldable pub some_includes : Text → List Text → Bool
unfolding text_includes
some_includes part [] = false
some_includes part (r ∷ rs) = text_includes part r || some_includes part rs

pub data Method : Type 0 where
  dns_txt well_known : Method

-- `records` are the joined TXT records, `body` the trimmed body of the well-known file; `none`
-- where the lookup threw.
unfoldable pub prove_domain : Text → Option (List Text) → Option Text → Option Method
unfolding some_includes
prove_domain token none none = none
prove_domain token none (some body) = if text_includes token body then some well_known else none
prove_domain token (some records) none =
    if some_includes (codes "qa-lab-verification=" ++ token) records then some dns_txt else none
prove_domain token (some records) (some body) =
    if some_includes (codes "qa-lab-verification=" ++ token) records
    then some dns_txt
    else if text_includes token body
    then some well_known
    else none

-- `!website.domainVerifyToken` holds of an empty token too.
abbrev pub given_token : Option Text → Option Text
given_token none = none
given_token (some []) = none
given_token (some (c ∷ token)) = some (c ∷ token)

-- The two lookups: the joined TXT records of a host, and the trimmed body of its well-known file.
pub record Lookups : Type 0 where
  pub records : Text → Option (List Text)
  pub body : Text → Option Text

unfoldable pub verify : (Text → Option Text) → Lookups → ℕ → ℕ → ℕ → Action Method
verify hostname lookups now user_id website_id = do
  loaded ← load_website website_id
  token ← or_throw (given_token loaded.0.domain_verify_token) (bad_request verification_not_started)
  require_membership user_id loaded.1 editors
  host ← or_throw (hostname loaded.0.url) (plain_error no_hostname)
  method ←
      or_throw (prove_domain token (lookups.records host) (lookups.body host))
        (bad_request token_not_found)
  modify (set_website website_id (verified now))
  pure method

unfoldable pub is_verified : ℕ → Db → Bool
unfolding find_website
is_verified website_id db = elim (find_website website_id db.websites) [
  | none ↦ false
  | some w ↦ is_some w.domain_verified_at
]

unfoldable pub assert_verified : ℕ → Action (Unit {0})
assert_verified website_id = do
  fine ← gets (is_verified website_id)
  throw_if (not fine) (bad_request not_verified)
