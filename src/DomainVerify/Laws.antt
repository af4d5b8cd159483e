-- ===== src/DomainVerify/Laws.antt =====
-- What a passed domain check rests on.
use qa_lab.Base.{
  ◌≢◌, ◌⊎◌, inl, inr, [], ◌∷◌, none, ℕ, not, ◌≡◌, refl, true, false, Option, some, Text, arith,
  ◌==◌, codes, ◌++◌,
}
use qa_lab.Base.Rows.{find_passes, find-update_where_self}
use qa_lab.Schema.{Db, Website, OrganizationMember}
use qa_lab.Program.Rules.{
  throw_if-Reads, Reads-mono, Ends, done, Unchanged, Reads, read_rule, gets_rule, or_throw_rule,
  modify_rule,
}
use qa_lab.Organizations.Access.{HasAccess, require_membership_rule}
use qa_lab.Projects.{editors}
use qa_lab.DomainVerify.{
  find_website, organization_of, load_website, set_website, started, verified, start_verification,
  prove_domain, Method, Lookups, given_token, instructions, verify, is_verified, assert_verified,
}

-- The website and the organization that it belongs to.
pub record IsLoaded (db : Db) (website_id : ℕ) (loaded : Website × ℕ) : Type 0 where
  pub found : find_website website_id db.websites ≡ some loaded.0
  pub organization : organization_of db loaded.0 ≡ some loaded.1

pub load_website-Reads :
    (website_id : ℕ) (db : Db) → Reads db (IsLoaded db website_id) (load_website website_id db)
unfolding load_website
load_website-Reads website_id db = gets_rule _ _ db (
    or_throw_rule _ _ _ db (λ _. refl)
      λ w found. gets_rule _ _ db (
        or_throw_rule _ _ _ db (λ _. refl)
          λ o organization.
            done (w, o) db (record { found = found; organization = organization }, refl)))

pub find_website-set_website :
    (website_id : ℕ) (f : Website → Website) (db : Db) {w : Website}
    → find_website website_id db.websites ≡ some w
    → ((w : Website) → (f w).id ≡ w.id)
    → find_website website_id (set_website website_id f db).websites ≡ some (f w)
unfolding find_website
find_website-set_website website_id f db {w} found keep =
    find-update_where_self (λ w. w.id == website_id) f db.websites found
      (ground (arith, find_passes (λ w. w.id == website_id) db.websites found, keep w))

-- A token that counts as given was stored, and is not empty.
given_token_lem :
    (stored : Option Text) {token : Text}
    → given_token stored ≡ some token
    → (stored ≡ some token) × (token ≢ [])
given_token_lem none e = cc
given_token_lem (some []) e = cc
given_token_lem (some (c ∷ t)) e = (e, λ empty. cc)

-- A check that was passed: by an editor of the website's organization, for the token that was
-- handed out, which a lookup returned; the website is verified from then on.
pub record Verified (hostname : Text → Option Text) (lookups : Lookups) (now : ℕ)
    (user_id website_id : ℕ) (db db' : Db) (method : Method) : Type 0 where
  pub loaded : Website × ℕ
  pub website : IsLoaded db website_id loaded
  pub token : Text
  pub handed_out : loaded.0.domain_verify_token ≡ some token
  pub given : token ≢ []
  pub editor : OrganizationMember
  pub access : HasAccess db user_id loaded.1 editors editor
  pub host : Text
  pub named : hostname loaded.0.url ≡ some host
  pub proved : prove_domain token (lookups.records host) (lookups.body host) ≡ some method
  pub written : db' ≡ set_website website_id (verified now) db
  pub passes : is_verified website_id db' ≡ true

-- A website is marked verified only by an OWNER, ADMIN or MEMBER of its organization, after a
-- token was handed out for it, not an empty one, and one of the two lookups at the host of its
-- stored URL returned that token. A check that fails writes nothing.
pub verify-Ends :
    (hostname : Text → Option Text) (lookups : Lookups) (now user_id website_id : ℕ) (db : Db)
    → Ends
        (λ method db'. Verified hostname lookups now user_id website_id db db' method)
        (Unchanged db)
        (verify hostname lookups now user_id website_id db)
unfolding verify is_verified
verify-Ends hostname lookups now user_id website_id db =
    read_rule _ _ db (load_website-Reads website_id db) (λ e. refl)
      λ loaded website.
        or_throw_rule _ _ _ db (λ _. refl)
          λ token given.
            require_membership_rule user_id loaded.1 editors db _ (λ e. refl)
              λ m access.
                or_throw_rule _ _ _ db (λ _. refl)
                  λ host named.
                    or_throw_rule _ _ _ db (λ _. refl)
                      λ method proved. modify_rule _ _ db (
                        done _ _ (record {
                          loaded = loaded;
                          website = website;
                          token = token;
                          handed_out = (given_token_lem loaded.0.domain_verify_token given).0;
                          given = (given_token_lem loaded.0.domain_verify_token given).1;
                          editor = m;
                          access = access;
                          host = host;
                          named = named;
                          proved = proved;
                          written = refl;
                          passes = rw (
                            find_website-set_website website_id (verified now) db website.found
                                (λ w. refl),
                            is_verified,
                          );
                        }))

-- Handing out a new token withdraws an earlier verification.
pub record Started (random : Text) (user_id website_id : ℕ) (db db' : Db) : Type 0 where
  pub loaded : Website × ℕ
  pub website : IsLoaded db website_id loaded
  pub editor : OrganizationMember
  pub access : HasAccess db user_id loaded.1 editors editor
  pub stored :
      find_website website_id db'.websites
      ≡ some (started (codes "qalab-verify-" ++ random) loaded.0)
  pub withdrawn : is_verified website_id db' ≡ false

-- A verification is started only by an OWNER, ADMIN or MEMBER of the website's organization; the
-- website does not count as verified afterwards, and the answer names the token that is stored and
-- the website's host. A refused call writes nothing; one whose stored URL cannot be parsed fails
-- with the token stored and the verification withdrawn.
start_verification-Ends :
    (hostname : Text → Option Text) (random : Text) (user_id website_id : ℕ) (db : Db)
    → Ends
        (λ told db'.
          (s : Started random user_id website_id db db') × (host : Text) × (hostname s.loaded.0.url
            ≡ some host)
          × (told ≡ instructions website_id host (codes "qalab-verify-" ++ random)))
        (λ e db'.
          (db' ≡ db)
          ⊎ ((s : Started random user_id website_id db db') × (hostname s.loaded.0.url ≡ none)))
        (start_verification hostname random user_id website_id db)
unfolding start_verification is_verified
start_verification-Ends hostname random user_id website_id db =
    read_rule _ _ db (load_website-Reads website_id db) (λ e. inl refl)
      λ loaded website.
        require_membership_rule user_id loaded.1 editors db _ (λ e. inl refl)
          λ m access. modify_rule _ _ db (
            let token = codes "qalab-verify-" ++ random in
            let stored =
              find_website-set_website website_id (started token) db website.found (λ w. refl) in
            let s : Started random user_id website_id db
                (set_website website_id (started token) db) =
              record {
                loaded = loaded;
                website = website;
                editor = m;
                access = access;
                stored = stored;
                withdrawn = rw (stored, is_verified);
              } in
            or_throw_rule _ _ _ _ (λ missing. inr (s, missing))
              λ host named. done _ _ (s, host, named, refl))

pub assert_verified-Reads :
    (website_id : ℕ) (db : Db)
    → Reads db (λ _. is_verified website_id db ≡ true) (assert_verified website_id db)
unfolding assert_verified
assert_verified-Reads website_id db = gets_rule _ _ db (
    Reads-mono db (λ _ e. ground (arith, e))
      (throw_if-Reads (not (is_verified website_id db)) _ db))
