-- ===== src/ApiKeys/Validity.antt =====
-- Which keys authenticate a request.
use qa_lab.Base.{
  ℕ, ◌≡◌, refl, ap, ◌∙◌, inl, inr, Bool, true, false, ◌||◌, Option, none, some, [], ◌∷◌, Text,
  codes, arith, ◌==◌, is_some, Bool-cases,
}
use qa_lab.Base.Rows.{find-update_where}
use qa_lab.Schema.{Db, ApiKey, OrganizationMember, owner, admin}
use qa_lab.Program.{ok, ◌>>=◌}
use qa_lab.Program.Rules.{Ends, done, Unchanged, Ends-good, gets_rule, or_throw_rule, throw_if_rule}
use qa_lab.Organizations.Access.{HasAccess, require_membership_rule}
use qa_lab.DomainVerify.{starts_with}
use qa_lab.ApiKeys.{
  find_by_hash, find_key, set_key, revoked_key, revoke, is_expired, touch, validate_found,
  validate_raw_key,
}

-- A key that authenticates: the stored row of its hash, neither revoked nor expired. All that is
-- written is the time of its last use.
pub record Valid (hash : Text → ℕ) (now : ℕ) (stored : Bool) (raw : Text) (db d : Db) (k : ApiKey)
    : Type 0 where
  pub prefixed : starts_with (codes "qalab_") raw ≡ true
  pub found : find_by_hash (hash raw) db.api_keys ≡ some k
  pub unrevoked : k.revoked_at ≡ none
  pub unexpired : is_expired now k ≡ false
  pub written : d ≡ touch now stored k db

abbrev pub IsVerdict : (Text → ℕ) → ℕ → Bool → Text → Db → Option ApiKey → Db → Type 0
IsVerdict hash now stored raw db none d = d ≡ db
IsVerdict hash now stored raw db (some k) d = Valid hash now stored raw db d k

-- A raw key is accepted only if it has the prefix and is the stored key of its hash, neither
-- revoked nor expired; an accepted key writes at most the time of its last use, a refused one
-- nothing, and the check never throws.
pub validate_raw_key-Ends :
    (hash : Text → ℕ) (now : ℕ) (stored : Bool) (raw : Text) (db : Db)
    → Ends (IsVerdict hash now stored raw db) (λ e d. ⊥) (validate_raw_key hash now stored raw db)
unfolding validate_raw_key validate_found ◌>>=◌
validate_raw_key-Ends hash now stored raw db =
    elim (Bool-cases (starts_with (codes "qalab_") raw)) [
      | inr other ↦ rw other (done none db refl)
      | inl prefixed ↦ rw prefixed (go prefixed (find_by_hash (hash raw) db.api_keys) refl)
    ]
  where
    go :
        starts_with (codes "qalab_") raw ≡ true
        → (o : Option ApiKey) → find_by_hash (hash raw) db.api_keys ≡ o
        → Ends (IsVerdict hash now stored raw db) (λ e d. ⊥) (validate_found now stored o db)
    go prefixed none e = done none db refl
    go prefixed (some k) e = elim (Bool-cases (is_some k.revoked_at || is_expired now k)) [
      | inl dead ↦ rw dead (done none db refl)
      | inr live ↦ rw live (
          done (some k) _ (record {
            prefixed = prefixed;
            found = e;
            unrevoked = ground (arith, live);
            unexpired = ground (arith, live);
            written = refl;
          }))
    ]

-- What an accepted revocation has done.
pub record Revoked (now user_id key_id : ℕ) (db d : Db) : Type 0 where
  pub key : ApiKey
  pub found : find_key key_id db.api_keys ≡ some key
  pub membership : OrganizationMember
  pub access : HasAccess db user_id key.organization_id (owner ∷ admin ∷ []) membership
  pub written : d ≡ set_key key_id (revoked_key now) db

pub revoke-Ends :
    (now user_id key_id : ℕ) (db : Db)
    → Ends (λ _ d. Revoked now user_id key_id db d) (Unchanged db) (revoke now user_id key_id db)
unfolding revoke
revoke-Ends now user_id key_id db = gets_rule _ _ db (
    or_throw_rule _ _ _ db (λ _. refl)
      λ key found.
        require_membership_rule user_id key.organization_id (owner ∷ admin ∷ []) db _ (λ e. refl)
          λ m access.
            throw_if_rule _ _ _ db (λ _. refl)
              λ live. done _ _ (record {
                key = key;
                found = found;
                membership = m;
                access = access;
                written = refl;
              }))

-- After a revocation of an API key that succeeded, the raw key of that row is refused, at any
-- later time, and the attempt writes nothing.
pub revoke-refused :
    (hash : Text → ℕ) (now later user_id key_id : ℕ) (stored : Bool) (raw : Text) (db : Db) {d : Db}
    {k : ApiKey}
    → revoke now user_id key_id db ≡ ok tt d
    → find_by_hash (hash raw) db.api_keys ≡ some k
    → k.id ≡ key_id
    → validate_raw_key hash later stored raw d ≡ ok none d
unfolding validate_raw_key validate_found find_by_hash
revoke-refused hash now later user_id key_id stored raw db {d} {k} e found mine =
    let g : Revoked now user_id key_id db d = Ends-good _ (revoke-Ends now user_id key_id db) e in
    let dead : find_by_hash (hash raw) d.api_keys ≡ some (revoked_key now k) =
      ap (λ x. find_by_hash (hash raw) x.api_keys) g.written
      ∙ find-update_where (λ x. x.key_hash == hash raw) (λ x. x.id == key_id) (revoked_key now)
          db.api_keys (λ x. refl) found
      ∙ ground (arith, mine) in
    elim (Bool-cases (starts_with (codes "qalab_") raw)) [
      | inr other ↦ rw other refl
      | inl prefixed ↦ rw (prefixed, dead) refl
    ]
