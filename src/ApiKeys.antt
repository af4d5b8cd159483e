-- ===== src/ApiKeys.antt =====
-- ApiKeysService, and the guard on scopes: qa-lab-backend/src/api-keys/api-keys.service.ts and
-- qa-lab-backend/src/auth/guards/scopes.guard.ts.
pub mod Validity
use mathlib.Core.List.{reverse}
use qa_lab.Base.{
  ℕ, ◌-◌, Bool, true, false, ◌&&◌, ◌||◌, not, List, [], ◌∷◌, ◌++◌, Option, none, some, Text, codes,
  ◌==◌, if◌then◌else◌, is_some, ltb, or_default,
}
use qa_lab.Base.Texts.{text_eq}
use qa_lab.Base.Rows.{find, update_where, select_where}
use qa_lab.Schema.{Db, ApiKey, owner, admin}
use qa_lab.Program.{
  Action, pure, gets, or_throw, throw_if, modify, ◌>>=◌, ◌>>◌, forbidden, not_found, key_not_found,
  key_already_revoked, missing_scope,
}
use qa_lab.Organizations.{require_membership}
use qa_lab.DomainVerify.{starts_with}

unfoldable pub find_by_hash : ℕ → List ApiKey → Option ApiKey
unfolding find
find_by_hash hash = find (λ k. k.key_hash == hash)

unfoldable pub find_key : ℕ → List ApiKey → Option ApiKey
unfolding find
find_key id = find (λ k. k.id == id)

abbrev pub set_key : ℕ → (ApiKey → ApiKey) → Db → Db
set_key id f db = record db { api_keys = update_where (λ k. k.id == id) f db.api_keys }

pub record CreateApiKeyDto : Type 0 where
  pub organization_id : ℕ
  pub scopes : Option (List Text)

-- `dto.scopes ?? ['scans:write', 'scans:read']`
abbrev pub new_key : (Text → ℕ) → Text → ℕ → ℕ → CreateApiKeyDto → ApiKey
new_key hash raw id user_id dto = record {
  id = id;
  organization_id = dto.organization_id;
  created_by_id = some user_id;
  key_hash = hash raw;
  scopes = or_default dto.scopes (codes "scans:write" ∷ codes "scans:read" ∷ []);
  last_used_at = none;
  expires_at = none;
  revoked_at = none;
}

abbrev pub insert_key : ApiKey → Db → Db
insert_key k db = record db { api_keys = db.api_keys ++ k ∷ [] }

-- `random` is the base64url text of the drawn bytes; answers with the raw key, which is shown once.
unfoldable pub create : (Text → ℕ) → Text → ℕ → ℕ → CreateApiKeyDto → Action Text
create hash random new_id user_id dto = do
  require_membership user_id dto.organization_id (owner ∷ admin ∷ [])
  modify (insert_key (new_key hash (codes "qalab_" ++ random) new_id user_id dto))
  pure (codes "qalab_" ++ random)

-- The keys that are not revoked, newest first.
unfoldable pub list : ℕ → ℕ → Action (List ApiKey)
unfolding select_where
list user_id organization_id = do
  require_membership user_id organization_id []
  gets (λ db. reverse (
      select_where (λ k. k.organization_id == organization_id && not (is_some k.revoked_at))
        db.api_keys))

abbrev pub revoked_key : ℕ → ApiKey → ApiKey
revoked_key now k = record k { revoked_at = some now }

unfoldable pub revoke : ℕ → ℕ → ℕ → Action (Unit {0})
revoke now user_id key_id = do
  key ← or_throw (← gets (λ db. find_key key_id db.api_keys)) (not_found key_not_found)
  require_membership user_id key.organization_id (owner ∷ admin ∷ [])
  throw_if (is_some key.revoked_at) (forbidden key_already_revoked)
  modify (set_key key_id (revoked_key now))

-- `key.expiresAt && key.expiresAt.getTime() < Date.now()`
abbrev pub is_expired : ℕ → ApiKey → Bool
is_expired now k = elim k.expires_at [ none ↦ false | some t ↦ ltb t now ]

-- `!key.lastUsedAt || Date.now() - key.lastUsedAt.getTime() > 60_000`
abbrev pub should_touch : ℕ → ApiKey → Bool
should_touch now k = elim k.last_used_at [ none ↦ true | some t ↦ ltb 60000 (now - t) ]

abbrev pub touched : ℕ → ApiKey → ApiKey
touched now k = record k { last_used_at = some now }

-- The update is best effort: `stored` says whether it went through.
abbrev pub touch : ℕ → Bool → ApiKey → Db → Db
touch now stored k db = if should_touch now k && stored then set_key k.id (touched now) db else db

-- The row that the hash finds has that hash, so that the constant-time comparison succeeds.
unfoldable pub validate_found : ℕ → Bool → Option ApiKey → Action (Option ApiKey)
validate_found now stored none = pure none
validate_found now stored (some key) =
    if is_some key.revoked_at || is_expired now key
    then pure none
    else (modify (touch now stored key) >> pure (some key))

-- `validateRawKey`
unfoldable pub validate_raw_key : (Text → ℕ) → ℕ → Bool → Text → Action (Option ApiKey)
validate_raw_key hash now stored raw db =
    if starts_with (codes "qalab_") raw
    then validate_found now stored (find_by_hash (hash raw) db.api_keys) db
    else pure none db

abbrev pub has_scope : Text → List Text → Bool
has_scope s [] = false
has_scope s (x ∷ xs) = if text_eq x s then true else has_scope s xs

-- `required.filter((s) => !scopes.includes(s)).length`: one that is missing.
abbrev pub misses : List Text → List Text → Bool
misses [] scopes = false
misses (r ∷ rs) scopes = if has_scope r scopes then misses rs scopes else true

-- `ScopesGuard.canActivate` for an API key with these scopes; a user's session passes.
unfoldable pub check_scopes : List Text → Option (List Text) → Action (Unit {0})
check_scopes required none = pure tt
check_scopes required (some scopes) =
    throw_if (not (has_scope (codes "*") scopes) && misses required scopes)
      (forbidden missing_scope)
