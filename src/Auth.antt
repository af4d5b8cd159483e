-- ===== src/Auth.antt =====
-- AuthService: qa-lab-backend/src/auth/auth.service.ts, sessions and passwords.
pub mod Sessions
pub mod Login
pub mod Recovery
pub mod Passwords
use qa_lab.Base.{
  ℕ, ◌+◌, ◌*◌, Bool, true, false, ◌&&◌, ◌||◌, not, List, [], ◌∷◌, ◌++◌, Option, none, some, Text,
  codes, ◌==◌, if◌then◌else◌, is_some, ltb, leb, or_default,
}
use qa_lab.Base.Texts.{text_eq}
use qa_lab.Base.Rows.{find, update_where}
use qa_lab.Schema.{
  Db, User, UserStatus, Organization, OrganizationMember, OrganizationRole, RefreshToken,
  PasswordResetToken,
}
use qa_lab.Program.{
  Action, ok, err, pure, throw, gets, or_throw, throw_if, modify, ◌>>=◌, ◌>>◌, TextOps, Exception,
  bad_request, conflict, unauthorized, plain_error, email_taken, invalid_credentials,
  account_locked, totp_required, invalid_totp, invalid_refresh, refresh_reuse, user_not_active,
  invalid_verification, invalid_reset, wrong_password, no_user, secret_not_configured,
}
use qa_lab.Slug.{unique_slug}
use qa_lab.Slug
use qa_lab.Organizations.{insert_organization, new_organization, slug_taken}

-- The cryptographic libraries: bcrypt, and sha256 of a token. `totp_verify` is `TotpService.verify`
-- at the time of the call, and `has_secret` says whether JWT_ACCESS_SECRET is set.
pub record Crypto : Type 0 where
  pub bcrypt_hash : Text → ℕ
  pub bcrypt_compare : Text → ℕ → Bool
  pub sha256 : Text → ℕ
  pub totp_verify : Text → Text → Bool
  pub has_secret : Bool

-- What one call draws at random: the raw refresh token, the identifier of its row, and the family
-- of a session that is new.
pub record Draw : Type 0 where
  pub raw : Text
  pub id : ℕ
  pub family : ℕ

abbrev pub max_failed_logins : ℕ
max_failed_logins = 8

abbrev pub lockout_ms : ℕ
lockout_ms = 15 * 60 * 1000

abbrev pub refresh_ttl_ms : ℕ
refresh_ttl_ms = 7 * 24 * 60 * 60 * 1000

abbrev pub is_active : UserStatus → Bool
is_active UserStatus.active = true
is_active UserStatus.suspended = false
is_active UserStatus.deleted = false

unfoldable pub find_user : ℕ → List User → Option User
unfolding find
find_user id = find (λ u. u.id == id)

unfoldable pub find_by_email : Text → List User → Option User
unfolding find
find_by_email email = find (λ u. text_eq u.email email)

unfoldable pub find_token : ℕ → List RefreshToken → Option RefreshToken
unfolding find
find_token hash = find (λ t. t.token_hash == hash)

abbrev pub set_user : ℕ → (User → User) → Db → Db
set_user id f db = record db { users = update_where (λ u. u.id == id) f db.users }

abbrev pub set_tokens : (RefreshToken → Bool) → (RefreshToken → RefreshToken) → Db → Db
set_tokens p f db = record db { refresh_tokens = update_where p f db.refresh_tokens }

abbrev pub insert_token : RefreshToken → Db → Db
insert_token t db = record db { refresh_tokens = db.refresh_tokens ++ t ∷ [] }

abbrev pub new_token : Crypto → ℕ → Draw → ℕ → ℕ → RefreshToken
new_token c now draw user_id family = record {
  id = draw.id;
  user_id = user_id;
  token_hash = c.sha256 draw.raw;
  expires_at = now + refresh_ttl_ms;
  revoked_at = none;
  family_id = family;
  replaced_at = none;
}

-- `existingFamilyId || randomBytes(16)`; answers with the raw refresh token.
unfoldable pub issue_tokens : Crypto → ℕ → Draw → ℕ → Option ℕ → Action Text
issue_tokens c now draw user_id existing = do
  throw_if (not c.has_secret) (plain_error secret_not_configured)
  modify (insert_token (new_token c now draw user_id (or_default existing draw.family)))
  pure draw.raw

-- `{ revokedAt: null }` in a `where`.
abbrev pub is_live : RefreshToken → Bool
is_live t = not (is_some t.revoked_at)

abbrev pub revoked : ℕ → RefreshToken → RefreshToken
revoked now t = record t { revoked_at = some now }

abbrev pub rotated : ℕ → RefreshToken → RefreshToken
rotated now t = record t { replaced_at = some now; revoked_at = some now }

-- Revoke what is live in a family, or of a user.
abbrev pub burn_family : ℕ → ℕ → Db → Db
burn_family now family = set_tokens (λ t. t.family_id == family && is_live t) (revoked now)

abbrev pub revoke_user : ℕ → ℕ → Db → Db
revoke_user now user_id = set_tokens (λ t. t.user_id == user_id && is_live t) (revoked now)

-- Reuse: the family is revoked before the exception.
abbrev pub reject_reuse : ℕ → RefreshToken → Action (Unit {0})
reject_reuse now stored db =
    if is_some stored.revoked_at || is_some stored.replaced_at
    then err (unauthorized refresh_reuse) (burn_family now stored.family_id db)
    else ok tt db

unfoldable pub refresh : Crypto → ℕ → Draw → Text → Action Text
refresh c now draw raw = do
  stored ←
      or_throw (← gets (λ db. find_token (c.sha256 raw) db.refresh_tokens))
        (unauthorized invalid_refresh)
  reject_reuse now stored
  throw_if (ltb stored.expires_at now) (unauthorized invalid_refresh)
  user ← or_throw (← gets (λ db. find_user stored.user_id db.users)) (unauthorized user_not_active)
  throw_if (not (is_active user.status)) (unauthorized user_not_active)
  modify (set_tokens (λ t. t.id == stored.id) (rotated now))
  issue_tokens c now draw user.id (some stored.family_id)

unfoldable pub logout : Crypto → ℕ → Text → Action (Unit {0})
logout c now raw =
    modify (set_tokens (λ t. t.token_hash == c.sha256 raw && is_live t) (revoked now))

unfoldable pub logout_all : ℕ → ℕ → Action (Unit {0})
logout_all now user_id = modify (revoke_user now user_id)

pub record LoginDto : Type 0 where
  pub email : Text
  pub password : Text
  pub totp_code : Option Text

-- `user.lockedUntil && user.lockedUntil.getTime() > Date.now()`
abbrev pub is_locked : ℕ → User → Bool
is_locked now u = elim u.locked_until [ none ↦ false | some t ↦ ltb now t ]

abbrev pub reset_failures : User → User
reset_failures u = record u { failed_login_count = 0; locked_until = none }

-- The update writes the counts computed from the row as it was read.
abbrev pub count_failure : ℕ → User → User → User
count_failure now read u = record u {
  failed_login_count = read.failed_login_count + 1;
  locked_until =
      if leb max_failed_logins (read.failed_login_count + 1) then some (now + lockout_ms) else none;
}

unfoldable pub check_password : Crypto → ℕ → Text → User → Action (Unit {0})
check_password c now password u db =
    if c.bcrypt_compare password u.password_hash
    then ok tt db
    else err (unauthorized invalid_credentials) (set_user u.id (count_failure now u) db)

-- A secret that is set and not empty, and that accepts the code.
abbrev pub accepts_code : Crypto → Option Text → Text → Bool
accepts_code c none code = false
accepts_code c (some []) code = false
accepts_code c (some (s ∷ ss)) code = c.totp_verify (s ∷ ss) code

abbrev pub trimmed_code : TextOps → Option Text → Text
trimmed_code js none = []
trimmed_code js (some code) = js.trim code

abbrev pub is_empty : Text → Bool
is_empty [] = true
is_empty (c ∷ s) = false

unfoldable pub check_totp : Crypto → TextOps → Option Text → User → Action (Unit {0})
check_totp c js code u = do
  throw_if (u.totp_enabled && is_empty (trimmed_code js code)) (unauthorized totp_required)
  throw_if (u.totp_enabled && not (accepts_code c u.totp_secret_enc (trimmed_code js code)))
      (unauthorized invalid_totp)

unfoldable pub login : Crypto → TextOps → ℕ → Draw → LoginDto → Action Text
login c js now draw dto = do
  user ←
      or_throw (← gets (λ db. find_by_email (js.trim (js.lower_case dto.email)) db.users))
        (unauthorized invalid_credentials)
  throw_if (not (is_active user.status)) (unauthorized invalid_credentials)
  throw_if (is_locked now user) (unauthorized account_locked)
  check_password c now dto.password user
  check_totp c js dto.totp_code user
  modify (set_user user.id reset_failures)
  issue_tokens c now draw user.id none
