-- ===== src/Auth/Recovery.antt =====
-- AuthService: qa-lab-backend/src/auth/auth.service.ts, e-mail verification and passwords.
use qa_lab.Base.{
  ℕ, ◌+◌, ◌*◌, Bool, false, ◌&&◌, ◌||◌, not, List, [], ◌∷◌, ◌++◌, Option, none, some, Text, ◌==◌,
  if◌then◌else◌, is_some, ltb,
}
use qa_lab.Base.Rows.{find, update_where}
use qa_lab.Schema.{Db, User, PasswordResetToken}
use qa_lab.Program.{
  Action, gets, or_throw, throw_if, modify, ◌>>=◌, ◌>>◌, TextOps, bad_request, unauthorized,
  invalid_verification, invalid_reset, wrong_password, no_user,
}
use qa_lab.Auth.{Crypto, Draw, is_active, find_user, find_by_email, set_user, revoke_user}

abbrev pub reset_ttl_ms : ℕ
reset_ttl_ms = 60 * 60 * 1000

-- `verifyEmail`
unfoldable pub email_token_valid : ℕ → ℕ → User → Bool
email_token_valid now hash u = elim u.email_verify_token_hash [
  | none ↦ false
  | some h ↦ h == hash && elim u.email_verify_expires_at [ none ↦ false | some t ↦ ltb now t ]
]

abbrev pub email_verified : ℕ → User → User
email_verified now u = record u {
  email_verified_at = some now;
  email_verify_token_hash = none;
  email_verify_expires_at = none;
}

unfoldable pub verify_email : Crypto → ℕ → Text → Action (Unit {0})
unfolding find
verify_email c now raw = do
  user ←
      or_throw (← gets (λ db. find (email_token_valid now (c.sha256 raw)) db.users))
        (bad_request invalid_verification)
  modify (set_user user.id (email_verified now))

-- `forgotPassword`: the answer is the same whether or not there is such an account. The raw token
-- goes out by e-mail.
abbrev pub new_reset_token : Crypto → ℕ → Draw → ℕ → PasswordResetToken
new_reset_token c now draw user_id = record {
  id = draw.id;
  user_id = user_id;
  token_hash = c.sha256 draw.raw;
  expires_at = now + reset_ttl_ms;
  used_at = none;
}

abbrev pub insert_reset : PasswordResetToken → Db → Db
insert_reset t db = record db { reset_tokens = db.reset_tokens ++ t ∷ [] }

abbrev pub forgot_for : Crypto → ℕ → Draw → Option User → Db → Db
forgot_for c now draw none db = db
forgot_for c now draw (some u) db =
    if is_active u.status then insert_reset (new_reset_token c now draw u.id) db else db

unfoldable pub forgot_password : Crypto → TextOps → ℕ → Draw → Text → Action (Unit {0})
forgot_password c js now draw email = do
  found ← gets (λ db. find_by_email (js.trim (js.lower_case email)) db.users)
  modify (forgot_for c now draw found)

unfoldable pub find_reset : ℕ → List PasswordResetToken → Option PasswordResetToken
unfolding find
find_reset hash = find (λ t. t.token_hash == hash)

abbrev pub used : ℕ → PasswordResetToken → PasswordResetToken
used now t = record t { used_at = some now }

abbrev pub with_password : ℕ → User → User
with_password hash u = record u { password_hash = hash }

abbrev pub with_reset_password : ℕ → User → User
with_reset_password hash u = record u {
  password_hash = hash;
  failed_login_count = 0;
  locked_until = none;
}

abbrev pub use_reset : ℕ → ℕ → Db → Db
use_reset now id db = record db {
  reset_tokens = update_where (λ t. t.id == id) (used now) db.reset_tokens;
}

-- The three writes are one transaction.
unfoldable pub reset_password : Crypto → ℕ → Text → Text → Action (Unit {0})
reset_password c now raw password = do
  row ←
      or_throw (← gets (λ db. find_reset (c.sha256 raw) db.reset_tokens))
        (bad_request invalid_reset)
  throw_if (is_some row.used_at || ltb row.expires_at now) (bad_request invalid_reset)
  modify (set_user row.user_id (with_reset_password (c.bcrypt_hash password)))
  modify (use_reset now row.id)
  modify (revoke_user now row.user_id)

unfoldable pub change_password : Crypto → ℕ → ℕ → Text → Text → Action (Unit {0})
change_password c now user_id current password = do
  user ← or_throw (← gets (λ db. find_user user_id db.users)) (unauthorized no_user)
  throw_if (not (c.bcrypt_compare current user.password_hash)) (unauthorized wrong_password)
  modify (set_user user_id (with_password (c.bcrypt_hash password)))
  modify (revoke_user now user_id)
