-- ===== src/Auth/Login.antt =====
-- Signing in with a password, and the lock after failed attempts.
use qa_lab.Base.{
  ℕ, ◌+◌, ◌≤◌, ◌<◌, ◌≡◌, refl, ◌∙◌, inl, inr, true, false, not, ◌&&◌, Option, some, Text, arith,
  ◌==◌, Bool-cases,
}
use qa_lab.Base.Rows.{find-update_where}
use qa_lab.Base.Texts.{text_eq}
use qa_lab.Schema.{Db, User}
use qa_lab.Program.{
  err, TextOps, Exception, unauthorized, invalid_credentials, account_locked, ◌>>=◌,
}
use qa_lab.Program.Rules.{
  Ends, done, Reads, bind_ok, bind_err, gets_rule, or_throw_rule, throw_if_rule, modify_rule,
  read_rule, throw_if-Reads, Reads-mono,
}
use qa_lab.Auth.{
  Crypto, Draw, LoginDto, find_by_email, set_user, insert_token, new_token, issue_tokens, is_active,
  is_locked, reset_failures, count_failure, check_password, check_totp, accepts_code, trimmed_code,
  is_empty, login, lockout_ms, max_failed_logins,
}

abbrev pub named : TextOps → LoginDto → Db → Option User
named js dto db = find_by_email (js.trim (js.lower_case dto.email)) db.users

-- A code was asked for only where the account has the second factor, and was accepted.
abbrev pub PassedTotp : Crypto → TextOps → Option Text → User → Type 0
PassedTotp c js code u =
    (u.totp_enabled && is_empty (trimmed_code js code) ≡ false)
    × (u.totp_enabled && not (accepts_code c u.totp_secret_enc (trimmed_code js code)) ≡ false)

check_totp-Reads :
    (c : Crypto) (js : TextOps) (code : Option Text) (u : User) (db : Db)
    → Reads db (λ _. PassedTotp c js code u) (check_totp c js code u db)
unfolding check_totp
check_totp-Reads c js code u db =
    throw_if_rule _ _ _ db (λ _. refl)
      λ given. Reads-mono db (λ _ ok. (given, ok)) (throw_if-Reads _ _ db)

-- Who is signed in.
pub record SignedIn (c : Crypto) (js : TextOps) (now : ℕ) (draw : Draw) (dto : LoginDto) (db d : Db)
    (r : Text) : Type 0 where
  pub user : User
  pub found : named js dto db ≡ some user
  pub active : is_active user.status ≡ true
  pub unlocked : is_locked now user ≡ false
  pub password : c.bcrypt_compare dto.password user.password_hash ≡ true
  pub second_factor : PassedTotp c js dto.totp_code user
  pub answer : r ≡ draw.raw
  pub written :
      d
      ≡ insert_token (new_token c now draw user.id draw.family) (set_user user.id reset_failures db)

-- What a refused login writes: nothing, but for a wrong password, which is counted on an account
-- that is active and not locked; or the server has no key to sign a token with.
pub data LoginRefusal (c : Crypto) (js : TextOps) (now : ℕ) (dto : LoginDto) (db : Db)
    : Exception → Db → Type 0 where
  plain : {e : Exception} {d : Db} → d ≡ db → LoginRefusal c js now dto db e d
  wrong_password :
      {d : Db} (user : User)
      → named js dto db ≡ some user
      → is_active user.status ≡ true
      → is_locked now user ≡ false
      → c.bcrypt_compare dto.password user.password_hash ≡ false
      → d ≡ set_user user.id (count_failure now user) db
      → LoginRefusal c js now dto db (unauthorized invalid_credentials) d
  keyless : {e : Exception} {d : Db} → c.has_secret ≡ false → LoginRefusal c js now dto db e d

-- A login that succeeds names an active account that is not locked, with its password, and with an
-- accepted code where the account has a second factor; it clears the count of failures and stores
-- a token of a new family. One that is refused writes nothing, unless the password was wrong on an
-- active account that is not locked, which is counted, or the server has no key to sign with.
pub login-Ends :
    (c : Crypto) (js : TextOps) (now : ℕ) (draw : Draw) (dto : LoginDto) (db : Db)
    → Ends
        (λ r d. SignedIn c js now draw dto db d r)
        (LoginRefusal c js now dto db)
        (login c js now draw dto db)
unfolding login issue_tokens check_password
login-Ends c js now draw dto db = gets_rule _ _ db (
    or_throw_rule _ _ _ db (λ _. plain refl)
      λ user found.
        throw_if_rule _ _ _ db (λ _. plain refl)
          λ active.
            throw_if_rule _ _ _ db (λ _. plain refl)
              λ unlocked. elim (Bool-cases (c.bcrypt_compare dto.password user.password_hash)) [
                | inr bad ↦
                    bind_err (check_password c now dto.password user) _ db (rw bad refl)
                      (wrong_password user found (ground (arith, active)) unlocked bad refl)
                | inl good ↦ bind_ok (check_password c now dto.password user) _ db (rw good refl) (
                    read_rule _ _ db (check_totp-Reads c js dto.totp_code user db) (λ e. plain refl)
                      λ _ second. modify_rule _ _ db (
                        throw_if_rule _ _ _ _ (λ e. keyless (ground (arith, e)))
                          λ _. modify_rule _ _ _ (
                            done _ _ (record {
                              user = user;
                              found = found;
                              active = ground (arith, active);
                              unlocked = unlocked;
                              password = good;
                              second_factor = second;
                              answer = refl;
                              written = refl;
                            }))))
              ])

-- The row that the failed attempt leaves.
after_failure :
    (email : Text) (now : ℕ) (db : Db) {u : User}
    → find_by_email email db.users ≡ some u
    → find_by_email email (set_user u.id (count_failure now u) db).users
      ≡ some (count_failure now u u)
unfolding find_by_email
after_failure email now db {u} found =
    find-update_where (λ x. text_eq x.email email) (λ x. x.id == u.id) (count_failure now u)
      db.users (λ x. refl) found
    ∙ ground arith

-- If a wrong password for an active account that is not locked brings its count of failures to at
-- least eight, then until fifteen minutes after it every login under the same e-mail address is
-- refused as locked and writes nothing, whatever its password and code.
pub login-locks :
    (c : Crypto) (js : TextOps) (now later : ℕ) (draw again : Draw) (dto next : LoginDto) (db : Db)
    {user : User}
    → named js dto db ≡ some user
    → is_active user.status ≡ true
    → is_locked now user ≡ false
    → c.bcrypt_compare dto.password user.password_hash ≡ false
    → max_failed_logins ≤ user.failed_login_count + 1
    → next.email ≡ dto.email
    → later < now + lockout_ms
    → (login c js now draw dto db
        ≡ err (unauthorized invalid_credentials) (set_user user.id (count_failure now user) db))
      × (login c js later again next (set_user user.id (count_failure now user) db)
          ≡ err (unauthorized account_locked) (set_user user.id (count_failure now user) db))
unfolding login ◌>>=◌ check_password
login-locks c js now later draw again dto next db {user} found active unlocked bad many same soon =
    let there = after_failure (js.trim (js.lower_case dto.email)) now db found in
    let locked : is_locked later (count_failure now user user) ≡ true =
      ground (arith, many, soon) in
    (rw (found, active, unlocked, bad) refl, rw (same, there, active, locked) refl)
