-- ===== src/Auth/Passwords.antt =====
-- Resetting and changing a password.
use qa_lab.Base.{
  ℕ, ◌≤◌, ◌≡◌, refl, sym, ap, ◌∙◌, true, none, some, Text, arith, ◌==◌, or_default, subst,
}
use qa_lab.Base.Rows.{find-update_where, find-update_where_self, find_passes}
use qa_lab.Schema.{Db, User, RefreshToken, PasswordResetToken}
use qa_lab.Program.{ok, err, bad_request, unauthorized, invalid_reset, refresh_reuse, ◌>>=◌}
use qa_lab.Program.Rules.{
  Ends, done, Unchanged, Ends-good, gets_rule, or_throw_rule, throw_if_rule, modify_rule,
}
use qa_lab.Auth.{Crypto, Draw, find_user, find_token, set_user, revoke_user, burn_family, refresh}
use qa_lab.Auth.Recovery.{
  find_reset, with_password, with_reset_password, use_reset, used, reset_password, change_password,
}
use qa_lab.Auth.Sessions.{revoke_user-refused}

-- What a reset has done with the token's row and the account it names.
pub record WasReset (c : Crypto) (now : ℕ) (raw password : Text) (db d : Db) : Type 0 where
  pub row : PasswordResetToken
  pub found : find_reset (c.sha256 raw) db.reset_tokens ≡ some row
  pub unused : row.used_at ≡ none
  pub fresh : now ≤ row.expires_at
  pub written :
      d
      ≡ revoke_user now row.user_id (
          use_reset now row.id
            (set_user row.user_id (with_reset_password (c.bcrypt_hash password)) db))

pub reset_password-Ends :
    (c : Crypto) (now : ℕ) (raw password : Text) (db : Db)
    → Ends
        (λ _ d. WasReset c now raw password db d)
        (Unchanged db)
        (reset_password c now raw password db)
unfolding reset_password
reset_password-Ends c now raw password db = gets_rule _ _ db (
    or_throw_rule _ _ _ db (λ _. refl)
      λ row found.
        throw_if_rule _ _ _ db (λ _. refl)
          λ valid. modify_rule _ _ db (
            modify_rule _ _ _ (
              done _ _ (record {
                row = row;
                found = found;
                unused = ground (arith, valid);
                fresh = ground (arith, valid);
                written = refl;
              }))))

-- Once a reset with a token has succeeded, a second reset with the same token is refused and
-- writes nothing.
pub reset_password-once :
    (c : Crypto) (now later : ℕ) (raw password again : Text) (db : Db) {d : Db}
    → reset_password c now raw password db ≡ ok tt d
    → reset_password c later raw again d ≡ err (bad_request invalid_reset) d
unfolding reset_password ◌>>=◌ find_reset
reset_password-once c now later raw password again db {d} e =
    let g : WasReset c now raw password db d =
      Ends-good _ (reset_password-Ends c now raw password db) e in
    let spent : find_reset (c.sha256 raw) d.reset_tokens ≡ some (used now g.row) =
      ap (λ x. find_reset (c.sha256 raw) x.reset_tokens) g.written
      ∙ find-update_where (λ t. t.token_hash == c.sha256 raw) (λ t. t.id == g.row.id) (used now)
          db.reset_tokens (λ x. refl) g.found
      ∙ ground arith in
    rw spent refl

-- After a reset that succeeded, every refresh token that the reset's user had stored is refused as
-- reuse.
reset_password-refused :
    (c : Crypto) (now later : ℕ) (raw password token : Text) (draw : Draw) (db : Db) {d : Db}
    {row : PasswordResetToken} {t : RefreshToken}
    → reset_password c now raw password db ≡ ok tt d
    → find_reset (c.sha256 raw) db.reset_tokens ≡ some row
    → find_token (c.sha256 token) db.refresh_tokens ≡ some t
    → t.user_id ≡ row.user_id
    → refresh c later draw token d
      ≡ err (unauthorized refresh_reuse) (burn_family later t.family_id d)
reset_password-refused c now later raw password token draw db {d} {row} {t} e found held mine =
    let g : WasReset c now raw password db d =
      Ends-good _ (reset_password-Ends c now raw password db) e in
    let same : row.user_id ≡ g.row.user_id =
      ap (λ o. (or_default o row).user_id) (sym found ∙ g.found) in
    subst
      (λ x.
        refresh c later draw token x
        ≡ err (unauthorized refresh_reuse) (burn_family later t.family_id x))
      (sym g.written)
      (revoke_user-refused c now later draw token g.row.user_id
        (use_reset now g.row.id
          (set_user g.row.user_id (with_reset_password (c.bcrypt_hash password)) db))
        held (mine ∙ same))

-- What a change of password has done.
pub record WasChanged (c : Crypto) (now user_id : ℕ) (current password : Text) (db d : Db)
    : Type 0 where
  pub user : User
  pub found : find_user user_id db.users ≡ some user
  pub proved : c.bcrypt_compare current user.password_hash ≡ true
  pub written :
      d ≡ revoke_user now user_id (set_user user_id (with_password (c.bcrypt_hash password)) db)
  pub stored : find_user user_id d.users ≡ some (with_password (c.bcrypt_hash password) user)

stored_password :
    (user_id : ℕ) (f : User → User) (db : Db) {u : User}
    → ((x : User) → (f x).id ≡ x.id)
    → find_user user_id db.users ≡ some u
    → find_user user_id (set_user user_id f db).users ≡ some (f u)
unfolding find_user
stored_password user_id f db {u} keep found =
    find-update_where_self (λ x. x.id == user_id) f db.users found
      (ap (λ i. i == user_id) (keep u) ∙ find_passes (λ x. x.id == user_id) db.users found)

-- A change of password that succeeds was made with the present password; it stores the new one's
-- hash and revokes what is live of the user's refresh tokens. One that is refused writes nothing.
change_password-Ends :
    (c : Crypto) (now user_id : ℕ) (current password : Text) (db : Db)
    → Ends
        (λ _ d. WasChanged c now user_id current password db d)
        (Unchanged db)
        (change_password c now user_id current password db)
unfolding change_password
change_password-Ends c now user_id current password db = gets_rule _ _ db (
    or_throw_rule _ _ _ db (λ _. refl)
      λ user found.
        throw_if_rule _ _ _ db (λ _. refl)
          λ proved. modify_rule _ _ db (
            done _ _ (record {
              user = user;
              found = found;
              proved = ground (arith, proved);
              written = refl;
              stored =
                  stored_password user_id (with_password (c.bcrypt_hash password)) db (λ x. refl)
                    found;
            })))
