-- ===== src/Tests/Accounts.antt =====
-- Accounts and invitations at example data.
use qa_lab.Base.{none, true, some, ◌∷◌, [], ◌≡◌, refl, codes, arith, ◌==◌}
use qa_lab.Base.Texts.{text_eq}
use qa_lab.Schema.{ApiKey, Db, OrganizationRole}
use qa_lab.Program.{
  ok, err, unauthorized, bad_request, refresh_reuse, invalid_reset, invalid_credentials,
  account_locked, ◌>>=◌,
}
use qa_lab.ApiKeys.{validate_raw_key, revoke, revoked_key, set_key, find_by_hash, find_key}
use qa_lab.ApiKeys.Validity.{IsVerdict, validate_raw_key-Ends, revoke-refused}
use qa_lab.Program.Rules.{Ends, Unchanged}
use qa_lab.Organizations.{require_membership, invite_member, find_member}
use qa_lab.Organizations.Invite.{Invited, invite_member-Ends}
use qa_lab.Auth.{
  find_user, find_by_email, find_token, refresh, login, burn_family, set_user, count_failure,
  issue_tokens, insert_token, set_tokens, rotated, new_token, revoke_user,
}
use qa_lab.Auth.Recovery.{find_reset, reset_password, use_reset, with_reset_password}
use qa_lab.Auth.Sessions.{Refreshed, Refusal, refresh-Ends, refresh-replay}
use qa_lab.Auth.Login.{SignedIn, LoginRefusal, login-Ends, login-locks}
use qa_lab.Auth.Passwords.{reset_password-once}
use qa_lab.Tests.{ascii, db, draw, crypto, wrong_login, user_at, token_at}

invite_member-Ends_example :
    Ends
      (λ r d. Invited ascii 1 10 (codes "B@X") OrganizationRole.member db d r)
      (Unchanged db)
      (invite_member ascii 1 10 (codes "B@X") OrganizationRole.member db)
invite_member-Ends_example = invite_member-Ends ascii 1 10 (codes "B@X") OrganizationRole.member db

refresh-Ends_example :
    Ends
      (λ r d. Refreshed crypto 100 draw (codes "last") db d r)
      (Refusal crypto 100 (codes "last") db)
      (refresh crypto 100 draw (codes "last") db)
refresh-Ends_example = refresh-Ends crypto 100 draw (codes "last") db

-- The database that the accepted refresh leaves.
abbrev rotated_db : Db
rotated_db =
    insert_token (new_token crypto 100 draw 1 77) (set_tokens (λ t. t.id == 70) (rotated 100) db)

refresh-replay_example :
    (refresh crypto 200 draw (codes "last") rotated_db
      ≡ err (unauthorized refresh_reuse) (burn_family 200 77 rotated_db))
    × (refresh crypto 300 draw draw.raw (burn_family 200 77 rotated_db)
        ≡ err (unauthorized refresh_reuse) (burn_family 300 77 (burn_family 200 77 rotated_db)))
unfolding refresh issue_tokens find_token find_user ◌>>=◌
refresh-replay_example =
    refresh-replay crypto 100 200 300 draw draw draw (codes "last") db {r = draw.raw}
      {d = rotated_db} {t = token_at 70 4} refl refl refl

login-Ends_example :
    Ends
      (λ r d. SignedIn crypto ascii 100 draw wrong_login db d r)
      (LoginRefusal crypto ascii 100 wrong_login db)
      (login crypto ascii 100 draw wrong_login db)
login-Ends_example = login-Ends crypto ascii 100 draw wrong_login db

login-locks_example :
    (login crypto ascii 100 draw wrong_login db
      ≡ err
          (unauthorized invalid_credentials)
          (set_user 1 (count_failure 100 (user_at 1 (codes "a@x"))) db))
    × (login crypto ascii 500 draw wrong_login
          (set_user 1 (count_failure 100 (user_at 1 (codes "a@x"))) db)
        ≡ err
            (unauthorized account_locked)
            (set_user 1 (count_failure 100 (user_at 1 (codes "a@x"))) db))
unfolding find_by_email text_eq
login-locks_example =
    login-locks crypto ascii 100 500 draw draw wrong_login wrong_login db
      {user = user_at 1 (codes "a@x")} refl refl refl refl (omega arith) refl (omega arith)

-- The database that the reset leaves.
abbrev reset_db : Db
reset_db = revoke_user 100 1 (use_reset 100 60 (set_user 1 (with_reset_password 6) db))

reset_password-once_example :
    reset_password crypto 200 (codes "abc") (codes "again") reset_db
    ≡ err (bad_request invalid_reset) reset_db
unfolding reset_password find_reset ◌>>=◌
reset_password-once_example =
    reset_password-once crypto 100 200 (codes "abc") (codes "secret") (codes "again") db
      {d = reset_db} refl

abbrev key : ApiKey
key = record {
  id = 90;
  organization_id = 10;
  created_by_id = some 1;
  key_hash = 10;
  scopes = codes "scans:read" ∷ [];
  last_used_at = some 5;
  expires_at = none;
  revoked_at = none;
}

abbrev keyed : Db
keyed = record db { api_keys = key ∷ [] }

validate_raw_key-Ends_example :
    Ends
      (IsVerdict crypto.sha256 100 true (codes "qalab_good") keyed)
      (λ e d. ⊥)
      (validate_raw_key crypto.sha256 100 true (codes "qalab_good") keyed)
validate_raw_key-Ends_example =
    validate_raw_key-Ends crypto.sha256 100 true (codes "qalab_good") keyed

revoke-refused_example :
    validate_raw_key crypto.sha256 200 true
      (codes "qalab_good")
      (set_key 90 (revoked_key 100) keyed)
    ≡ ok none (set_key 90 (revoked_key 100) keyed)
unfolding revoke find_by_hash find_key find_member require_membership ◌>>=◌
revoke-refused_example =
    revoke-refused crypto.sha256 100 200 1 90 true (codes "qalab_good") keyed
      {d = set_key 90 (revoked_key 100) keyed} {k = key} refl refl refl
