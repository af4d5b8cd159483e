-- ===== src/Auth/Sessions.antt =====
-- Refresh tokens: rotation, detection of reuse, and revocation.
use qa_lab.Base.{
  ℕ, ◌≤◌, ◌≡◌, refl, sym, ap, ◌∙◌, inl, inr, Bool, true, false, ◌&&◌, ◌||◌, none, some, Text, arith,
  ◌==◌, if◌then◌else◌, is_some, Bool-cases, or_default,
}
use qa_lab.Base.Rows.{find-update_where, find-append_old, find-append_new, find-update_where_empty}
use qa_lab.Schema.{Db, User, RefreshToken}
use qa_lab.Program.{ok, err, Exception, unauthorized, refresh_reuse, after, ◌>>=◌}
use qa_lab.Program.Rules.{
  Ends, done, Ends-good, gets_rule, or_throw_rule, throw_if_rule, modify_rule, bind_ok, bind_err,
}
use qa_lab.Auth.{
  Crypto, Draw, find_user, find_token, set_tokens, insert_token, new_token, issue_tokens, is_live,
  revoked, rotated, burn_family, revoke_user, reject_reuse, refresh, logout_all, is_active,
}

-- What an accepted refresh has done: the token that was presented is spent, and its successor is
-- in the same family.
pub record Refreshed (c : Crypto) (now : ℕ) (draw : Draw) (raw : Text) (db db' : Db) (r : Text)
    : Type 0 where
  pub stored : RefreshToken
  pub found : find_token (c.sha256 raw) db.refresh_tokens ≡ some stored
  pub live : (stored.revoked_at ≡ none) × (stored.replaced_at ≡ none)
  pub fresh : now ≤ stored.expires_at
  pub user : User
  pub owner : find_user stored.user_id db.users ≡ some user
  pub active : is_active user.status ≡ true
  pub answer : r ≡ draw.raw
  pub written :
      db'
      ≡ insert_token
          (new_token c now draw user.id stored.family_id)
          (set_tokens (λ t. t.id == stored.id) (rotated now) db)
  pub spent : find_token (c.sha256 raw) db'.refresh_tokens ≡ some (rotated now stored)

-- A refused refresh writes nothing, unless the token had been spent or revoked, which revokes its
-- family; or the token is spent and the server has no key to sign a new one with.
pub data Refusal (c : Crypto) (now : ℕ) (raw : Text) (db : Db) : Exception → Db → Type 0 where
  plain : {e : Exception} {d : Db} → d ≡ db → Refusal c now raw db e d
  reuse :
      {d : Db} (stored : RefreshToken)
      → find_token (c.sha256 raw) db.refresh_tokens ≡ some stored
      → d ≡ burn_family now stored.family_id db
      → Refusal c now raw db (unauthorized refresh_reuse) d
  keyless : {e : Exception} {d : Db} → c.has_secret ≡ false → Refusal c now raw db e d

find_token-set_tokens :
    (hash : ℕ) (q : RefreshToken → Bool) (f : RefreshToken → RefreshToken) (db : Db)
    {t : RefreshToken}
    → ((x : RefreshToken) → (f x).token_hash ≡ x.token_hash)
    → find_token hash db.refresh_tokens ≡ some t
    → find_token hash (set_tokens q f db).refresh_tokens ≡ some (if q t then f t else t)
unfolding find_token
find_token-set_tokens hash q f db keep found =
    find-update_where (λ t. t.token_hash == hash) q f db.refresh_tokens
      (λ x. ap (λ h. h == hash) (keep x)) found

find_token-insert :
    (hash : ℕ) (x : RefreshToken) (db : Db) {t : RefreshToken}
    → find_token hash db.refresh_tokens ≡ some t
    → find_token hash (insert_token x db).refresh_tokens ≡ some t
unfolding find_token
find_token-insert hash x db found =
    find-append_old (λ t. t.token_hash == hash) db.refresh_tokens x found

-- An accepted refresh was made with a stored token that is neither revoked nor replaced nor
-- expired, whose user is active; it spends that token and stores its successor in the same family.
-- A refused one writes nothing, unless it was refused as reuse, which revokes what is live in the
-- token's family, or the server has no key to sign with.
pub refresh-Ends :
    (c : Crypto) (now : ℕ) (draw : Draw) (raw : Text) (db : Db)
    → Ends
        (λ r db'. Refreshed c now draw raw db db' r)
        (Refusal c now raw db)
        (refresh c now draw raw db)
unfolding refresh issue_tokens
refresh-Ends c now draw raw db = gets_rule _ _ db (
    or_throw_rule _ _ _ db (λ _. plain refl)
      λ stored found. elim (Bool-cases (is_some stored.revoked_at || is_some stored.replaced_at)) [
        | inl old ↦ bind_err (reject_reuse now stored) _ db (rw old) (reuse stored found refl)
        | inr live ↦ bind_ok (reject_reuse now stored) _ db (rw live) (
            throw_if_rule _ _ _ db (λ _. plain refl)
              λ fresh. gets_rule _ _ db (
                or_throw_rule _ _ _ db (λ _. plain refl)
                  λ user owner.
                    throw_if_rule _ _ _ db (λ _. plain refl)
                      λ active. modify_rule _ _ db (
                        throw_if_rule _ _ _ _ (λ e. keyless (ground (arith, e)))
                          λ _. modify_rule _ _ _ (
                            done _ _ (record {
                              stored = stored;
                              found = found;
                              live = ground (arith, live);
                              fresh = ground (arith, fresh);
                              user = user;
                              owner = owner;
                              active = ground (arith, active);
                              answer = refl;
                              written = refl;
                              spent =
                                  find_token-insert (c.sha256 raw) _
                                    (set_tokens (λ t. t.id == stored.id) (rotated now) db)
                                    (find_token-set_tokens (c.sha256 raw) (λ t. t.id == stored.id)
                                        (rotated now) db (λ x. refl) found
                                      ∙ ground arith);
                            })))))
      ])

-- A token whose row is revoked is refused as reuse, whoever presents it and whenever.
revoked-refused :
    (c : Crypto) (later : ℕ) (again : Draw) (raw : Text) (d : Db) {t : RefreshToken}
    → find_token (c.sha256 raw) d.refresh_tokens ≡ some t
    → is_some t.revoked_at ≡ true
    → refresh c later again raw d
      ≡ err (unauthorized refresh_reuse) (burn_family later t.family_id d)
unfolding refresh ◌>>=◌
revoked-refused c later again raw d found spent = rw (found, spent) refl

-- A token that a revocation by `q` reaches is refused afterwards.
set_tokens-refused :
    (c : Crypto) (q : RefreshToken → Bool) (now later : ℕ) (again : Draw) (raw : Text) (d : Db)
    {t : RefreshToken}
    → find_token (c.sha256 raw) d.refresh_tokens ≡ some t
    → (is_live t ≡ true → q t ≡ true)
    → refresh c later again raw (set_tokens q (revoked now) d)
      ≡ err
          (unauthorized refresh_reuse)
          (burn_family later t.family_id (set_tokens q (revoked now) d))
set_tokens-refused c q now later again raw d {t} found reached =
    let here = find_token-set_tokens (c.sha256 raw) q (revoked now) d (λ x. refl) found in
    elim (Bool-cases (q t)) [
      | inl e ↦
          revoked-refused c later again raw (set_tokens q (revoked now) d) {t = revoked now t}
            (here ∙ rw e refl) refl
      | inr e ↦
          revoked-refused c later again raw (set_tokens q (revoked now) d) {t = t}
            (here ∙ rw e refl) (ground (arith, reached, e))
    ]

-- After signing out everywhere, every refresh token that was stored for the user is refused as
-- reuse.
logout_all-refused :
    (c : Crypto) (now later : ℕ) (again : Draw) (raw : Text) (user_id : ℕ) (db : Db)
    {t : RefreshToken}
    → find_token (c.sha256 raw) db.refresh_tokens ≡ some t
    → t.user_id ≡ user_id
    → refresh c later again raw (after (logout_all now user_id db))
      ≡ err
          (unauthorized refresh_reuse)
          (burn_family later t.family_id (after (logout_all now user_id db)))
unfolding logout_all
logout_all-refused c now later again raw user_id db {t} found mine =
    set_tokens-refused c (λ t. t.user_id == user_id && is_live t) now later again raw db found
      λ live. ground (arith, mine, live)

-- The token that a refresh issues is stored, in the family of the one it replaces.
successor_stored :
    (c : Crypto) (now : ℕ) (draw : Draw) (raw : Text) (db : Db) {r : Text} {d : Db}
    → find_token (c.sha256 draw.raw) db.refresh_tokens ≡ none
    → (g : Refreshed c now draw raw db d r)
    → find_token (c.sha256 draw.raw) d.refresh_tokens
      ≡ some (new_token c now draw g.user.id g.stored.family_id)
unfolding find_token
successor_stored c now draw raw db new g =
    ap (λ x. find_token (c.sha256 draw.raw) x.refresh_tokens) g.written
    ∙ find-append_new (λ t. t.token_hash == c.sha256 draw.raw) _ _
        (find-update_where_empty (λ t. t.token_hash == c.sha256 draw.raw) (λ t. t.id == g.stored.id)
          (rotated now) db.refresh_tokens (λ x. refl) new)
        (ground arith)

-- After an accepted refresh whose new token's hash was not stored before, the old token is refused
-- as reuse when it is presented again and its family is revoked, and the token that the refresh
-- had issued is refused from then on.
pub refresh-replay :
    (c : Crypto) (now later last : ℕ) (draw again third : Draw) (raw : Text) (db : Db) {r : Text}
    {d : Db} {t : RefreshToken}
    → refresh c now draw raw db ≡ ok r d
    → find_token (c.sha256 raw) db.refresh_tokens ≡ some t
    → find_token (c.sha256 draw.raw) db.refresh_tokens ≡ none
    → (refresh c later again raw d
        ≡ err (unauthorized refresh_reuse) (burn_family later t.family_id d))
      × (refresh c last third draw.raw (burn_family later t.family_id d)
          ≡ err
              (unauthorized refresh_reuse)
              (burn_family last t.family_id (burn_family later t.family_id d)))
refresh-replay c now later last draw again third raw db {r} {d} {t} e found new =
    let g : Refreshed c now draw raw db d r = Ends-good _ (refresh-Ends c now draw raw db) e in
    let same : g.stored ≡ t = ap (λ o. or_default o t) (sym g.found ∙ found) in
    let kept : find_token (c.sha256 raw) d.refresh_tokens ≡ some (rotated now t) =
      g.spent ∙ ap (λ x. some (rotated now x)) same in
    let family : g.stored.family_id ≡ t.family_id = ap (λ x. x.family_id) same in
    (
      revoked-refused c later again raw d kept refl,
      set_tokens-refused c (λ x. x.family_id == t.family_id && is_live x) later last third draw.raw
          d
          (successor_stored c now draw raw db new g
            ∙ ap (λ f. some (new_token c now draw g.user.id f)) family)
          λ live. ground arith,
    )

-- Whatever else a call has written, once it has revoked the user's tokens they are refused.
pub revoke_user-refused :
    (c : Crypto) (now later : ℕ) (again : Draw) (raw : Text) (user_id : ℕ) (d : Db)
    {t : RefreshToken}
    → find_token (c.sha256 raw) d.refresh_tokens ≡ some t
    → t.user_id ≡ user_id
    → refresh c later again raw (revoke_user now user_id d)
      ≡ err (unauthorized refresh_reuse) (burn_family later t.family_id (revoke_user now user_id d))
revoke_user-refused c now later again raw user_id d {t} found mine =
    set_tokens-refused c (λ t. t.user_id == user_id && is_live t) now later again raw d found
      λ live. ground (arith, mine, live)
