-- ===== src/Organizations/Invite.antt =====
-- Invitations: who may invite, and what an invitation writes (`inviteMember`).
use qa_lab.Base.{ℕ, ◌≡◌, refl, ◌≢◌, false, ◌&&◌, List, [], ◌∷◌, ◌++◌, none, some, arith, ◌==◌, Text}
use qa_lab.Base.Texts.{text_eq}
use qa_lab.Base.Rows.{find}
use qa_lab.Schema.{Db, OrganizationMember, OrganizationRole, User}
use qa_lab.Program.{after, TextOps}
use qa_lab.Organizations.{find_member, invite_member, InviteResult, add_member}
use qa_lab.Organizations.Access.{HasAccess, require_membership_rule}
use qa_lab.Program.Rules.{
  Ends, done, Ends-after, Unchanged, or_throw_rule, throw_if_rule, gets_rule, modify_rule,
}

-- No user has two rows in one organization: the table's unique index.
abbrev pub IsUnique : List OrganizationMember → Type 0
IsUnique [] = Unit
IsUnique (m ∷ ms) = (find_member m.organization_id m.user_id ms ≡ none) × IsUnique ms

find_member-append :
    (o u : ℕ) (ms : List OrganizationMember) (k : OrganizationMember)
    → find_member o u ms ≡ none
    → (k.organization_id == o && k.user_id == u) ≡ false
    → find_member o u (ms ++ k ∷ []) ≡ none
unfolding find_member
find_member-append o u [] k h e = ground arith
find_member-append o u (m ∷ ms) k h e = ground (arith, find_member-append o u ms k)

append-IsUnique :
    (ms : List OrganizationMember) (k : OrganizationMember)
    → IsUnique ms
    → find_member k.organization_id k.user_id ms ≡ none
    → IsUnique (ms ++ k ∷ [])
unfolding find_member
append-IsUnique [] k h e = (refl, tt)
append-IsUnique (m ∷ ms) k h e =
    ground
      (arith, append-IsUnique ms k h.1, find_member-append m.organization_id m.user_id ms k h.0)

-- What an accepted invitation has done.
pub record Invited (js : TextOps) (actor_id organization_id : ℕ) (email : Text)
    (role : OrganizationRole) (db db' : Db) (r : InviteResult) : Type 0 where
  pub actor : OrganizationMember
  pub actor_role :
      HasAccess db actor_id organization_id
        (OrganizationRole.owner ∷ OrganizationRole.admin ∷ [])
        actor
  pub not_owner : role ≢ OrganizationRole.owner
  pub user : User
  pub registered : find (λ u. text_eq u.email (js.trim (js.lower_case email))) db.users ≡ some user
  pub was_outside : find_member organization_id user.id db.members ≡ none
  pub written :
      db'
      ≡ add_member (record { organization_id = organization_id; user_id = user.id; role = role }) db
  pub answer : r.user_id ≡ user.id

-- An invitation that is accepted was made by an OWNER or ADMIN of the organization, does not
-- confer OWNER, is for a registered user who was no member, and adds exactly that user's
-- membership. One that is refused writes nothing.
pub invite_member-Ends :
    (js : TextOps) (actor_id organization_id : ℕ) (email : Text) (role : OrganizationRole) (db : Db)
    → Ends
        (λ r db'. Invited js actor_id organization_id email role db db' r)
        (Unchanged db)
        (invite_member js actor_id organization_id email role db)
unfolding invite_member
invite_member-Ends js actor_id organization_id email role db =
    require_membership_rule actor_id organization_id _ db _ (λ e. refl)
      λ m access.
        throw_if_rule _ _ _ db (λ _. refl)
          λ not_owner. gets_rule _ _ db (
            or_throw_rule _ _ _ db (λ _. refl)
              λ user registered. gets_rule _ _ db (
                throw_if_rule _ _ _ db (λ _. refl)
                  λ outside. modify_rule _ _ db (
                    done _ _ (record {
                      actor = m;
                      actor_role = access;
                      not_owner = λ e. ground (arith, not_owner, e);
                      user = user;
                      registered = registered;
                      was_outside = ground (arith, outside);
                      written = refl;
                      answer = refl;
                    }))))

-- If no user has two memberships in one organization, then none has after any invitation, accepted
-- or refused.
invite_member-IsUnique :
    (js : TextOps) (actor_id organization_id : ℕ) (email : Text) (role : OrganizationRole) (db : Db)
    → IsUnique db.members
    → IsUnique (after (invite_member js actor_id organization_id email role db)).members
invite_member-IsUnique js actor_id organization_id email role db h =
    Ends-after (λ d. IsUnique d.members)
      (invite_member-Ends js actor_id organization_id email role db)
      (λ r d v. rw v.written (append-IsUnique db.members _ h v.was_outside)) (λ e d v. rw v h)
