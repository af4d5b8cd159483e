-- ===== src/Organizations/Access.antt =====
-- `requireMembership`, on which every other service rests its access control.
use qa_lab.Base.{
  ℕ, ◌≡◌, ◌⊎◌, inl, inr, false, ◌&&◌, List, none, some, arith, ◌==◌, Option-cases, Bool-cases,
}
use qa_lab.Base.Rows.{find_passes}
use qa_lab.Schema.{Db, OrganizationMember, OrganizationRole}
use qa_lab.Program.{Action, ◌>>=◌, ok, err, Exception, forbidden, not_a_member, requires_role}
use qa_lab.Program.Rules.{Ends, bind_ok, bind_err}
use qa_lab.Organizations.{find_member, role_refused, require_membership}

-- The user's role in the organization allows what asks for one of `roles`.
pub record HasAccess (db : Db) (user_id organization_id : ℕ) (roles : List OrganizationRole)
    (m : OrganizationMember) : Type 0 where
  pub found : find_member organization_id user_id db.members ≡ some m
  pub allowed : role_refused roles m.role ≡ false

module _ (user_id organization_id : ℕ) (roles : List OrganizationRole) (db : Db) where
  -- How a check of membership ends: it never writes.
  pub require_membership-cases :
      ((e : Exception) × (require_membership user_id organization_id roles db ≡ err e db))
      ⊎ ((m : OrganizationMember) × (require_membership user_id organization_id roles db ≡ ok m db)
          × HasAccess db user_id organization_id roles m)
  unfolding require_membership ◌>>=◌
  require_membership-cases = elim (Option-cases (find_member organization_id user_id db.members)) [
    | inl e ↦ inl (forbidden not_a_member, rw (e, require_membership))
    | inr (m, e) ↦ elim (Bool-cases (role_refused roles m.role)) [
      | inl no_role ↦ inl (forbidden requires_role, rw (e, no_role, require_membership))
      | inr fine ↦ inr (m, rw (e, fine, require_membership), record { found = e; allowed = fine })
    ]
  ]

  -- An outsider is turned away, whatever roles are asked for.
  pub require_membership_outsider :
      find_member organization_id user_id db.members ≡ none
      → require_membership user_id organization_id roles db ≡ err (forbidden not_a_member) db
  unfolding require_membership ◌>>=◌
  require_membership_outsider h = rw (h, require_membership)

  pub require_membership_allowed :
      {m : OrganizationMember}
      → HasAccess db user_id organization_id roles m
      → require_membership user_id organization_id roles db ≡ ok m db
  unfolding require_membership ◌>>=◌
  require_membership_allowed a = rw (a.found, a.allowed, require_membership)

  -- To prove a promise of what runs behind the check.
  pub require_membership_rule :
      {B : Type 0} {Good : B → Db → Type 0} {Bad : Exception → Db → Type 0}
      (f : OrganizationMember → Action B)
      → ((e : Exception) → Bad e db)
      → ((m : OrganizationMember)
          → HasAccess db user_id organization_id roles m
          → Ends Good Bad (f m db))
      → Ends Good Bad ((require_membership user_id organization_id roles >>= f) db)
  require_membership_rule f refused granted = elim require_membership-cases [
    | inl (e, q) ↦ bind_err _ f db q (refused e)
    | inr (m, q, a) ↦ bind_ok _ f db q (granted m a)
  ]

-- The row found is of that user in that organization.
pub find_member-keys :
    (organization_id user_id : ℕ) (ms : List OrganizationMember) {m : OrganizationMember}
    → find_member organization_id user_id ms ≡ some m
    → (m.organization_id ≡ organization_id) × (m.user_id ≡ user_id)
unfolding find_member
find_member-keys organization_id user_id ms {m} h =
    ground
      (arith, find_passes (λ k. k.organization_id == organization_id && k.user_id == user_id) ms h)
