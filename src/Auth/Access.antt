-- ===== src/Auth/Access.antt =====
-- api/dependencies.py: the user behind an access token, and the role that a request asks for.
use procuresignal.Prelude.{
  Option, if◌then◌else◌, inl, inr, ltb, none, not, some, str_eq, ℕ, ◌==◌, ◌||◌, ◌⊎◌,
}
use procuresignal.Auth.Store.{
  AccessClaims, Organization, Role, Store, User, admin, first_membership, member, owner, viewer,
}
use procuresignal.Prelude.Table.{find?}

pub data Denied : Type 0 where
  unauthenticated forbidden : Denied

-- `resolve_access_token`, after the token has been decoded
unfoldable pub resolve_access_token : AccessClaims → Store → Option (User × Organization × Role)
resolve_access_token claims st = elim (find? (λ u. str_eq u.public_id claims.subject) st.users) [
  | none ↦ none
  | some user ↦
      elim (first_membership (λ o. str_eq o.public_id claims.organization) user.id st.organizations
        st.memberships) [
          | none ↦ none
          | some (m, organization) ↦
              if not user.is_active || not (user.token_version == claims.token_version)
              then none
              else some (user, organization, m.role)
        ]
]

abbrev pub rank : Role → ℕ
rank owner = 0
rank admin = 1
rank member = 2
rank viewer = 3

-- `get_current_user` and `require_role`
unfoldable pub require_role : Role → AccessClaims → Store → Denied ⊎ (User × Organization × Role)
unfolding resolve_access_token
require_role minimum claims st = elim (resolve_access_token claims st) [
  | none ↦ inl unauthenticated
  | some (user, organization, role) ↦
      if ltb (rank minimum) (rank role) then inl forbidden else inr (user, organization, role)
]
