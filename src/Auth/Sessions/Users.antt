-- ===== src/Auth/Sessions/Users.antt =====
-- shared/procuresignal/auth/service.py: what requests can do to the table of users.
-- A property of the table that both statements on it keep is kept by every request.
use procuresignal.Prelude.{
  Bool, Bool-cases, List, Option, String, false, if◌then◌else◌, inl, inr, is_some, leb, none, not,
  some, true, ℕ, ◌||◌,
}
use procuresignal.Auth.Sessions.{
  authenticate, issue, presented_token, revoke_all_sessions, revoke_family, revoke_seen,
  revoke_token, rotate_member, rotate_refresh_token, rotate_seen, rotate_user, sign_in_member,
  sign_in_user, verify_password, with_email,
}
use procuresignal.Auth.Sessions.Changes.{serve}
use procuresignal.Auth.Sessions.Tokens.{Request, logout, refresh, revoke_all, sign_in}
use procuresignal.Auth.Store.{
  Fresh, Membership, Organization, RefreshToken, Role, Store, User, invalid_credentials, is_live,
  membership_of, outdated, signed_in, user_of, with_hash,
}
use procuresignal.Prelude.Table.{find?, update_where}

module _ (hash : String → String) (matches : String → String → Bool) (F : List User → Type 0)
    (sign_in-F : (id now : ℕ) (users : List User)
      → F users
      → F (update_where (user_of id) (signed_in now) users))
    (revoke_all-F : (id : ℕ) (users : List User)
      → F users
      → F (update_where (user_of id) outdated users)) where
  issue-F :
      (fresh : Fresh) (user : User) (organization : Organization) (role : Role) (family : String)
      (now : ℕ) (old st : Store)
      → F old.users
      → F st.users
      → F (issue hash fresh user organization role family now old st).0.users
  unfolding issue
  issue-F fresh user organization role family now old st g h =
      elim (Bool-cases (is_some (find? (with_hash (hash fresh.plaintext)) st.tokens))) [
        | inl stored ↦ rw (stored, issue) g
        | inr unseen ↦ rw (unseen, issue) h
      ]

  sign_in_user-F :
      (found : Option User) (password : String) (fresh : Fresh) (now : ℕ) (st : Store)
      → F st.users
      → F (sign_in_user hash matches found password fresh now st).0.users
  unfolding sign_in_user sign_in_member
  sign_in_user-F none password fresh now st h = h
  sign_in_user-F (some user) password fresh now st h =
      elim (Bool-cases
        (not (verify_password hash matches password user.password_hash) || not user.is_active)) [
          | inl wrong ↦ rw (wrong, sign_in_user) h
          | inr right ↦ rw (right, sign_in_user) (by_member (membership_of user.id st))
        ]
    where
      by_member :
          (found : Option (Membership × Organization))
          → F (sign_in_member hash found user fresh now st).0.users
      by_member none = h
      by_member (some (m, organization)) =
          issue-F fresh user organization m.role fresh.family now st _ h
            (sign_in-F user.id now st.users h)

  rotate_user-F :
      (found : Option User) (t : RefreshToken) (fresh : Fresh) (now : ℕ) (st : Store)
      → F st.users
      → F (rotate_user hash found t fresh now st).0.users
  unfolding rotate_user rotate_member
  rotate_user-F none t fresh now st h = h
  rotate_user-F (some user) t fresh now st h = by_flag user.is_active
    where
      by_member :
          (found : Option (Membership × Organization))
          → F (rotate_member hash found user t fresh now st).0.users
      by_member none = h
      by_member (some (m, organization)) =
          issue-F fresh user organization m.role t.family_id now st _ h h

      by_flag :
          (active : Bool)
          → F
              (if active
                then rotate_member hash (membership_of user.id st) user t fresh now st
                else (st, invalid_credentials)).0.users
      by_flag true = by_member (membership_of user.id st)
      by_flag false = h

  rotate_seen-F :
      (seen : Option RefreshToken) (fresh : Fresh) (now : ℕ) (st : Store)
      → F st.users
      → F (rotate_seen hash seen fresh now st).0.users
  unfolding rotate_seen revoke_family
  rotate_seen-F none fresh now st h = h
  rotate_seen-F (some t) fresh now st h = elim (Bool-cases (is_live t)) [
    | inr spent ↦ rw (spent, rotate_seen) h
    | inl live ↦ elim (Bool-cases (leb t.expires_at now)) [
      | inl late ↦ rw (live, late, rotate_seen) h
      | inr timely ↦
          rw (live, timely, rotate_seen)
            (rotate_user-F (find? (user_of t.user_id) st.users) t fresh now st h)
    ]
  ]

  revoke_seen-F :
      (seen : Option RefreshToken) (now : ℕ) (st : Store)
      → F st.users
      → F (revoke_seen hash seen now st).0.users
  unfolding revoke_seen
  revoke_seen-F none now st h = h
  revoke_seen-F (some t) now st h = elim (Bool-cases (is_live t)) [
    | inl live ↦ rw (live, revoke_seen) h
    | inr spent ↦ rw (spent, revoke_seen) h
  ]

  pub serve-F : (r : Request) (st : Store) → F st.users → F (serve hash matches r st).0.users
  unfolding serve
  serve-F (sign_in address password fresh now) st h =
      unfold authenticate in sign_in_user-F (with_email hash address st) password fresh now st h
  serve-F (refresh presented fresh now) st h =
      unfold rotate_refresh_token in
      rotate_seen-F (presented_token hash presented st) fresh now st h
  serve-F (logout presented now) st h =
      unfold revoke_token in revoke_seen-F (presented_token hash presented st) now st h
  serve-F (revoke_all id now) st h = unfold revoke_all_sessions in revoke_all-F id st.users h
