-- ===== src/Auth/Sessions/Changes.antt =====
-- shared/procuresignal/auth/service.py: how each request changes the table of refresh tokens.
use mathlib.Core.Path.{subst}
use procuresignal.Prelude.{
  Bool, Bool-cases, List, Option, String, [], arith, false, if◌then◌else◌, inl, inr, leb, none, not,
  refl, some, sym, true, ℕ, ◌||◌, ◌∷◌, ◌≡◌,
}
use procuresignal.Auth.Sessions.{
  authenticate, issue, new_token, presented_token, revoke_all_sessions, revoke_family, revoke_seen,
  revoke_token, rotate_member, rotate_refresh_token, rotate_seen, rotate_user, sign_in_member,
  sign_in_user, verify_password, with_email,
}
use procuresignal.Auth.Sessions.Tokens.{
  Change, Request, both, cut, grown, kept, logout, refresh, revoke_all, sign_in,
}
use procuresignal.Auth.Store.{
  Answer, Fresh, Membership, Organization, RefreshToken, Role, Store, User, invalid_credentials,
  is_live, issued, membership_of, user_of, with_hash,
}
use procuresignal.Prelude.Table.{find?, find?-holds}

module _ (hash : String → String) (matches : String → String → Bool) where
  -- A request, as its transaction leaves the store, and whether it signs somebody in.
  abbrev pub is_issued : Answer → Bool
  is_issued (issued s) = true
  is_issued _ = false

  unfoldable pub serve : Request → Store → Store × Bool
  unfolding authenticate rotate_refresh_token revoke_token revoke_all_sessions
  serve (sign_in address password fresh now) st =
      let (st', answer) = authenticate hash matches address password fresh now st in
      (st', is_issued answer)
  serve (refresh presented fresh now) st =
      let (st', answer) = rotate_refresh_token hash presented fresh now st in
      (st', is_issued answer)
  serve (logout presented now) st = ((revoke_token hash presented now st).0, false)
  serve (revoke_all id now) st = (revoke_all_sessions id now st, false)

  unfoldable pub serve_all : List Request → Store → Store
  unfolding serve
  serve_all [] st = st
  serve_all (r ∷ rs) st = serve_all rs (serve r st).0

  issue-Change :
      (P : RefreshToken → Type 0) (fresh : Fresh) (user : User) (organization : Organization)
      (role : Role) (family : String) (now : ℕ) (old st : Store)
      → P (new_token hash fresh user.id family now)
      → Change P old.tokens st.tokens
      → Change P old.tokens (issue hash fresh user organization role family now old st).0.tokens
  unfolding issue
  issue-Change P fresh user organization role family now old st k c =
      fits (find? (with_hash (hash fresh.plaintext)) st.tokens) refl
    where
      fits :
          (o : Option RefreshToken)
          → find? (with_hash (hash fresh.plaintext)) st.tokens ≡ o
          → Change P old.tokens (issue hash fresh user organization role family now old st).0.tokens
      fits none e = rw e (
          both old.tokens st.tokens _ c
            (grown (new_token hash fresh user.id family now) st.tokens e k))
      fits (some t) e = rw e (kept old.tokens)

  sign_in_member-Change :
      (P : RefreshToken → Type 0) (found : Option (Membership × Organization)) (user : User)
      (fresh : Fresh) (now : ℕ) (st : Store)
      → P (new_token hash fresh user.id fresh.family now)
      → Change P st.tokens (sign_in_member hash found user fresh now st).0.tokens
  unfolding sign_in_member
  sign_in_member-Change P none user fresh now st k = kept st.tokens
  sign_in_member-Change P (some (m, organization)) user fresh now st k =
      issue-Change P fresh user organization m.role fresh.family now st _ k (kept st.tokens)

  sign_in_user-Change :
      (P : RefreshToken → Type 0) (found : Option User) (password : String) (fresh : Fresh)
      (now : ℕ) (st : Store)
      → ((user : User) → found ≡ some user → P (new_token hash fresh user.id fresh.family now))
      → Change P st.tokens (sign_in_user hash matches found password fresh now st).0.tokens
  unfolding sign_in_user
  sign_in_user-Change P none password fresh now st k = kept st.tokens
  sign_in_user-Change P (some user) password fresh now st k =
      elim (Bool-cases
        (not (verify_password hash matches password user.password_hash) || not user.is_active)) [
          | inl wrong ↦ rw (wrong, sign_in_user) (kept st.tokens)
          | inr right ↦
              rw (right, sign_in_user)
                (sign_in_member-Change P (membership_of user.id st) user fresh now st (k user refl))
        ]

  rotate_member-Change :
      (P : RefreshToken → Type 0) (found : Option (Membership × Organization)) (user : User)
      (t : RefreshToken) (fresh : Fresh) (now : ℕ) (st : Store)
      → P (new_token hash fresh user.id t.family_id now)
      → Change P st.tokens (rotate_member hash found user t fresh now st).0.tokens
  unfolding rotate_member
  rotate_member-Change P none user t fresh now st k = kept st.tokens
  rotate_member-Change P (some (m, organization)) user t fresh now st k =
      issue-Change P fresh user organization m.role t.family_id now st _ k (cut _ now st.tokens)

  rotate_user-Change :
      (P : RefreshToken → Type 0) (found : Option User) (t : RefreshToken) (fresh : Fresh) (now : ℕ)
      (st : Store)
      → ((user : User) → found ≡ some user → P (new_token hash fresh user.id t.family_id now))
      → Change P st.tokens (rotate_user hash found t fresh now st).0.tokens
  unfolding rotate_user
  rotate_user-Change P none t fresh now st k = kept st.tokens
  rotate_user-Change P (some user) t fresh now st k = by_flag user.is_active
    where
      by_flag :
          (active : Bool)
          → Change P st.tokens
              (if active
                then rotate_member hash (membership_of user.id st) user t fresh now st
                else (st, invalid_credentials)).0.tokens
      by_flag true =
          rotate_member-Change P (membership_of user.id st) user t fresh now st (k user refl)
      by_flag false = kept st.tokens

  rotate_seen-Change :
      (P : RefreshToken → Type 0) (seen : Option RefreshToken) (fresh : Fresh) (now : ℕ)
      (st : Store)
      → ((t : RefreshToken)
          → seen ≡ some t
          → is_live t ≡ true
          → P (new_token hash fresh t.user_id t.family_id now))
      → Change P st.tokens (rotate_seen hash seen fresh now st).0.tokens
  unfolding rotate_seen revoke_family
  rotate_seen-Change P none fresh now st k = kept st.tokens
  rotate_seen-Change P (some t) fresh now st k = elim (Bool-cases (is_live t)) [
    | inr spent ↦ rw (spent, rotate_seen) (cut _ now st.tokens)
    | inl live ↦ elim (Bool-cases (leb t.expires_at now)) [
      | inl late ↦ rw (live, late, rotate_seen) (kept st.tokens)
      | inr timely ↦
          rw (live, timely, rotate_seen)
            (rotate_user-Change P (find? (user_of t.user_id) st.users) t fresh now st (λ user e.
              subst (λ (id : ℕ). P (new_token hash fresh id t.family_id now)) (sym (same_id user e))
                (k t refl live)))
    ]
  ]
    where
      same_id : (user : User) → find? (user_of t.user_id) st.users ≡ some user → user.id ≡ t.user_id
      same_id user e = ground (arith, e, find?-holds (user_of t.user_id) st.users)

  revoke_seen-Change :
      (P : RefreshToken → Type 0) (seen : Option RefreshToken) (now : ℕ) (st : Store)
      → Change P st.tokens (revoke_seen hash seen now st).0.tokens
  unfolding revoke_seen
  revoke_seen-Change P none now st = kept st.tokens
  revoke_seen-Change P (some t) now st = elim (Bool-cases (is_live t)) [
    | inl live ↦ rw (live, revoke_seen) (cut _ now st.tokens)
    | inr spent ↦ rw (spent, revoke_seen) (kept st.tokens)
  ]

  -- A token is added by a sign-in, or to the user and the family of a live token.
  abbrev pub Adds : (RefreshToken → Type 0) → Request → Store → Type 0
  Adds P (sign_in address password fresh now) st =
      (user : User)
      → with_email hash address st ≡ some user
      → P (new_token hash fresh user.id fresh.family now)
  Adds P (refresh presented fresh now) st =
      (t : RefreshToken)
      → presented_token hash presented st ≡ some t
      → is_live t ≡ true
      → P (new_token hash fresh t.user_id t.family_id now)
  Adds P (logout presented now) st = Unit
  Adds P (revoke_all id now) st = Unit

  pub serve-Change :
      (P : RefreshToken → Type 0) (r : Request) (st : Store)
      → Adds P r st
      → Change P st.tokens (serve r st).0.tokens
  unfolding serve
  serve-Change P (sign_in address password fresh now) st k =
      unfold authenticate in
      sign_in_user-Change P (with_email hash address st) password fresh now st k
  serve-Change P (refresh presented fresh now) st k =
      unfold rotate_refresh_token in
      rotate_seen-Change P (presented_token hash presented st) fresh now st k
  serve-Change P (logout presented now) st k =
      unfold revoke_token in revoke_seen-Change P (presented_token hash presented st) now st
  serve-Change P (revoke_all id now) st k = unfold revoke_all_sessions in cut _ now st.tokens
