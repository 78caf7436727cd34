-- ===== src/Auth/Sessions/Race.antt =====
-- shared/procuresignal/auth/service.py: two rotations that read the same token.
-- `rotate_refresh_token` reads the token and writes it later, by its primary key, so another request
-- may have read it meanwhile.
use mathlib.Core.Path.{subst}
use procuresignal.Prelude.{
  Bool, Bool-cases, List, Option, String, arith, false, if◌then◌else◌, inl, inr, is_some, leb, none,
  refl, some, sym, true, ℕ, ◌<◌, ◌≡◌,
}
use procuresignal.Auth.Sessions.{
  issue, presented_token, rotate_member, rotate_refresh_token, rotate_seen, rotate_user,
}
use procuresignal.Auth.Sessions.Changes.{is_issued}
use procuresignal.Auth.Store.{
  Fresh, Membership, Organization, RefreshToken, Role, Store, User, invalid_credentials, is_live,
  membership_of, revoked, user_of, with_hash,
}
use procuresignal.Prelude.Table.{find?, find?-update_where}

abbrev Same : Store → Store → Type 0
Same st st' =
    (st'.users ≡ st.users)
    × (st'.organizations ≡ st.organizations)
    × (st'.memberships ≡ st.memberships)

module _ (hash : String → String) (matches : String → String → Bool) where
  issue-Same :
      (base : Store) (fresh : Fresh) (user : User) (organization : Organization) (role : Role)
      (family : String) (now : ℕ) (old st : Store)
      → Same base old
      → Same base st
      → Same base (issue hash fresh user organization role family now old st).0
  unfolding issue
  issue-Same base fresh user organization role family now old st g h =
      elim (Bool-cases (is_some (find? (with_hash (hash fresh.plaintext)) st.tokens))) [
        | inl stored ↦ rw (stored, issue) g
        | inr unseen ↦ rw (unseen, issue) h
      ]

  rotate_user-Same :
      (found : Option User) (t : RefreshToken) (fresh : Fresh) (now : ℕ) (st : Store)
      → Same st (rotate_user hash found t fresh now st).0
  unfolding rotate_user rotate_member
  rotate_user-Same none t fresh now st = (refl, refl, refl)
  rotate_user-Same (some user) t fresh now st = by_flag user.is_active
    where
      by_member :
          (found : Option (Membership × Organization))
          → Same st (rotate_member hash found user t fresh now st).0
      by_member none = (refl, refl, refl)
      by_member (some (m, organization)) =
          issue-Same st fresh user organization m.role t.family_id now st _ (refl, refl, refl)
            (refl, refl, refl)

      by_flag :
          (active : Bool)
          → Same st
              (if active
                then rotate_member hash (membership_of user.id st) user t fresh now st
                else (st, invalid_credentials)).0
      by_flag true = by_member (membership_of user.id st)
      by_flag false = (refl, refl, refl)

  rotate_member-again :
      (found : Option (Membership × Organization)) (user : User) (t : RefreshToken)
      (fresh fresh' : Fresh) (now now' : ℕ) (st st' : Store)
      → is_issued hash matches (rotate_member hash found user t fresh now st).1 ≡ true
      → find? (with_hash (hash fresh'.plaintext)) st'.tokens ≡ none
      → is_issued hash matches (rotate_member hash found user t fresh' now' st').1 ≡ true
  unfolding rotate_member issue
  rotate_member-again none user t fresh fresh' now now' st st' ok e = ground (arith, ok)
  rotate_member-again (some (m, organization)) user t fresh fresh' now now' st st' ok e = ground (
    arith,
    e,
    find?-update_where (with_hash (hash fresh'.plaintext)) (with_hash t.token_hash) (revoked now')
        st'.tokens (λ r. refl),
  )

  rotate_user-again :
      (found : Option User) (t : RefreshToken) (fresh fresh' : Fresh) (now now' : ℕ)
      (st st' : Store)
      → Same st st'
      → is_issued hash matches (rotate_user hash found t fresh now st).1 ≡ true
      → find? (with_hash (hash fresh'.plaintext)) st'.tokens ≡ none
      → is_issued hash matches (rotate_user hash found t fresh' now' st').1 ≡ true
  unfolding rotate_user
  rotate_user-again none t fresh fresh' now now' st st' same ok e = ground (arith, ok)
  rotate_user-again (some user) t fresh fresh' now now' st st' same ok e = ground (
    arith,
    ok,
    same,
    rotate_member-again (membership_of user.id st) user t fresh fresh' now now' st st',
    e,
  )

  rotate_seen-rotate_user :
      (t : RefreshToken) (fresh : Fresh) (now : ℕ) (st : Store)
      → is_issued hash matches (rotate_seen hash (some t) fresh now st).1 ≡ true
      → (is_live t ≡ true)
        × (rotate_seen hash (some t) fresh now st
            ≡ rotate_user hash (find? (user_of t.user_id) st.users) t fresh now st)
  unfolding rotate_seen
  rotate_seen-rotate_user t fresh now st ok = elim (Bool-cases (is_live t)) [
    | inr spent ↦ ground (arith, spent, ok)
    | inl live ↦ elim (Bool-cases (leb t.expires_at now)) [
      | inl late ↦ ground (arith, live, late, ok)
      | inr timely ↦ (live, ground (arith, live, timely))
    ]
  ]

  rotate_seen-later :
      (t : RefreshToken) (fresh : Fresh) (now : ℕ) (st : Store)
      → is_live t ≡ true
      → now < t.expires_at
      → is_issued hash matches
          (rotate_user hash (find? (user_of t.user_id) st.users) t fresh now st).1
        ≡ true
      → is_issued hash matches (rotate_seen hash (some t) fresh now st).1 ≡ true
  unfolding rotate_seen
  rotate_seen-later t fresh now st live early ok = ground (arith, live, early, ok)

  -- Two rotations that have both read a token before either of them writes it are both accepted: if
  -- the first is, and the token has not expired, the second is too, whatever the first has written.
  pub concurrent_exchanges :
      (presented : String) (t : RefreshToken) (fresh fresh' : Fresh) (now now' : ℕ) (st : Store)
      → presented_token hash presented st ≡ some t
      → is_issued hash matches (rotate_refresh_token hash presented fresh now st).1 ≡ true
      → now' < t.expires_at
      → find?
          (with_hash (hash fresh'.plaintext))
          (rotate_refresh_token hash presented fresh now st).0.tokens
        ≡ none
      → is_issued hash matches
          (rotate_seen hash
            (some t)
            fresh'
            now'
            (rotate_refresh_token hash presented fresh now st).0).1
        ≡ true
  unfolding rotate_refresh_token
  concurrent_exchanges presented t fresh fresh' now now' st e ok early unused =
      let found = find? (user_of t.user_id) st.users in
      let (live, as_user) = rotate_seen-rotate_user t fresh now st (ground (arith, e, ok)) in
      let same : Same st (rotate_refresh_token hash presented fresh now st).0 =
        ground (arith, e, as_user, rotate_user-Same found t fresh now st) in
      rotate_seen-later t fresh' now' (rotate_refresh_token hash presented fresh now st).0 live
        early
        (subst
          (λ (users : List User).
            is_issued hash matches
              (rotate_user hash (find? (user_of t.user_id) users) t fresh' now'
                (rotate_refresh_token hash presented fresh now st).0).1
            ≡ true)
          (sym same.0)
          (rotate_user-again found t fresh fresh' now now' st _ same
            (ground (arith, e, ok, as_user)) unused))
