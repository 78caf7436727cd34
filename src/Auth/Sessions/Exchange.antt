-- ===== src/Auth/Sessions/Exchange.antt =====
-- shared/procuresignal/auth/service.py: a rotation that is accepted revokes the token it was given.
use procuresignal.Prelude.{
  Bool, List, Option, String, arith, eq_iff, none, refl, some, true, ℕ, ◌≡◌,
}
use procuresignal.Auth.Sessions.{issue, rotate_member, rotate_seen, rotate_user}
use procuresignal.Auth.Sessions.Changes.{is_issued}
use procuresignal.Auth.Sessions.Tokens.{gone, gone-append}
use procuresignal.Auth.Store.{
  Fresh, Membership, Organization, RefreshToken, Role, Store, User, membership_of, revoked, user_of,
  with_hash,
}
use procuresignal.Prelude.Table.{find?, find?-update_where, update_where}

module _ (hash : String → String) (matches : String → String → Bool) where
  issue-gone :
      (digest gone_family : String) (fresh : Fresh) (user : User) (organization : Organization)
      (role : Role) (family : String) (now : ℕ) (old st : Store)
      → gone digest gone_family st.tokens ≡ true
      → is_issued hash matches (issue hash fresh user organization role family now old st).1 ≡ true
      → gone digest gone_family (issue hash fresh user organization role family now old st).0.tokens
        ≡ true
  unfolding issue
  issue-gone digest gone_family fresh user organization role family now old st h ok =
      stored (find? (with_hash (hash fresh.plaintext)) st.tokens) refl
    where
      stored :
          (o : Option RefreshToken)
          → find? (with_hash (hash fresh.plaintext)) st.tokens ≡ o
          → gone digest gone_family
              (issue hash fresh user organization role family now old st).0.tokens
            ≡ true
      stored none e = rw e (gone-append digest gone_family _ st.tokens h)
      stored (some t) e = ground (arith, e, ok)

  rotated-gone :
      (digest : String) (t : RefreshToken) (now : ℕ) (rows : List RefreshToken)
      → find? (with_hash digest) rows ≡ some t
      → gone digest t.family_id (update_where (with_hash t.token_hash) (revoked now) rows) ≡ true
  unfolding gone
  rotated-gone digest t now rows e = ground (
    arith,
    e,
    find?-update_where (with_hash digest) (with_hash t.token_hash) (revoked now) rows (λ r. refl),
    eq_iff t.token_hash t.token_hash,
    eq_iff t.family_id t.family_id,
  )

  rotate_member-gone :
      (digest : String) (found : Option (Membership × Organization)) (user : User)
      (t : RefreshToken) (fresh : Fresh) (now : ℕ) (st : Store)
      → find? (with_hash digest) st.tokens ≡ some t
      → is_issued hash matches (rotate_member hash found user t fresh now st).1 ≡ true
      → gone digest t.family_id (rotate_member hash found user t fresh now st).0.tokens ≡ true
  unfolding rotate_member
  rotate_member-gone digest none user t fresh now st e ok = ground (arith, ok)
  rotate_member-gone digest (some (m, organization)) user t fresh now st e ok =
      issue-gone digest t.family_id fresh user organization m.role t.family_id now st _
        (rotated-gone digest t now st.tokens e) ok

  rotate_user-gone :
      (digest : String) (found : Option User) (t : RefreshToken) (fresh : Fresh) (now : ℕ)
      (st : Store)
      → find? (with_hash digest) st.tokens ≡ some t
      → is_issued hash matches (rotate_user hash found t fresh now st).1 ≡ true
      → gone digest t.family_id (rotate_user hash found t fresh now st).0.tokens ≡ true
  unfolding rotate_user
  rotate_user-gone digest none t fresh now st e ok = ground (arith, ok)
  rotate_user-gone digest (some user) t fresh now st e ok =
      ground (arith, ok, rotate_member-gone digest (membership_of user.id st) user t fresh now st e)

  pub rotate_seen-gone :
      (digest : String) (t : RefreshToken) (fresh : Fresh) (now : ℕ) (st : Store)
      → find? (with_hash digest) st.tokens ≡ some t
      → is_issued hash matches (rotate_seen hash (some t) fresh now st).1 ≡ true
      → gone digest t.family_id (rotate_seen hash (some t) fresh now st).0.tokens ≡ true
  unfolding rotate_seen
  rotate_seen-gone digest t fresh now st e ok =
      ground
        (arith, ok, rotate_user-gone digest (find? (user_of t.user_id) st.users) t fresh now st e)
