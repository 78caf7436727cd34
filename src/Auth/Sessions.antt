-- ===== src/Auth/Sessions.antt =====
-- shared/procuresignal/auth/service.py: sessions, their refresh tokens and the revocation of them.
-- `hash` is `hash_refresh_token` (SHA-256) and `matches` is Argon2's check. An address has been
-- normalised. A duplicate token hash is an IntegrityError, which rolls the request back.
pub mod Tokens
pub mod Changes
pub mod Exchange
pub mod Replay
pub mod Race
pub mod Users
pub mod Revocation
mod Tests
use procuresignal.Prelude.{
  Bool, Option, String, [], false, if◌then◌else◌, is_some, leb, none, not, some, str_eq, true, ℕ,
  ◌&&◌, ◌++◌, ◌+◌, ◌==◌, ◌||◌, ◌∷◌,
}
use procuresignal.Auth.Store.{
  Answer, Fresh, Membership, Organization, RefreshToken, Role, Store, User, claims_of, in_family,
  integrity_error, invalid_credentials, is_live, issued, membership_of, outdated, refresh_token_ttl,
  revoked, set_tokens, signed_in, user_of, with_hash,
}
use procuresignal.Prelude.Table.{find?, update_where}

unfoldable pub revoke_family : String → ℕ → Store → Store
revoke_family family now =
    set_tokens (update_where (λ t. in_family family t && is_live t) (revoked now))

unfoldable pub revoke_all_sessions : ℕ → ℕ → Store → Store
revoke_all_sessions id now st = record st {
  tokens = update_where (λ t. (t.user_id == id) && is_live t) (revoked now) st.tokens;
  users = update_where (user_of id) outdated st.users;
}

module _ (hash : String → String) where
  abbrev pub new_token : Fresh → ℕ → String → ℕ → RefreshToken
  new_token fresh user_id family now = record {
    user_id = user_id;
    token_hash = hash fresh.plaintext;
    family_id = family;
    expires_at = now + refresh_token_ttl;
    revoked_at = none;
  }

  -- `_issue` and the commit; `before` is the store that a rollback returns to.
  unfoldable pub issue :
      Fresh → User → Organization → Role → String → ℕ → (before_it : Store) → Store → Store × Answer
  issue fresh user organization role family now before_it st =
      if is_some (find? (with_hash (hash fresh.plaintext)) st.tokens)
      then (before_it, integrity_error)
      else (
        set_tokens (λ rows. rows ++ new_token fresh user.id family now ∷ []) st,
        issued record {
          user = user;
          organization = organization;
          role = role;
          access_token = claims_of user organization role fresh;
          refresh_token = fresh.plaintext;
        },
      )

  -- passwords.py: an account without a hash matches no password.
  abbrev pub verify_password : (String → String → Bool) → String → Option String → Bool
  verify_password matches password none = false
  verify_password matches password (some stored) = matches stored password && not (str_eq stored "")

  -- The end of `authenticate`, given what it reads of the memberships of the user.
  unfoldable pub sign_in_member :
      Option (Membership × Organization) → User → Fresh → ℕ → Store → Store × Answer
  unfolding issue
  sign_in_member none user fresh now st = (st, invalid_credentials)
  sign_in_member (some (m, organization)) user fresh now st =
      issue fresh user organization m.role fresh.family now st
        (record st { users = update_where (user_of user.id) (signed_in now) st.users })

  -- `authenticate`, given the user that it reads.
  unfoldable pub sign_in_user :
      (String → String → Bool) → Option User → String → Fresh → ℕ → Store → Store × Answer
  unfolding sign_in_member
  sign_in_user matches none password fresh now st = (st, invalid_credentials)
  sign_in_user matches (some user) password fresh now st =
      if not (verify_password matches password user.password_hash) || not user.is_active
      then (st, invalid_credentials)
      else sign_in_member (membership_of user.id st) user fresh now st

  abbrev pub with_email : String → Store → Option User
  with_email address st = find? (λ u. str_eq u.email address) st.users

  unfoldable pub authenticate :
      (String → String → Bool) → String → String → Fresh → ℕ → Store → Store × Answer
  unfolding sign_in_user
  authenticate matches address password fresh now st =
      sign_in_user matches (with_email address st) password fresh now st

  -- The row that `rotate_refresh_token` reads.
  abbrev pub presented_token : String → Store → Option RefreshToken
  presented_token presented st = find? (with_hash (hash presented)) st.tokens

  -- `rotate_refresh_token` for a live token, given what it reads: the memberships of the user, and
  -- before them the user.
  unfoldable pub rotate_member :
      Option (Membership × Organization) → User → RefreshToken → Fresh → ℕ → Store → Store × Answer
  unfolding issue
  rotate_member none user t fresh now st = (st, invalid_credentials)
  rotate_member (some (m, organization)) user t fresh now st =
      issue fresh user organization m.role t.family_id now st
        (set_tokens (update_where (with_hash t.token_hash) (revoked now)) st)

  unfoldable pub rotate_user : Option User → RefreshToken → Fresh → ℕ → Store → Store × Answer
  unfolding rotate_member
  rotate_user none t fresh now st = (st, invalid_credentials)
  rotate_user (some user) t fresh now st =
      if user.is_active
      then rotate_member (membership_of user.id st) user t fresh now st
      else (st, invalid_credentials)

  -- The rest of `rotate_refresh_token`, given the token that it reads, with the commit of its router.
  unfoldable pub rotate_seen : Option RefreshToken → Fresh → ℕ → Store → Store × Answer
  unfolding rotate_user revoke_family
  rotate_seen none fresh now st = (st, invalid_credentials)
  rotate_seen (some t) fresh now st =
      if not (is_live t)
      then (revoke_family t.family_id now st, invalid_credentials)
      else if leb t.expires_at now
      then (st, invalid_credentials)
      else rotate_user (find? (user_of t.user_id) st.users) t fresh now st

  unfoldable pub rotate_refresh_token : String → Fresh → ℕ → Store → Store × Answer
  unfolding rotate_seen
  rotate_refresh_token presented fresh now st =
      rotate_seen (presented_token presented st) fresh now st

  unfoldable pub revoke_seen : Option RefreshToken → ℕ → Store → Store × Bool
  revoke_seen none now st = (st, false)
  revoke_seen (some t) now st =
      if is_live t
      then (set_tokens (update_where (with_hash t.token_hash) (revoked now)) st, true)
      else (st, false)

  unfoldable pub revoke_token : String → ℕ → Store → Store × Bool
  unfolding revoke_seen
  revoke_token presented now st = revoke_seen (presented_token presented st) now st
