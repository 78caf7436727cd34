-- ===== src/Auth/Sessions/Revocation.antt =====
-- shared/procuresignal/auth/service.py: signing out everywhere.
use mathlib.Core.Path.{subst}
use procuresignal.Prelude.{
  Bool, List, Option, String, [], all, arith, false, ltb, none, not, refl, some, str_eq, true, ℕ,
  ◌&&◌, ◌==◌, ◌∷◌, ◌≡◌, ◌≤◌,
}
use procuresignal.Auth.Access.{resolve_access_token}
use procuresignal.Auth.Sessions.{
  presented_token, revoke_all_sessions, rotate_refresh_token, rotate_seen, with_email,
}
use procuresignal.Auth.Sessions.Changes.{Adds, is_issued, serve, serve-Change, serve_all}
use procuresignal.Auth.Sessions.Replay.{found-live_count}
use procuresignal.Auth.Sessions.Tokens.{
  Request, live_count, live_count-Change-le, logout, refresh, revoke_all, sign_in,
}
use procuresignal.Auth.Sessions.Users.{serve-F}
use procuresignal.Auth.Store.{
  AccessClaims, Fresh, RefreshToken, Store, User, is_live, outdated, revoked, signed_in, user_of,
  with_hash,
}
use procuresignal.Prelude.Table.{find?, find?-update_where, update_where}

abbrev pub of_user : ℕ → ℕ → String → Bool
of_user id user_id family = user_id == id

-- The account that an address has is not this one.
abbrev pub is_other : ℕ → Option User → Bool
is_other id none = true
is_other id (some user) = not (user.id == id)

-- No account of this public id has a token version as low as this.
abbrev pub is_past : ℕ → Option User → Bool
is_past version none = true
is_past version (some user) = ltb version user.token_version

abbrev pub with_public_id : String → List User → Option User
with_public_id public_id users = find? (λ u. str_eq u.public_id public_id) users

abbrev pub addresses : List Request → List String
addresses [] = []
addresses (sign_in address password fresh now ∷ rs) = address ∷ addresses rs
addresses (_ ∷ rs) = addresses rs

live_count-revoke_all :
    (id now : ℕ) (rows : List RefreshToken)
    → live_count
        (of_user id)
        (update_where (λ t. (t.user_id == id) && is_live t) (revoked now) rows)
      ≡ 0
unfolding live_count
live_count-revoke_all id now [] = refl
live_count-revoke_all id now (t ∷ rows) = ground (arith, live_count-revoke_all id now rows)

module _ (hash : String → String) (matches : String → String → Bool) where
  serve-is_other :
      (id : ℕ) (address : String) (r : Request) (st : Store)
      → is_other id (with_email hash address st) ≡ true
      → is_other id (with_email hash address (serve hash matches r st).0) ≡ true
  serve-is_other id address r st h =
      serve-F hash matches (λ users. is_other id (find? (λ u. str_eq u.email address) users) ≡ true)
        (λ i now users k. ground (
          arith,
          k,
          find?-update_where (λ (u : User). str_eq u.email address) (user_of i) (signed_in now)
              users (λ u. refl),
        ))
        (λ i users k. ground (
          arith,
          k,
          find?-update_where (λ (u : User). str_eq u.email address) (user_of i) outdated users
              (λ u. refl),
        ))
        r st h

  serve-is_past :
      (version : ℕ) (public_id : String) (r : Request) (st : Store)
      → is_past version (with_public_id public_id st.users) ≡ true
      → is_past version (with_public_id public_id (serve hash matches r st).0.users) ≡ true
  serve-is_past version public_id r st h =
      serve-F hash matches (λ users. is_past version (with_public_id public_id users) ≡ true)
        (λ i now users k. ground (
          arith,
          k,
          find?-update_where (λ (u : User). str_eq u.public_id public_id) (user_of i)
              (signed_in now) users (λ u. refl),
        ))
        (λ i users k. ground (
          arith,
          k,
          find?-update_where (λ (u : User). str_eq u.public_id public_id) (user_of i) outdated users
              (λ u. refl),
        ))
        r st h

  serve-live_count-of_user :
      (id : ℕ) (r : Request) (st : Store)
      → all (λ address. is_other id (with_email hash address st)) (addresses (r ∷ [])) ≡ true
      → live_count (of_user id) st.tokens ≡ 0
      → live_count (of_user id) (serve hash matches r st).0.tokens ≡ 0
  serve-live_count-of_user id r st h dead =
      ground (
        arith,
        live_count-Change-le (of_user id) (serve-Change hash matches _ r st (adds r h)),
        dead,
      )
    where
      adds :
          (r : Request)
          → all (λ address. is_other id (with_email hash address st)) (addresses (r ∷ [])) ≡ true
          → Adds hash matches (λ t. of_user id t.user_id t.family_id ≡ false) r st
      adds (sign_in address password fresh now) h = λ user e. ground (arith, h, e)
      adds (refresh presented fresh now) h = λ t e live. ground (
        arith,
        e,
        live,
        found-live_count (of_user id) (with_hash (hash presented)) st.tokens dead,
      )
      adds (logout presented now) h = tt
      adds (revoke_all id now) h = tt

  serve-all-is_other :
      (id : ℕ) (mails : List String) (r : Request) (st : Store)
      → all (λ address. is_other id (with_email hash address st)) mails ≡ true
      → all (λ address. is_other id (with_email hash address (serve hash matches r st).0)) mails
        ≡ true
  serve-all-is_other id [] r st h = refl
  serve-all-is_other id (address ∷ mails) r st h =
      ground (arith, h, serve-is_other id address r st, serve-all-is_other id mails r st)

  -- The user has no live token, its tokens are past, and no address to come is its own.
  abbrev IsSignedOut : ℕ → ℕ → String → List String → Store → Type 0
  IsSignedOut id version public_id mails st =
      (live_count (of_user id) st.tokens ≡ 0)
      × (is_past version (with_public_id public_id st.users) ≡ true)
      × (all (λ address. is_other id (with_email hash address st)) mails ≡ true)

  addresses-cons :
      (p : String → Bool) (r : Request) (rs : List Request)
      → all p (addresses (r ∷ rs)) ≡ (all p (addresses (r ∷ [])) && all p (addresses rs))
  addresses-cons p (sign_in address password fresh now) rs = ground arith
  addresses-cons p (refresh presented fresh now) rs = refl
  addresses-cons p (logout presented now) rs = refl
  addresses-cons p (revoke_all id now) rs = refl

  serve_all-IsSignedOut :
      (id version : ℕ) (public_id : String) (rs : List Request) (st : Store)
      → IsSignedOut id version public_id (addresses rs) st
      → IsSignedOut id version public_id [] (serve_all hash matches rs st)
  unfolding serve_all
  serve_all-IsSignedOut id version public_id [] st h = h
  serve_all-IsSignedOut id version public_id (r ∷ rs) st (dead, past, other) =
      let split = addresses-cons (λ address. is_other id (with_email hash address st)) r rs in
      serve_all-IsSignedOut id version public_id rs (serve hash matches r st).0 (
        serve-live_count-of_user id r st (ground (arith, split, other)) dead,
        serve-is_past version public_id r st past,
        serve-all-is_other id (addresses rs) r st (ground (arith, split, other)),
      )

  spent_refused :
      (seen : Option RefreshToken) (fresh : Fresh) (now : ℕ) (st : Store)
      → elim seen [ none ↦ true | some t ↦ not (is_live t) ] ≡ true
      → is_issued hash matches (rotate_seen hash seen fresh now st).1 ≡ false
  unfolding rotate_seen
  spent_refused none fresh now st h = refl
  spent_refused (some t) fresh now st h = ground (arith, h)

  past_refused :
      (claims : AccessClaims) (st : Store)
      → is_past claims.token_version (with_public_id claims.subject st.users) ≡ true
      → resolve_access_token claims st ≡ none
  unfolding resolve_access_token
  past_refused claims st h = ground (arith, h)

  -- Once the sessions of a user are revoked, whatever requests follow, as long as none of them signs
  -- in with the address of that account: no access token that was issued for it before is accepted,
  -- and none of its refresh tokens is exchanged.
  pub signed_out_everywhere :
      (presented : String) (fresh : Fresh) (now now' : ℕ) (st st' : Store) (user : User)
      (claims : AccessClaims) (t : RefreshToken) (later : List Request)
      → with_public_id claims.subject st.users ≡ some user
      → claims.token_version ≤ user.token_version
      → all (λ address. is_other user.id (with_email hash address st)) (addresses later) ≡ true
      → serve_all hash matches later (serve hash matches (revoke_all user.id now) st).0 ≡ st'
      → presented_token hash presented st' ≡ some t
      → t.user_id ≡ user.id
      → (resolve_access_token claims st' ≡ none)
        × ((serve hash matches (refresh presented fresh now') st').1 ≡ false)
  unfolding serve rotate_refresh_token revoke_all_sessions
  signed_out_everywhere presented fresh now now' st st' user claims t later e le other f g same =
      let revoked_st = revoke_all_sessions user.id now st in
      let begun : IsSignedOut user.id claims.token_version claims.subject (addresses later)
          revoked_st =
        (
          live_count-revoke_all user.id now st.tokens,
          ground (
            arith,
            e,
            le,
            find?-update_where (λ (u : User). str_eq u.public_id claims.subject) (user_of user.id)
                outdated st.users (λ u. refl),
          ),
          serve-all-is_other user.id (addresses later) (revoke_all user.id now) st other,
        ) in
      let ended : IsSignedOut user.id claims.token_version claims.subject [] st' =
        subst (IsSignedOut user.id claims.token_version claims.subject []) f (
          serve_all-IsSignedOut user.id claims.token_version claims.subject later revoked_st
            begun) in
      (
        past_refused claims st' ended.1,
        spent_refused (presented_token hash presented st') fresh now' st' (
            ground (
              arith,
              g,
              same,
              found-live_count (of_user user.id) (with_hash (hash presented)) st'.tokens ended.0,
            )),
      )
