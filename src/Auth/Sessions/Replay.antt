-- ===== src/Auth/Sessions/Replay.antt =====
-- shared/procuresignal/auth/service.py: a refresh token that is presented twice.
use procuresignal.Prelude.{
  Bool, List, Option, String, [], all, arith, eq_iff, false, none, not, refl, some, str_eq, true, ℕ,
  ◌&&◌, ◌∷◌, ◌≡◌,
}
use procuresignal.Auth.Sessions.{presented_token, revoke_family, rotate_refresh_token, rotate_seen}
use procuresignal.Auth.Sessions.Changes.{Adds, is_issued, serve, serve-Change, serve_all}
use procuresignal.Auth.Sessions.Exchange.{rotate_seen-gone}
use procuresignal.Auth.Sessions.Tokens.{
  Request, gone, gone-Change, live_count, live_count-Change-le, logout, refresh, revoke_all,
  sign_in,
}
use procuresignal.Auth.Store.{Fresh, RefreshToken, Store, in_family, is_live, revoked, with_hash}
use procuresignal.Prelude.Table.{find?, update_where}

abbrev pub of_family : String → ℕ → String → Bool
of_family family user_id f = str_eq f family

-- uuid4 gives a sign-in a family of its own.
abbrev pub has_other_family : String → Request → Bool
has_other_family family (sign_in address password fresh now) = not (str_eq fresh.family family)
has_other_family family _ = true

live_count-revoke_family :
    (family : String) (now : ℕ) (rows : List RefreshToken)
    → live_count
        (of_family family)
        (update_where (λ t. in_family family t && is_live t) (revoked now) rows)
      ≡ 0
unfolding live_count
live_count-revoke_family family now [] = refl
live_count-revoke_family family now (t ∷ rows) =
    ground (arith, live_count-revoke_family family now rows)

-- Where no token of a kind is live, one that is found is revoked.
pub found-live_count :
    (q : ℕ → String → Bool) (p : RefreshToken → Bool) (rows : List RefreshToken)
    → live_count q rows ≡ 0
    → elim (find? p rows) [ none ↦ true | some t ↦ not (q t.user_id t.family_id && is_live t) ]
      ≡ true
unfolding live_count
found-live_count q p [] h = refl
found-live_count q p (t ∷ rows) h = ground (arith, found-live_count q p rows)

module _ (hash : String → String) (matches : String → String → Bool) where
  replayed_seen :
      (family : String) (seen : Option RefreshToken) (fresh : Fresh) (now : ℕ) (st : Store)
      → elim seen [ none ↦ false | some t ↦ in_family family t && not (is_live t) ] ≡ true
      → (is_issued hash matches (rotate_seen hash seen fresh now st).1 ≡ false)
        × (live_count (of_family family) (rotate_seen hash seen fresh now st).0.tokens ≡ 0)
  unfolding rotate_seen revoke_family
  replayed_seen family none fresh now st h = ground (arith, h)
  replayed_seen family (some t) fresh now st h =
      ground
        (arith, h, eq_iff t.family_id family, live_count-revoke_family t.family_id now st.tokens)

  -- A dead family gets no new token but by a sign-in that is given it.
  serve-live_count :
      (family : String) (r : Request) (st : Store)
      → has_other_family family r ≡ true
      → live_count (of_family family) st.tokens ≡ 0
      → live_count (of_family family) (serve hash matches r st).0.tokens ≡ 0
  serve-live_count family r st h dead = ground (
    arith,
    live_count-Change-le (of_family family) (serve-Change hash matches _ r st (adds r h)),
    dead,
  )
    where
      adds :
          (r : Request)
          → has_other_family family r ≡ true
          → Adds hash matches (λ t. of_family family t.user_id t.family_id ≡ false) r st
      adds (sign_in address password fresh now) h = λ user e. ground (arith, h)
      adds (refresh presented fresh now) h = λ t e live. ground (
        arith,
        e,
        live,
        found-live_count (of_family family) (with_hash (hash presented)) st.tokens dead,
      )
      adds (logout presented now) h = tt
      adds (revoke_all id now) h = tt

  serve_all-live_count :
      (family : String) (rs : List Request) (st : Store)
      → all (has_other_family family) rs ≡ true
      → live_count (of_family family) st.tokens ≡ 0
      → live_count (of_family family) (serve_all hash matches rs st).tokens ≡ 0
  unfolding serve_all
  serve_all-live_count family [] st h dead = dead
  serve_all-live_count family (r ∷ rs) st h dead =
      serve_all-live_count family rs (serve hash matches r st).0 (ground (arith, h))
        (serve-live_count family r st (ground (arith, h)) dead)

  serve_all-gone :
      (digest family : String) (rs : List Request) (st : Store)
      → gone digest family st.tokens ≡ true
      → gone digest family (serve_all hash matches rs st).tokens ≡ true
  unfolding serve_all
  serve_all-gone digest family [] st h = h
  serve_all-gone digest family (r ∷ rs) st h =
      serve_all-gone digest family rs (serve hash matches r st).0
        (gone-Change digest family (serve-Change hash matches (λ t. Unit) r st (adds r)) h)
    where
      adds : (r : Request) → Adds hash matches (λ t. Unit) r st
      adds (sign_in address password fresh now) = λ user e. tt
      adds (refresh presented fresh now) = λ t e live. tt
      adds (logout presented now) = tt
      adds (revoke_all id now) = tt

  dead_token_refused :
      (family : String) (presented : String) (fresh : Fresh) (now : ℕ) (st : Store)
      (t : RefreshToken)
      → live_count (of_family family) st.tokens ≡ 0
      → presented_token hash presented st ≡ some t
      → in_family family t ≡ true
      → (serve hash matches (refresh presented fresh now) st).1 ≡ false
  unfolding serve rotate_refresh_token
  dead_token_refused family presented fresh now st t dead e same =
      (replayed_seen family (presented_token hash presented st) fresh now st (
        ground (
          arith,
          e,
          same,
          found-live_count (of_family family) (with_hash (hash presented)) st.tokens dead,
        ))).0

  -- Let a refresh token be presented and exchanged. Whatever requests follow, presenting it again is
  -- refused, and that ends its family: however the requests go on, as long as no sign-in is given
  -- the same family, every token of the family that is presented then is refused.
  pub replay_ends_family :
      (presented other : String) (fresh fresh' fresh'' : Fresh) (now now' now'' : ℕ)
      (st st' : Store) (t t' : RefreshToken) (between later : List Request)
      (exchanged reused : Store × Bool)
      → presented_token hash presented st ≡ some t
      → serve hash matches (refresh presented fresh now) st ≡ exchanged
      → exchanged.1 ≡ true
      → serve hash matches
          (refresh presented fresh' now')
          (serve_all hash matches between exchanged.0)
        ≡ reused
      → all (has_other_family t.family_id) later ≡ true
      → serve_all hash matches later reused.0 ≡ st'
      → presented_token hash other st' ≡ some t'
      → in_family t.family_id t' ≡ true
      → (reused.1 ≡ false) × ((serve hash matches (refresh other fresh'' now'') st').1 ≡ false)
  unfolding serve rotate_refresh_token
  replay_ends_family presented other fresh fresh' fresh'' now now' now'' st st' t t' between later
        exchanged reused e f ok g elsewhere l e' same =
      let spent : gone (hash presented) t.family_id exchanged.0.tokens ≡ true =
        ground (arith, f, e, ok, rotate_seen-gone hash matches (hash presented) t fresh now st e) in
      let still : gone (hash presented) t.family_id
            (serve_all hash matches between exchanged.0).tokens
          ≡ true =
        serve_all-gone (hash presented) t.family_id between exchanged.0 spent in
      let replayed =
        replayed_seen t.family_id
          (presented_token hash presented (serve_all hash matches between exchanged.0)) fresh' now'
          (serve_all hash matches between exchanged.0) (unfold gone in still) in
      let dead : live_count (of_family t.family_id) st'.tokens ≡ 0 = ground (
        arith,
        l,
        serve_all-live_count t.family_id later reused.0 elsewhere (ground (arith, g, replayed)),
      ) in
      (
        ground (arith, g, replayed),
        dead_token_refused t.family_id other fresh'' now'' st' t' dead e' same,
      )
