-- ===== src/Auth/Registration/Once.antt =====
-- shared/procuresignal/auth/service.py: what one invitation can be used for, whatever requests come
-- after it.
use procuresignal.Prelude.{
  Bool, Bool-cases, List, Option, String, eq_refl, false, inl, inr, is_some, leb, none, refl, some,
  str_eq, true, ℕ, ◌≡◌,
}
use procuresignal.Auth.Registration.{
  Accounts, NewIds, OrganizationInvitation, Place, accepted, enrol, place_for, placed,
  redeem_invitation, redeem_seen, refused, register, with_token,
}
use procuresignal.Auth.Registration.Used.{
  AccountRequest, StaysUsed, enrol-used_up, is_registered, is_used, serve_all, serve_all-used_up,
  used_up,
}
use procuresignal.Auth.Sessions.{with_email}
use procuresignal.Auth.Registration.Cases.{redeem_seen_cases}
use procuresignal.Auth.Store.{Fresh}
use procuresignal.Prelude.Table.{find?, find?-update_where}

abbrev is_placed : Place → Bool
is_placed (placed ac organization role) = true
is_placed (refused why) = false

module _ (hash normalize hash_password : String → String) where
  -- Where an invitation leads, that invitation is used.
  redeem_seen_used :
      (token : String) (o : Option OrganizationInvitation) (email : String) (now : ℕ)
      (ac : Accounts)
      → find? (with_token (hash token)) ac.invitations ≡ o
      → StaysUsed hash normalize hash_password
          (hash token)
          (redeem_seen hash normalize o email now ac)
  unfolding redeem_seen
  redeem_seen_used token none email now ac f = tt
  redeem_seen_used token (some i) email now ac f =
      redeem_seen_cases hash normalize (StaysUsed hash normalize hash_password (hash token)) i email
        now ac (λ why. tt)
        (λ e a m o s.
          rw
            (
              find?-update_where (with_token (hash token)) (with_token i.token_hash) (accepted now)
                  ac.invitations (λ r. refl),
              f,
              eq_refl i.token_hash,
            )
            refl)

  -- A used invitation leads nowhere.
  redeem_seen-not_placed :
      (o : Option OrganizationInvitation) (email : String) (now : ℕ) (ac : Accounts)
      → is_used o ≡ true
      → is_placed (redeem_seen hash normalize o email now ac) ≡ false
  unfolding redeem_seen
  redeem_seen-not_placed none email now ac h = refl
  redeem_seen-not_placed (some i) email now ac h = elim (Bool-cases (leb i.expires_at now)) [
    | inl e ↦ rw e refl
    | inr e ↦ rw (e, h) refl
  ]

  enrol_not_placed :
      (place : Place) (address password : String) (ids : NewIds) (fresh : Fresh) (now : ℕ)
      (old : Accounts)
      → is_placed place ≡ false
      → is_registered
          (enrol hash normalize hash_password place address password ids fresh now old).1
        ≡ false
  unfolding enrol
  enrol_not_placed (placed ac organization role) address password ids fresh now old h = cc
  enrol_not_placed (refused why) address password ids fresh now old h = refl

  -- After a registration by an invitation, the invitation is used.
  register_used :
      (email password token : String) (ids : NewIds) (fresh : Fresh) (now : ℕ) (ac : Accounts)
      → str_eq token "" ≡ false
      → is_registered
          (register hash normalize hash_password email password (some token) ids fresh now ac).1
        ≡ true
      → used_up hash normalize hash_password
          (hash token)
          (register hash normalize hash_password email password (some token) ids fresh now ac).0
        ≡ true
  unfolding register place_for redeem_invitation
  register_used email password token ids fresh now ac t h =
      let address = normalize email in
      let found = find? (with_token (hash token)) ac.invitations in
      elim (Bool-cases (is_some (with_email hash address ac.store))) [
        | inl e ↦ cc (rw e at h)
        | inr e ↦
            rw (e, t)
              (enrol-used_up hash normalize hash_password (hash token)
                (redeem_seen hash normalize found address now ac) address password ids fresh now ac
                (λ n. cc (n, rw (e, t) at h)) (redeem_seen_used token found address now ac refl))
      ]

  register_refused :
      (email password token : String) (ids : NewIds) (fresh : Fresh) (now : ℕ) (ac : Accounts)
      → str_eq token "" ≡ false
      → used_up hash normalize hash_password (hash token) ac ≡ true
      → is_registered
          (register hash normalize hash_password email password (some token) ids fresh now ac).1
        ≡ false
  unfolding register place_for redeem_invitation
  register_refused email password token ids fresh now ac t h =
      let address = normalize email in
      let found = find? (with_token (hash token)) ac.invitations in
      elim (Bool-cases (is_some (with_email hash address ac.store))) [
        | inl e ↦ rw e refl
        | inr e ↦
            rw (e, t)
              (enrol_not_placed (redeem_seen hash normalize found address now ac) address password
                ids fresh now ac (redeem_seen-not_placed found address now ac h))
      ]

  -- Once an account has been registered with an invitation's token, no later registration with that
  -- token succeeds, with whatever address and whatever requests come between, invitations that
  -- others create included.
  pub invitation_once :
      (email password token : String) (ids : NewIds) (fresh : Fresh) (now : ℕ) (ac : Accounts)
      (rs : List AccountRequest) (email' password' : String) (ids' : NewIds) (fresh' : Fresh)
      (now' : ℕ)
      → str_eq token "" ≡ false
      → is_registered
          (register hash normalize hash_password email password (some token) ids fresh now ac).1
        ≡ true
      → is_registered
          (register hash normalize hash_password email' password' (some token) ids' fresh' now' (
            serve_all hash normalize hash_password rs
              (register hash normalize hash_password email password
                (some token)
                ids
                fresh
                now
                ac).0)).1
        ≡ false
  invitation_once email password token ids fresh now ac rs email' password' ids' fresh' now' t h =
      let ac' =
        (register hash normalize hash_password email password (some token) ids fresh now ac).0 in
      register_refused email' password' token ids' fresh' now'
        (serve_all hash normalize hash_password rs ac') t
        (serve_all-used_up hash normalize hash_password (hash token) rs ac'
          (register_used email password token ids fresh now ac t h))
