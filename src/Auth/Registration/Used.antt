-- ===== src/Auth/Registration/Used.antt =====
-- shared/procuresignal/auth/service.py: requests leave a used invitation used. Other handlers than these change the tables of sessions only.
use procuresignal.Prelude.{
  Bool, Bool-cases, List, Option, String, [], arith, false, inl, inr, is_some, none, refl, some,
  str_eq, true, ℕ, ◌++◌, ◌∷◌, ◌≡◌,
}
use procuresignal.Auth.Registration.{
  with_email, Accounts, NewIds, OrganizationInvitation, Place, Registered, accepted,
  create_invitation, enrol, new_organization_for, new_user, place_for, placed, redeem_invitation,
  redeem_seen, refused, register, registered, rejected, settle, with_account, with_token,
}
use procuresignal.Auth.Sessions.{issue}
use procuresignal.Auth.Registration.Cases.{redeem_seen_cases}
use procuresignal.Auth.Store.{
  Answer, Fresh, invalid_credentials, integrity_error, Role, Store, issued,
}
use procuresignal.Prelude.Table.{find?, find?-update_where, update_where, updated}

abbrev pub is_registered : Registered → Bool
is_registered (registered session) = true
is_registered (rejected why) = false

abbrev pub is_used : Option OrganizationInvitation → Bool
is_used none = false
is_used (some i) = is_some i.accepted_at

-- A later request, and what the other handlers leave of the tables of sessions
pub data AccountRequest : Type 0 where
  invite :
      (organization_id : ℕ) (email : String) (role : Role) (plaintext : String) (now : ℕ)
      → AccountRequest
  enlist :
      (email password : String) (invitation_token : Option String) (ids : NewIds) (fresh : Fresh)
      (now : ℕ)
      → AccountRequest
  elsewhere : (st : Store) → AccountRequest

module _ (hash normalize hash_password : String → String) where
  unfoldable pub serve : AccountRequest → Accounts → Accounts
  unfolding create_invitation register
  serve (invite organization_id email role plaintext now) ac =
      (create_invitation hash normalize organization_id email role plaintext now ac).0
  serve (enlist email password invitation_token ids fresh now) ac =
      (register hash normalize hash_password email password invitation_token ids fresh now ac).0
  serve (elsewhere st) ac = record ac { store = st }

  unfoldable pub serve_all : List AccountRequest → Accounts → Accounts
  unfolding serve
  serve_all [] ac = ac
  serve_all (r ∷ rs) ac = serve_all rs (serve r ac)

  -- The invitation with a digest has been used.
  abbrev pub used_up : String → Accounts → Bool
  used_up digest ac = is_used (find? (with_token digest) ac.invitations)

  -- Where a registration would go leaves a used invitation used.
  abbrev pub StaysUsed : String → Place → Type 0
  StaysUsed digest (placed ac organization role) = used_up digest ac ≡ true
  StaysUsed digest (refused why) = Unit

  updated_used :
      (digest hashed : String) (now : ℕ) (o : Option OrganizationInvitation)
      → is_used o ≡ true
      → is_used (updated (with_token hashed) (accepted now) o) ≡ true
  updated_used digest hashed now none h = h
  updated_used digest hashed now (some i) h = ground (arith, h)

  accepted_used :
      (digest hashed : String) (now : ℕ) (rows : List OrganizationInvitation)
      → is_used (find? (with_token digest) rows) ≡ true
      → is_used (find? (with_token digest) (update_where (with_token hashed) (accepted now) rows))
        ≡ true
  accepted_used digest hashed now rows h =
      rw
        (find?-update_where (with_token digest) (with_token hashed) (accepted now) rows (λ r. refl))
        (updated_used digest hashed now (find? (with_token digest) rows) h)

  redeem_seen-StaysUsed :
      (digest : String) (o : Option OrganizationInvitation) (email : String) (now : ℕ)
      (ac : Accounts)
      → used_up digest ac ≡ true
      → StaysUsed digest (redeem_seen hash normalize o email now ac)
  unfolding redeem_seen
  redeem_seen-StaysUsed digest none email now ac h = tt
  redeem_seen-StaysUsed digest (some i) email now ac h =
      redeem_seen_cases hash normalize (StaysUsed digest) i email now ac (λ why. tt)
        (λ e a m o s. accepted_used digest i.token_hash now ac.invitations h)

  new_organization_for-StaysUsed :
      (digest : String) (ids : NewIds) (ac : Accounts)
      → used_up digest ac ≡ true
      → StaysUsed digest (new_organization_for ids ac)
  unfolding new_organization_for
  new_organization_for-StaysUsed digest ids ac h =
      elim (Bool-cases (
        is_some
          (find? (λ o. str_eq o.public_id ids.organization_public_id) ac.store.organizations))) [
            | inl e ↦ rw e tt
            | inr e ↦ rw e h
          ]

  place_for-StaysUsed :
      (digest : String) (invitation_token : Option String) (address : String) (ids : NewIds)
      (now : ℕ) (ac : Accounts)
      → used_up digest ac ≡ true
      → StaysUsed digest (place_for hash normalize invitation_token address ids now ac)
  unfolding place_for redeem_invitation
  place_for-StaysUsed digest none address ids now ac h =
      new_organization_for-StaysUsed digest ids ac h
  place_for-StaysUsed digest (some token) address ids now ac h =
      elim (Bool-cases (str_eq token "")) [
        | inl e ↦ rw e (new_organization_for-StaysUsed digest ids ac h)
        | inr e ↦ rw e (
            redeem_seen-StaysUsed digest (find? (with_token (hash token)) ac.invitations) address
              now ac h)
      ]

  settle-used_up :
      (digest : String) (old ac : Accounts) (p : Store × Answer)
      → (is_registered (settle old ac p).1 ≡ false → used_up digest old ≡ true)
      → used_up digest ac ≡ true
      → used_up digest (settle old ac p).0 ≡ true
  settle-used_up digest old ac (st, issued session) h k = k
  settle-used_up digest old ac (st, invalid_credentials) h k = h refl
  settle-used_up digest old ac (st, integrity_error) h k = h refl

  -- An enrolment leaves used what its place does, or what was used before.
  pub enrol-used_up :
      (digest : String) (place : Place) (address password : String) (ids : NewIds) (fresh : Fresh)
      (now : ℕ) (old : Accounts)
      → (is_registered
              (enrol hash normalize hash_password place address password ids fresh now old).1
            ≡ false
          → used_up digest old ≡ true)
      → StaysUsed digest place
      → used_up digest
          (enrol hash normalize hash_password place address password ids fresh now old).0
        ≡ true
  unfolding enrol
  enrol-used_up digest (refused why) address password ids fresh now old h k = h refl
  enrol-used_up digest (placed ac organization role) address password ids fresh now old h k =
      let user = new_user hash normalize hash_password ids address password in
      let p =
        issue hash fresh user organization role fresh.family now old.store
          (with_account user organization role ac.store) in
      elim (Bool-cases
        (is_some (find? (λ u. str_eq u.public_id ids.user_public_id) ac.store.users))) [
          | inl e ↦ rw e (h (rw e refl))
          | inr e ↦ rw e (settle-used_up digest old ac p (rw e at h) k)
        ]

  register-used_up :
      (digest email password : String) (invitation_token : Option String) (ids : NewIds)
      (fresh : Fresh) (now : ℕ) (ac : Accounts)
      → used_up digest ac ≡ true
      → used_up digest
          (register hash normalize hash_password email password invitation_token ids fresh now ac).0
        ≡ true
  unfolding register
  register-used_up digest email password invitation_token ids fresh now ac h =
      let address = normalize email in
      elim (Bool-cases (is_some (with_email hash address ac.store))) [
        | inl e ↦ rw e h
        | inr e ↦ rw e (
            enrol-used_up digest (place_for hash normalize invitation_token address ids now ac)
              address password ids fresh now ac (λ _. h)
              (place_for-StaysUsed digest invitation_token address ids now ac h))
      ]

  create_invitation-used_up :
      (digest : String) (organization_id : ℕ) (email : String) (role : Role) (plaintext : String)
      (now : ℕ) (ac : Accounts)
      → used_up digest ac ≡ true
      → used_up digest
          (create_invitation hash normalize organization_id email role plaintext now ac).0
        ≡ true
  unfolding create_invitation
  create_invitation-used_up digest organization_id email role plaintext now ac h =
      elim (Bool-cases (is_some (find? (with_token (hash plaintext)) ac.invitations))) [
        | inl e ↦ rw e h
        | inr e ↦ rw e (appended ac.invitations _ h)
      ]
    where
      appended :
          (rows : List OrganizationInvitation) (i : OrganizationInvitation)
          → is_used (find? (with_token digest) rows) ≡ true
          → is_used (find? (with_token digest) (rows ++ i ∷ [])) ≡ true
      appended [] i k = cc
      appended (r ∷ rows) i k = ground (arith, k, appended rows i)

  pub serve_all-used_up :
      (digest : String) (rs : List AccountRequest) (ac : Accounts)
      → used_up digest ac ≡ true
      → used_up digest (serve_all rs ac) ≡ true
  unfolding serve_all serve
  serve_all-used_up digest [] ac h = h
  serve_all-used_up digest (invite organization_id email role plaintext now ∷ rs) ac h =
      serve_all-used_up digest rs
        (create_invitation hash normalize organization_id email role plaintext now ac).0
        (create_invitation-used_up digest organization_id email role plaintext now ac h)
  serve_all-used_up digest (enlist email password invitation_token ids fresh now ∷ rs) ac h =
      serve_all-used_up digest rs
        (register hash normalize hash_password email password invitation_token ids fresh now ac).0
        (register-used_up digest email password invitation_token ids fresh now ac h)
  serve_all-used_up digest (elsewhere st ∷ rs) ac h =
      serve_all-used_up digest rs (record ac { store = st }) h
