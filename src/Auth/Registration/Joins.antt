-- ===== src/Auth/Registration/Joins.antt =====
-- shared/procuresignal/auth/service.py: which organization a new account joins, and as what.
use procuresignal.Prelude.{
  List, [], ap, ◌++◌, ◌∷◌, Bool-cases, Option, String, arith, false, if◌then◌else◌, inl, inr,
  is_some, leb, none, refl, some, str_eq, true, ℕ, ◌≡◌,
}
use procuresignal.Auth.Registration.{
  Accounts, NewIds, OrganizationInvitation, Place, Registered, enrol, new_organization_for,
  place_for, placed, redeem_invitation, redeem_seen, refused, new_user, register, registered,
  rejected, with_token,
}
use procuresignal.Auth.Sessions.{issue, with_email}
use procuresignal.Auth.Registration.Cases.{redeem_seen_cases}
use procuresignal.Auth.Store.{Fresh, Membership, Role, User, owner, with_hash}
use procuresignal.Prelude.Table.{find?}

-- An invitation that lets an address into an organization with a role
abbrev pub Admits :
    (String → String) → String → ℕ → Option OrganizationInvitation → ℕ → Role → Type 0
Admits normalize email now none organization_id role = ⊥
Admits normalize email now (some i) organization_id role =
    (leb i.expires_at now ≡ false)
    × (i.accepted_at ≡ none)
    × (str_eq i.email (normalize (normalize email)) ≡ true)
    × (organization_id ≡ i.organization_id)
    × (role ≡ i.role)

-- Without a token, the account owns the new organization.
abbrev pub JoinsBy :
    (String → String)
    → (String → String)
    → String
    → Option String
    → NewIds
    → ℕ
    → Accounts
    → ℕ
    → Role
    → Type 0
JoinsBy hash normalize email none ids now ac organization_id role =
    (organization_id ≡ ids.organization_id) × (role ≡ owner)
JoinsBy hash normalize email (some token) ids now ac organization_id role =
    if str_eq token ""
    then (organization_id ≡ ids.organization_id) × (role ≡ owner)
    else Admits normalize email now (find? (with_token (hash token)) ac.invitations) organization_id
        role

-- What a registration leaves: an account and its one membership more, of which the session tells, with
-- an organization and a role of which `P` holds, or what was there if it is refused.
abbrev pub Enrols :
    (ℕ → Role → Type 0) → String → NewIds → Accounts → Accounts × Registered → Type 0
Enrols P address ids old (ac, rejected why) = ac ≡ old
Enrols P address ids old (ac, registered session) =
    P session.organization.id session.role
    × (session.user.id ≡ ids.user_id)
    × (session.user.email ≡ address)
    × (ac.store.users ≡ old.store.users ++ session.user ∷ [])
    × (ac.store.memberships
        ≡ old.store.memberships
          ++ record {
            user_id = ids.user_id;
            organization_id = session.organization.id;
            role = session.role;
          }
            ∷ [])

-- The place of an account, where nobody has been added yet
abbrev HoldsOfPlace : (ℕ → Role → Type 0) → Accounts → Place → Type 0
HoldsOfPlace P old (refused why) = Unit
HoldsOfPlace P old (placed ac organization role) =
    P organization.id role
    × (ac.store.users ≡ old.store.users)
    × (ac.store.memberships ≡ old.store.memberships)

HoldsOfPlace-mono :
    (P Q : ℕ → Role → Type 0) (old : Accounts) (place : Place)
    → ((organization_id : ℕ) (role : Role) → P organization_id role → Q organization_id role)
    → HoldsOfPlace P old place
    → HoldsOfPlace Q old place
HoldsOfPlace-mono P Q old (placed ac organization role) f h = (f organization.id role h.0, h.1, h.2)
HoldsOfPlace-mono P Q old (refused why) f h = tt

module _ (hash normalize hash_password : String → String) (P : ℕ → Role → Type 0) where
  enrol-Enrols :
      (place : Place) (address password : String) (ids : NewIds) (fresh : Fresh) (now : ℕ)
      (old : Accounts)
      → HoldsOfPlace P old place
      → Enrols P address ids old
          (enrol hash normalize hash_password place address password ids fresh now old)
  unfolding enrol issue
  enrol-Enrols (refused why) address password ids fresh now old h = refl
  enrol-Enrols (placed ac organization role) address password ids fresh now old h =
      elim (Bool-cases
        (is_some (find? (λ u. str_eq u.public_id ids.user_public_id) ac.store.users))) [
          | inl e ↦ rw e refl
          | inr e ↦
              elim (Bool-cases
                (is_some (find? (with_hash (hash fresh.plaintext)) ac.store.tokens))) [
                  | inl t ↦ rw (e, t) refl
                  | inr t ↦
                      rw (e, t)
                        (
                          h.0,
                          refl,
                          refl,
                          ap
                              (λ (us : List User).
                                us
                                ++ new_user hash normalize hash_password ids address password ∷ [])
                              h.1,
                          ap
                              (λ (ms : List Membership).
                                ms
                                ++ record {
                                  user_id = ids.user_id;
                                  organization_id = organization.id;
                                  role = role;
                                }
                                  ∷ [])
                              h.2,
                        )
                ]
        ]

module _ (P : ℕ → Role → Type 0) where
  new_organization_for-HoldsOfPlace :
      (ids : NewIds) (ac : Accounts)
      → P ids.organization_id owner
      → HoldsOfPlace P ac (new_organization_for ids ac)
  unfolding new_organization_for
  new_organization_for-HoldsOfPlace ids ac h =
      elim (Bool-cases (
        is_some
          (find? (λ o. str_eq o.public_id ids.organization_public_id) ac.store.organizations))) [
            | inl e ↦ rw e tt
            | inr e ↦ rw e (h, refl, refl)
          ]

module _ (hash normalize : String → String) where
  not_accepted : (o : Option ℕ) → is_some o ≡ false → o ≡ none
  not_accepted none h = refl
  not_accepted (some t) h = cc

  redeem_seen-Admits :
      (found : Option OrganizationInvitation) (email : String) (now : ℕ) (ac : Accounts)
      → HoldsOfPlace
          (Admits normalize email now found)
          ac
          (redeem_seen hash normalize found (normalize email) now ac)
  unfolding redeem_seen
  redeem_seen-Admits none email now ac = tt
  redeem_seen-Admits (some i) email now ac =
      redeem_seen_cases hash normalize (HoldsOfPlace (Admits normalize email now (some i)) ac) i
        (normalize email) now ac (λ why. tt)
        (λ e a m o s. ((e, not_accepted i.accepted_at a, m, ground (arith, s), refl), refl, refl))

  place_for-JoinsBy :
      (email : String) (invitation_token : Option String) (ids : NewIds) (now : ℕ) (ac : Accounts)
      → HoldsOfPlace
          (JoinsBy hash normalize email invitation_token ids now ac)
          ac
          (place_for hash normalize invitation_token (normalize email) ids now ac)
  unfolding place_for redeem_invitation
  place_for-JoinsBy email none ids now ac =
      new_organization_for-HoldsOfPlace (JoinsBy hash normalize email none ids now ac) ids ac
        (refl, refl)
  place_for-JoinsBy email (some token) ids now ac = elim (Bool-cases (str_eq token "")) [
    | inl e ↦ rw e (
        new_organization_for-HoldsOfPlace (JoinsBy hash normalize email (some token) ids now ac) ids
          ac (rw e (refl, refl)))
    | inr e ↦ rw e (
        HoldsOfPlace-mono
          (Admits normalize email now (find? (with_token (hash token)) ac.invitations))
          (JoinsBy hash normalize email (some token) ids now ac) ac
          (redeem_seen hash normalize (find? (with_token (hash token)) ac.invitations)
            (normalize email) now ac)
          (λ organization_id role h. rw e h)
          (redeem_seen-Admits (find? (with_token (hash token)) ac.invitations) email now ac))
  ]

  -- A registration that is refused leaves everything as it was. One that succeeds adds an account with
  -- the address, as normalised, and one membership of it, in the organization and the role of the
  -- session: without a token as the owner of the new organization, and with one in the organization
  -- and the role of an invitation with the token's digest that has not expired, has not been accepted
  -- and names the address.
  pub register-Enrols :
      (hash_password : String → String) (email password : String) (invitation_token : Option String)
      (ids : NewIds) (fresh : Fresh) (now : ℕ) (ac : Accounts)
      → Enrols
          (JoinsBy hash normalize email invitation_token ids now ac)
          (normalize email)
          ids
          ac
          (register hash normalize hash_password email password invitation_token ids fresh now ac)
  unfolding register
  register-Enrols hash_password email password invitation_token ids fresh now ac =
      let address = normalize email in
      elim (Bool-cases (is_some (with_email hash address ac.store))) [
        | inl e ↦ rw e refl
        | inr e ↦ rw e (
            enrol-Enrols hash normalize hash_password
              (JoinsBy hash normalize email invitation_token ids now ac)
              (place_for hash normalize invitation_token address ids now ac) address password ids
              fresh now ac (place_for-JoinsBy email invitation_token ids now ac))
      ]
