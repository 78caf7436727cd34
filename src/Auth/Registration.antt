-- ===== src/Auth/Registration.antt =====
-- shared/procuresignal/auth/service.py: registration and invitations. `normalize` is
-- `normalize_email`, and `hash_password` that of auth/passwords.py. What the database and `uuid4` give
-- new rows is a `NewIds`. The names and slugs of organizations are not modelled. A value that must be
-- unique and is taken is an IntegrityError, which rolls the request back.
pub mod Cases
pub mod Used
pub mod Once
pub mod Joins
mod Tests
use procuresignal.Prelude.{
  Bool, List, Option, String, [], false, if◌then◌else◌, is_some, leb, none, not, some, str_eq, true,
  ℕ, ◌&&◌, ◌*◌, ◌++◌, ◌+◌, ◌==◌, ◌∷◌,
}
use procuresignal.Auth.Sessions.{issue, with_email}
use procuresignal.Auth.Store.{
  Answer, Fresh, IssuedSession, Membership, Organization, Role, Store, User, issued, owner,
}
use procuresignal.Prelude.Table.{find?, update_where}

pub record OrganizationInvitation : Type 0 where
  pub organization_id : ℕ
  pub email : String
  pub role : Role
  pub token_hash : String
  pub expires_at : ℕ
  pub accepted_at : Option ℕ

pub record Accounts : Type 0 where
  pub store : Store
  pub invitations : List OrganizationInvitation

pub record NewIds : Type 0 where
  pub user_id : ℕ
  pub user_public_id : String
  pub organization_id : ℕ
  pub organization_public_id : String

pub data Refusal : Type 0 where
  email_already_registered invalid_invitation invitation_already_used conflict : Refusal

pub data Registered : Type 0 where
  registered : (session : IssuedSession) → Registered
  rejected : (why : Refusal) → Registered

-- What `_redeem_invitation` and `_new_organization_for` return, or raise.
pub data Place : Type 0 where
  placed : (ac : Accounts) (organization : Organization) (role : Role) → Place
  refused : (why : Refusal) → Place

-- INVITATION_TTL in seconds
abbrev pub invitation_ttl : ℕ
invitation_ttl = 7 * 86400

abbrev pub with_token : String → OrganizationInvitation → Bool
with_token digest i = str_eq i.token_hash digest

abbrev pub accepted : ℕ → OrganizationInvitation → OrganizationInvitation
accepted now i = record i { accepted_at = some now }

-- The account and its membership are added.
abbrev pub with_account : User → Organization → Role → Store → Store
with_account user organization role st = record st {
  users = st.users ++ user ∷ [];
  memberships =
      st.memberships
      ++ record { user_id = user.id; organization_id = organization.id; role = role } ∷ [];
}

-- `_new_organization_for`
unfoldable pub new_organization_for : NewIds → Accounts → Place
new_organization_for ids ac =
    let organization : Organization = record {
      id = ids.organization_id;
      public_id = ids.organization_public_id;
    } in
    let st = ac.store in
    if is_some (find? (λ o. str_eq o.public_id ids.organization_public_id) st.organizations)
    then refused conflict
    else placed
        (record ac { store = record st { organizations = st.organizations ++ organization ∷ [] } })
        organization owner

-- The commit of the router, or its rollback.
abbrev pub settle : Accounts → Accounts → Store × Answer → Accounts × Registered
settle old ac (st, issued session) = (record ac { store = st }, registered session)
settle old ac (st, _) = (old, rejected conflict)

module _ (hash : String → String) (normalize : String → String) where
  -- none is the IntegrityError.
  unfoldable pub create_invitation :
      ℕ → String → Role → String → ℕ → Accounts → Accounts × Option OrganizationInvitation
  create_invitation organization_id email role plaintext now ac =
      let invitation : OrganizationInvitation = record {
        organization_id = organization_id;
        email = normalize email;
        role = role;
        token_hash = hash plaintext;
        expires_at = now + invitation_ttl;
        accepted_at = none;
      } in
      if is_some (find? (with_token (hash plaintext)) ac.invitations)
      then (ac, none)
      else (record ac { invitations = ac.invitations ++ invitation ∷ [] }, some invitation)

  abbrev pub redeem_into : Option Organization → OrganizationInvitation → ℕ → Accounts → Place
  redeem_into none i now ac = refused invalid_invitation
  redeem_into (some organization) i now ac =
      placed
        (record ac {
          invitations = update_where (with_token i.token_hash) (accepted now) ac.invitations;
        })
        organization i.role

  -- `_redeem_invitation`, given the row that it reads.
  unfoldable pub redeem_seen : Option OrganizationInvitation → String → ℕ → Accounts → Place
  redeem_seen none email now ac = refused invalid_invitation
  redeem_seen (some i) email now ac =
      if leb i.expires_at now
      then refused invalid_invitation
      else if is_some i.accepted_at
      then refused invitation_already_used
      else if not (str_eq i.email (normalize email))
      then refused invalid_invitation
      else redeem_into (find? (λ o. o.id == i.organization_id) ac.store.organizations) i now ac

  unfoldable pub redeem_invitation : String → String → ℕ → Accounts → Place
  unfolding redeem_seen
  redeem_invitation token email now ac =
      redeem_seen (find? (with_token (hash token)) ac.invitations) email now ac

  -- The organization that an account joins.
  unfoldable pub place_for : Option String → String → NewIds → ℕ → Accounts → Place
  unfolding redeem_invitation new_organization_for
  place_for none address ids now ac = new_organization_for ids ac
  place_for (some token) address ids now ac =
      if str_eq token ""
      then new_organization_for ids ac
      else redeem_invitation token address now ac

  module _ (hash_password : String → String) where
    abbrev pub new_user : NewIds → String → String → User
    new_user ids address password = record {
      id = ids.user_id;
      public_id = ids.user_public_id;
      email = address;
      password_hash = some (hash_password password);
      is_active = true;
      token_version = 0;
      last_login_at = none;
    }

    -- The end of `register`, given where the account goes.
    unfoldable pub enrol :
        Place → String → String → NewIds → Fresh → ℕ → Accounts → Accounts × Registered
    unfolding issue
    enrol (refused why) address password ids fresh now old = (old, rejected why)
    enrol (placed ac organization role) address password ids fresh now old =
        let user = new_user ids address password in
        if is_some (find? (λ u. str_eq u.public_id ids.user_public_id) ac.store.users)
        then (old, rejected conflict)
        else settle old ac (
            issue hash fresh user organization role fresh.family now old.store
              (with_account user organization role ac.store))

    unfoldable pub register :
        String → String → Option String → NewIds → Fresh → ℕ → Accounts → Accounts × Registered
    unfolding enrol place_for
    register email password invitation_token ids fresh now ac =
        let address = normalize email in
        if is_some (with_email hash address ac.store)
        then (ac, rejected email_already_registered)
        else enrol (place_for invitation_token address ids now ac) address password ids fresh now ac
