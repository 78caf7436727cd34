-- ===== src/Auth/Store.antt =====
-- shared/procuresignal/models/auth.py, and the statements of auth/service.py on these tables.
-- A `Store` is the tables that the sessions use, each in the order of its primary key, with the
-- columns they use. What `mint_refresh_token` and `uuid4` return is a `Fresh`. A signed access token
-- is its claims: its signature and its expiry are checked by the JWT library.
use procuresignal.Prelude.{
  Bool, List, Option, String, [], if◌then◌else◌, none, some, str_eq, true, ℕ, ◌&&◌, ◌*◌, ◌+◌, ◌==◌,
  ◌∷◌,
}
use procuresignal.Prelude.Table.{find?, is_none}

pub data Role : Type 0 where
  owner admin member viewer : Role

pub record User : Type 0 where
  pub id : ℕ
  pub public_id : String
  pub email : String
  pub password_hash : Option String
  pub is_active : Bool
  pub token_version : ℕ
  pub last_login_at : Option ℕ

pub record Organization : Type 0 where
  pub id : ℕ
  pub public_id : String

pub record Membership : Type 0 where
  pub user_id : ℕ
  pub organization_id : ℕ
  pub role : Role

pub record RefreshToken : Type 0 where
  pub user_id : ℕ
  pub token_hash : String
  pub family_id : String
  pub expires_at : ℕ
  pub revoked_at : Option ℕ

pub record Store : Type 0 where
  pub users : List User
  pub organizations : List Organization
  pub memberships : List Membership
  pub tokens : List RefreshToken

pub record AccessClaims : Type 0 where
  pub subject : String
  pub organization : String
  pub role : Role
  pub token_version : ℕ
  pub jti : String

pub record IssuedSession : Type 0 where
  pub user : User
  pub organization : Organization
  pub role : Role
  pub access_token : AccessClaims
  pub refresh_token : String

pub record Fresh : Type 0 where
  pub plaintext : String
  pub family : String
  pub jti : String

pub data Answer : Type 0 where
  issued : IssuedSession → Answer
  invalid_credentials integrity_error : Answer

-- REFRESH_TOKEN_TTL in seconds
abbrev pub refresh_token_ttl : ℕ
refresh_token_ttl = 30 * 86400

abbrev pub user_of : ℕ → User → Bool
user_of id u = u.id == id

abbrev pub with_hash : String → RefreshToken → Bool
with_hash digest t = str_eq t.token_hash digest

abbrev pub in_family : String → RefreshToken → Bool
in_family family t = str_eq t.family_id family

abbrev pub is_live : RefreshToken → Bool
is_live t = is_none t.revoked_at

abbrev pub revoked : ℕ → RefreshToken → RefreshToken
revoked now t = record t { revoked_at = some now }

-- The first row of the join of memberships and organizations.
abbrev pub first_membership :
    (Organization → Bool)
    → ℕ
    → List Organization
    → List Membership
    → Option (Membership × Organization)
first_membership p id organizations [] = none
first_membership p id organizations (m ∷ ms) =
    let rest = first_membership p id organizations ms in
    if m.user_id == id
    then elim (find? (λ o. (o.id == m.organization_id) && p o) organizations) [
      | none ↦ rest
      | some o ↦ some (m, o)
    ]
    else rest

abbrev pub membership_of : ℕ → Store → Option (Membership × Organization)
membership_of id st = first_membership (λ o. true) id st.organizations st.memberships

abbrev pub claims_of : User → Organization → Role → Fresh → AccessClaims
claims_of user organization role fresh = record {
  subject = user.public_id;
  organization = organization.public_id;
  role = role;
  token_version = user.token_version;
  jti = fresh.jti;
}

abbrev pub signed_in : ℕ → User → User
signed_in now u = record u { last_login_at = some now }

abbrev pub outdated : User → User
outdated u = record u { token_version = u.token_version + 1 }

abbrev pub set_tokens : (List RefreshToken → List RefreshToken) → Store → Store
set_tokens f st = record st { tokens = f st.tokens }
