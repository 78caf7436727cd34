-- ===== src/Auth/Sessions/Tests.antt =====
-- shared/procuresignal/auth/service.py: examples.
use procuresignal.Prelude.{
  Bool, String, [], arith, false, inr, none, refl, some, str_eq, true, ◌+◌, ◌∷◌, ◌≡◌,
}
use procuresignal.Auth.Access.{require_role, resolve_access_token}
use procuresignal.Auth.Sessions.{presented_token, rotate_refresh_token, rotate_seen}
use procuresignal.Auth.Sessions.Changes.{is_issued, serve, serve_all}
use procuresignal.Auth.Sessions.Race.{concurrent_exchanges}
use procuresignal.Auth.Sessions.Replay.{replay_ends_family}
use procuresignal.Auth.Sessions.Revocation.{signed_out_everywhere}
use procuresignal.Auth.Sessions.Tokens.{Request, logout, refresh, revoke_all, sign_in}
use procuresignal.Auth.Store.{
  AccessClaims, Fresh, RefreshToken, Store, User, admin, claims_of, owner, refresh_token_ttl,
  with_hash,
}
use procuresignal.Prelude.Table.{find?}

abbrev digest : String → String
digest plaintext = plaintext

abbrev is_same : String → String → Bool
is_same stored password = str_eq stored password

abbrev alice : User
alice = record {
  id = 1;
  public_id = "u-alice";
  email = "alice@acme.com";
  password_hash = some "correct horse";
  is_active = true;
  token_version = 0;
  last_login_at = none;
}

abbrev first_token : RefreshToken
first_token = record {
  user_id = 1;
  token_hash = "r1";
  family_id = "f1";
  expires_at = 5000;
  revoked_at = none;
}

abbrev signed_in_store : Store
signed_in_store = record {
  users = alice ∷ [];
  organizations = record { id = 7; public_id = "o-acme" } ∷ [];
  memberships = record { user_id = 1; organization_id = 7; role = owner } ∷ [];
  tokens = first_token ∷ [];
}

abbrev second : Fresh
second = record { plaintext = "r2"; family = "f2"; jti = "j2" }

abbrev third : Fresh
third = record { plaintext = "r3"; family = "f3"; jti = "j3" }

abbrev old_claims : AccessClaims
old_claims = claims_of alice (record { id = 7; public_id = "o-acme" }) owner second

abbrev served : Request → Store → Store × Bool
served r st = serve digest is_same r st

abbrev exchange : Store × Bool
exchange = served (refresh "r1" second 100) signed_in_store

abbrev reuse : Store × Bool
reuse = served (refresh "r1" third 300) (serve_all digest is_same (logout "r9" 200 ∷ []) exchange.0)

exchange-accepted : exchange.1 ≡ true
unfolding serve
exchange-accepted = refl

wrong_password : (served (sign_in "alice@acme.com" "guess" third 100) signed_in_store).1 ≡ false
unfolding serve
wrong_password = refl

right_password :
    (served (sign_in "alice@acme.com" "correct horse" third 100) signed_in_store).1 ≡ true
unfolding serve
right_password = refl

accepted_before :
    require_role admin old_claims signed_in_store
    ≡ inr (alice, record { id = 7; public_id = "o-acme" }, owner)
unfolding require_role
accepted_before = refl

abbrev second_token : RefreshToken
second_token = record {
  user_id = 1;
  token_hash = "r2";
  family_id = "f1";
  expires_at = 100 + refresh_token_ttl;
  revoked_at = some 300;
}

second_revoked :
    presented_token digest "r2" (serve_all digest is_same [] reuse.0) ≡ some second_token
unfolding serve serve_all
second_revoked = refl

replay_ends_family_example :
    (reuse.1 ≡ false)
    × ((served (refresh "r2" third 400) (serve_all digest is_same [] reuse.0)).1 ≡ false)
replay_ends_family_example =
    replay_ends_family digest is_same "r1" "r2" second third third 100 300 400 signed_in_store
      (serve_all digest is_same [] reuse.0) first_token second_token (logout "r9" 200 ∷ []) []
      exchange reuse refl refl exchange-accepted refl refl refl second_revoked refl

abbrev signed_out : Store
signed_out =
    serve_all digest is_same (logout "r9" 300 ∷ []) (served (revoke_all 1 200) signed_in_store).0

abbrev first_revoked : RefreshToken
first_revoked = record first_token { revoked_at = some 200 }

first_is_revoked : presented_token digest "r1" signed_out ≡ some first_revoked
unfolding serve serve_all
first_is_revoked = refl

signed_out_everywhere_example :
    (resolve_access_token old_claims signed_out ≡ none)
    × ((served (refresh "r1" third 400) signed_out).1 ≡ false)
signed_out_everywhere_example =
    signed_out_everywhere digest is_same "r1" third 200 400 signed_in_store signed_out alice
      old_claims first_revoked (logout "r9" 300 ∷ []) refl (omega arith) refl refl first_is_revoked
      refl

exchange-issued :
    is_issued digest is_same (rotate_refresh_token digest "r1" second 100 signed_in_store).1 ≡ true
unfolding rotate_refresh_token
exchange-issued = refl

third_is_new :
    find?
      (with_hash (digest third.plaintext))
      (rotate_refresh_token digest "r1" second 100 signed_in_store).0.tokens
    ≡ none
unfolding rotate_refresh_token
third_is_new = refl

concurrent_exchanges_example :
    is_issued digest is_same
      (rotate_seen digest
        (some first_token)
        third
        101
        (rotate_refresh_token digest "r1" second 100 signed_in_store).0).1
    ≡ true
concurrent_exchanges_example =
    concurrent_exchanges digest is_same "r1" first_token second third 100 101 signed_in_store refl
      exchange-issued (omega arith) third_is_new
