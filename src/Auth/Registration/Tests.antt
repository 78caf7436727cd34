-- ===== src/Auth/Registration/Tests.antt =====
-- An invitation that is used, and presented again.
use procuresignal.Prelude.{String, [], false, none, refl, some, true, ◌∷◌, ◌≡◌}
use procuresignal.Auth.Registration.{
  issue, List, Accounts, NewIds, OrganizationInvitation, register,
}
use procuresignal.Auth.Registration.Joins.{Enrols, JoinsBy, register-Enrols}
use procuresignal.Auth.Registration.Once.{invitation_once}
use procuresignal.Auth.Registration.Used.{
  AccountRequest, elsewhere, invite, is_registered, serve_all,
}
use procuresignal.Auth.Sessions.{issue}
use procuresignal.Auth.Store.{Fresh, Store, member, viewer}

abbrev same : String → String
same s = s

abbrev invitation : OrganizationInvitation
invitation = record {
  organization_id = 7;
  email = "bob@acme.com";
  role = member;
  token_hash = "t1";
  expires_at = 900;
  accepted_at = none;
}

abbrev store : Store
store = record {
  users = [];
  organizations = record { id = 7; public_id = "o-acme" } ∷ [];
  memberships = [];
  tokens = [];
}

abbrev accounts : Accounts
accounts = record { store = store; invitations = invitation ∷ [] }

abbrev ids : NewIds
ids = record {
  user_id = 3;
  user_public_id = "u-bob";
  organization_id = 9;
  organization_public_id = "o-bob";
}

abbrev fresh : Fresh
fresh = record { plaintext = "r1"; family = "f1"; jti = "j1" }

abbrev later : List AccountRequest
later = invite 7 "eve@acme.com" viewer "t2" 200 ∷ elsewhere store ∷ []

invitation_once_example :
    is_registered
      (register same same same "eve@acme.com" "pw" (some "t1") ids fresh 300 (
        serve_all same same same later
          (register same same same "bob@acme.com" "pw" (some "t1") ids fresh 100 accounts).0)).1
    ≡ false
unfolding register
invitation_once_example =
    invitation_once same same same "bob@acme.com" "pw" "t1" ids fresh 100 accounts later
      "eve@acme.com" "pw" ids fresh 300 refl refl

-- The invitation is good for the address it names.
bob_registered :
    is_registered (register same same same "bob@acme.com" "pw" (some "t1") ids fresh 100 accounts).1
    ≡ true
unfolding register issue
bob_registered = refl

register-Enrols_example :
    Enrols
      (JoinsBy same same "bob@acme.com" (some "t1") ids 100 accounts)
      "bob@acme.com"
      ids
      accounts
      (register same same same "bob@acme.com" "pw" (some "t1") ids fresh 100 accounts)
register-Enrols_example =
    register-Enrols same same same "bob@acme.com" "pw" (some "t1") ids fresh 100 accounts
