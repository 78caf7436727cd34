-- ===== src/Auth/Registration/Cases.antt =====
-- shared/procuresignal/auth/service.py: how `_redeem_invitation` ends for an invitation that it finds.
use procuresignal.Prelude.{
  Bool-cases, List, [], false, inl, inr, is_some, leb, str_eq, true, ℕ, ◌==◌, ◌∷◌, ◌≡◌, String,
}
use procuresignal.Auth.Registration.{
  some, Accounts, OrganizationInvitation, Place, Refusal, accepted, placed, redeem_into,
  redeem_seen, refused, with_token,
}
use procuresignal.Auth.Store.{Organization}
use procuresignal.Prelude.Table.{find?, update_where}

module _ (hash normalize : String → String) (Q : Place → Type 0) (i : OrganizationInvitation)
    (email : String) (now : ℕ) (ac : Accounts)
    (if_refused : (why : Refusal) → Q (refused why)) where
  abbrev Placed : Type 0
  Placed =
      (o : Organization)
      → (o.id == i.organization_id) ≡ true
      → Q (
          placed
            (record ac {
              invitations = update_where (with_token i.token_hash) (accepted now) ac.invitations;
            })
            o i.role)

  redeem_into_cases :
      (organizations : List Organization)
      → Placed
      → Q (
          redeem_into hash normalize
            (find? (λ o. o.id == i.organization_id) organizations)
            i
            now
            ac)
  redeem_into_cases [] k = if_refused _
  redeem_into_cases (o ∷ organizations) k = elim (Bool-cases (o.id == i.organization_id)) [
    | inl s ↦ rw s (k o s)
    | inr s ↦ rw s (redeem_into_cases organizations k)
  ]

  pub redeem_seen_cases :
      (leb i.expires_at now ≡ false
        → is_some i.accepted_at ≡ false
        → str_eq i.email (normalize email) ≡ true
        → Placed)
      → Q (redeem_seen hash normalize (some i) email now ac)
  unfolding redeem_seen
  redeem_seen_cases k = elim (Bool-cases (leb i.expires_at now)) [
    | inl e ↦ rw e (if_refused _)
    | inr e ↦ elim (Bool-cases (is_some i.accepted_at)) [
      | inl a ↦ rw (e, a) (if_refused _)
      | inr a ↦ elim (Bool-cases (str_eq i.email (normalize email))) [
        | inr m ↦ rw (e, a, m) (if_refused _)
        | inl m ↦ rw (e, a, m) (redeem_into_cases ac.store.organizations (k e a m))
      ]
    ]
  ]
