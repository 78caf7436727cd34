-- ===== src/Auth/Sessions/Tokens.antt =====
-- shared/procuresignal/auth/service.py: what requests can do to the table of refresh tokens.
-- A request runs in one transaction, and requests run one after the other.
use procuresignal.Prelude.{
  Bool, List, String, [], arith, false, none, not, refl, some, true, ℕ, ◌&&◌, ◌++◌, ◌∷◌, ◌≡◌, ◌≤◌,
}
use procuresignal.Auth.Store.{Fresh, RefreshToken, in_family, is_live, revoked, with_hash}
use procuresignal.Prelude.Table.{find?, find?-append, find?-update_where, rowcount, update_where}

-- The requests of api/routers/auth.py that change sessions.
pub data Request : Type 0 where
  sign_in : (address password : String) (fresh : Fresh) (now : ℕ) → Request
  refresh : (presented : String) (fresh : Fresh) (now : ℕ) → Request
  logout : (presented : String) (now : ℕ) → Request
  revoke_all : (id now : ℕ) → Request

-- Rows are revoked, and tokens with a new hash for which P holds are added.
pub data Change (P : RefreshToken → Type 0) : List RefreshToken → List RefreshToken → Type 0 where
  kept : (rows : List RefreshToken) → Change P rows rows
  cut :
      (p : RefreshToken → Bool) (now : ℕ) (rows : List RefreshToken)
      → Change P rows (update_where p (revoked now) rows)
  grown :
      (t : RefreshToken) (rows : List RefreshToken)
      → find? (with_hash t.token_hash) rows ≡ none
      → P t
      → Change P rows (rows ++ t ∷ [])
  both : (a b c : List RefreshToken) → Change P a b → Change P b c → Change P a c

-- The table has a token with this hash, of this family, and it is revoked.
unfoldable pub gone : String → String → List RefreshToken → Bool
gone digest family rows = elim (find? (with_hash digest) rows) [
  | none ↦ false
  | some t ↦ in_family family t && not (is_live t)
]

-- The tokens of some users and families that are live.
unfoldable pub live_count : (ℕ → String → Bool) → List RefreshToken → ℕ
live_count q rows = rowcount (λ t. q t.user_id t.family_id && is_live t) rows

gone-update_where :
    (digest family : String) (p : RefreshToken → Bool) (now : ℕ) (rows : List RefreshToken)
    → gone digest family rows ≡ true
    → gone digest family (update_where p (revoked now) rows) ≡ true
unfolding gone
gone-update_where digest family p now rows h =
    ground (arith, find?-update_where (with_hash digest) p (revoked now) rows (λ t. refl))

pub gone-append :
    (digest family : String) (t : RefreshToken) (rows : List RefreshToken)
    → gone digest family rows ≡ true
    → gone digest family (rows ++ t ∷ []) ≡ true
unfolding gone
gone-append digest family t rows h = ground (arith, find?-append (with_hash digest) rows t)

-- What is revoked stays so.
pub gone-Change :
    {P : RefreshToken → Type 0} (digest family : String) {a b : List RefreshToken}
    → Change P a b
    → gone digest family a ≡ true
    → gone digest family b ≡ true
gone-Change digest family (kept rows) h = h
gone-Change digest family (cut p now rows) h = gone-update_where digest family p now rows h
gone-Change digest family (grown t rows e k) h = gone-append digest family t rows h
gone-Change digest family (both a b c x y) h =
    gone-Change digest family y (gone-Change digest family x h)

live_count-update_where-le :
    (q : ℕ → String → Bool) (p : RefreshToken → Bool) (now : ℕ) (rows : List RefreshToken)
    → live_count q (update_where p (revoked now) rows) ≤ live_count q rows
unfolding live_count
live_count-update_where-le q p now [] = omega arith
live_count-update_where-le q p now (t ∷ rows) =
    ground (arith, live_count-update_where-le q p now rows)

live_count-append :
    (q : ℕ → String → Bool) (t : RefreshToken) (rows : List RefreshToken)
    → q t.user_id t.family_id ≡ false
    → live_count q (rows ++ t ∷ []) ≡ live_count q rows
unfolding live_count
live_count-append q t [] h = ground arith
live_count-append q t (x ∷ rows) h = ground (arith, live_count-append q t rows h)

pub live_count-Change-le :
    (q : ℕ → String → Bool) {a b : List RefreshToken}
    → Change (λ t. q t.user_id t.family_id ≡ false) a b
    → live_count q b ≤ live_count q a
live_count-Change-le q (kept rows) = omega arith
live_count-Change-le q (cut p now rows) = live_count-update_where-le q p now rows
live_count-Change-le q (grown t rows e k) = ground (arith, live_count-append q t rows k)
live_count-Change-le q (both a b c x y) =
    ground (arith, live_count-Change-le q x, live_count-Change-le q y)
