-- ===== src/Privacy/Erased.antt =====
-- privacy/subject.py: after an erasure no table that the inventory does not retain tells of the person.
use procuresignal.Prelude.{
  ◌&&◌, if◌then◌else◌, ap, Bool, all, All, Bool-cases, List, true, refl, eq_iff, Option, String, [],
  arith, false, inl, inr, none, some, str_eq, ℕ, ◌∷◌, ◌≡◌,
}
use procuresignal.Prelude.Table.{rowcount}
use procuresignal.Privacy.Database.{
  same_cell, number, Database, OnlyThins, Row, Thins, clear_where-Thins, delete_where-Thins,
  has_cell, rowcount-clear_where, rowcount-delete_where,
}
use procuresignal.Privacy.Inventory.{
  SubjectLink, ErasureAction, PersonalDataTable, anonymise, delete, retain, user_id_int,
  user_public_id, unlinked,
}
use procuresignal.Privacy.Subject.{
  ErasureReceipt, User, erase_account, erase_subject, erase_entries, erase_entry, erase_linked,
  link_of, subject_value,
}

-- How many rows of an entry's table are about the person.
abbrev pub held : User → Database → PersonalDataTable → String → ℕ
held user db e column = rowcount (has_cell column (subject_value user e.link)) (db e.table)

abbrev pub GoneBy : User → Database → PersonalDataTable → Option String → ErasureAction → Type 0
GoneBy user db e none a = Unit
GoneBy user db e (some column) retain = Unit
GoneBy user db e (some column) anonymise = held user db e column ≡ 0
GoneBy user db e (some column) delete = held user db e column ≡ 0

-- Nothing of the entry is about the person, unless it is retained.
abbrev pub IsGone : User → Database → PersonalDataTable → Type 0
IsGone user db e = GoneBy user db e (link_of e) e.erasure

-- As before the account's own row goes
abbrev GoneEarly : User → Database → PersonalDataTable → Type 0
GoneEarly user db e = str_eq e.table "users" ≡ false → IsGone user db e

-- The table of accounts is told by its own key.
abbrev pub IsAccountTable : PersonalDataTable → Type 0
IsAccountTable e = (e.link ≡ user_id_int) × (e.link_column ≡ some "id")

abbrev pub is_account_key : SubjectLink → Option String → Bool
is_account_key user_id_int (some column) = str_eq column "id"
is_account_key _ _ = false

-- An entry named "users" goes by the key of the account.
abbrev pub knows_account : PersonalDataTable → Bool
knows_account e = if str_eq e.table "users" then is_account_key e.link e.link_column else true

is_account_key_sound :
    (l : SubjectLink) (o : Option String)
    → is_account_key l o ≡ true
    → (l ≡ user_id_int) × (o ≡ some "id")
is_account_key_sound user_id_int (some column) h = (refl, ap some ((eq_iff column "id").0 h))
is_account_key_sound user_id_int none h = cc
is_account_key_sound user_public_id o h = cc
is_account_key_sound unlinked o h = cc

and_split : (a b : Bool) → (a && b) ≡ true → (a ≡ true) × (b ≡ true)
and_split true b h = (refl, h)
and_split false b h = cc

known :
    (e : PersonalDataTable)
    → knows_account e ≡ true
    → str_eq e.table "users" ≡ true
    → IsAccountTable e
known e k u = is_account_key_sound e.link e.link_column (rw u at k)

gone_later :
    (user : User) (db db' : Database) (e : PersonalDataTable) (o : Option String)
    (a : ErasureAction)
    → Thins db db'
    → GoneBy user db e o a
    → GoneBy user db' e o a
gone_later user db db' e none a t h = tt
gone_later user db db' e (some column) retain t h = tt
gone_later user db db' e (some column) anonymise t h =
    omega (arith, h, t e.table column (λ cell. same_cell cell (subject_value user e.link)))
gone_later user db db' e (some column) delete t h =
    omega (arith, h, t e.table column (λ cell. same_cell cell (subject_value user e.link)))

module _ (on_delete : String → List Row → Database → Database) (thins : OnlyThins on_delete)
    (user : User) where
  linked-Thins :
      (e : PersonalDataTable) (column : String) (a : ErasureAction) (db : Database)
      (receipt : ErasureReceipt)
      → Thins db (erase_linked on_delete user e column a (db, receipt)).0
  unfolding erase_linked
  linked-Thins e column retain db receipt = λ t c v. omega arith
  linked-Thins e column anonymise db receipt =
      clear_where-Thins e.table (has_cell column (subject_value user e.link)) column db
  linked-Thins e column delete db receipt = elim (Bool-cases (str_eq e.table "users")) [
    | inl u ↦ rw u (λ t c v. omega arith)
    | inr u ↦ rw u (
        delete_where-Thins on_delete thins e.table (has_cell column (subject_value user e.link)) db)
  ]

  linked-Gone :
      (e : PersonalDataTable) (column : String) (a : ErasureAction) (db : Database)
      (receipt : ErasureReceipt)
      → str_eq e.table "users" ≡ false
      → GoneBy user (erase_linked on_delete user e column a (db, receipt)).0 e (some column) a
  unfolding erase_linked
  linked-Gone e column retain db receipt u = tt
  linked-Gone e column anonymise db receipt u =
      rowcount-clear_where e.table column (λ cell. same_cell cell (subject_value user e.link)) db
  linked-Gone e column delete db receipt u = rw u (
      rowcount-delete_where on_delete thins e.table column
        (λ cell. same_cell cell (subject_value user e.link)) db)

  entry-Thins :
      (e : PersonalDataTable) (o : Option String) (s : Database × ErasureReceipt)
      → Thins s.0 (erase_entry on_delete user e o s).0
  unfolding erase_entry
  entry-Thins e none s = λ t c v. omega arith
  entry-Thins e (some column) s = linked-Thins e column e.erasure s.0 s.1

  entry-Gone :
      (e : PersonalDataTable) (o : Option String) (s : Database × ErasureReceipt)
      → str_eq e.table "users" ≡ false
      → GoneBy user (erase_entry on_delete user e o s).0 e o e.erasure
  unfolding erase_entry
  entry-Gone e none s u = tt
  entry-Gone e (some column) s u = linked-Gone e column e.erasure s.0 s.1 u

  entries-Thins :
      (entries : List PersonalDataTable) (s : Database × ErasureReceipt)
      → Thins s.0 (erase_entries on_delete user entries s).0
  unfolding erase_entries
  entries-Thins [] s t c v = omega arith
  entries-Thins (e ∷ entries) s t c v =
      let s' = erase_entry on_delete user e (link_of e) s in
      omega (arith, entry-Thins e (link_of e) s t c v, entries-Thins entries s' t c v)

  entries-Gone :
      (entries : List PersonalDataTable) (s : Database × ErasureReceipt)
      → All (GoneEarly user (erase_entries on_delete user entries s).0) entries
  unfolding erase_entries
  entries-Gone [] s = tt
  entries-Gone (e ∷ entries) s =
      let s' = erase_entry on_delete user e (link_of e) s in
      (
        (λ u.
            gone_later user s'.0 (erase_entries on_delete user entries s').0 e (link_of e) e.erasure
              (entries-Thins entries s') (entry-Gone e (link_of e) s u)),
        entries-Gone entries s',
      )

  account-Thins : (s : Database × ErasureReceipt) → Thins s.0 (erase_account on_delete user s).0
  unfolding erase_account
  account-Thins s = delete_where-Thins on_delete thins "users" (has_cell "id" (number user.id)) s.0

  -- The account's own row
  account_gone :
      (e : PersonalDataTable) (a : ErasureAction) (s : Database × ErasureReceipt)
      → e.table ≡ "users"
      → IsAccountTable e
      → GoneBy user (erase_account on_delete user s).0 e (some "id") a
  unfolding erase_account
  account_gone e retain s t k = tt
  account_gone e anonymise s t k =
      rw (t, k.0)
        (rowcount-delete_where on_delete thins "users" "id"
          (λ cell. same_cell cell (number user.id)) s.0)
  account_gone e delete s t k =
      rw (t, k.0)
        (rowcount-delete_where on_delete thins "users" "id"
          (λ cell. same_cell cell (number user.id)) s.0)

  link_of_account : (e : PersonalDataTable) → IsAccountTable e → link_of e ≡ some "id"
  link_of_account e k = rw (k.0, k.1) refl

  all-IsGone :
      (entries : List PersonalDataTable) (s : Database × ErasureReceipt)
      → All (GoneEarly user s.0) entries
      → all knows_account entries ≡ true
      → All (IsGone user (erase_account on_delete user s).0) entries
  all-IsGone [] s h k = tt
  all-IsGone (e ∷ entries) s h k =
      let known_all = and_split (knows_account e) (all knows_account entries) k in
      (
        elim (Bool-cases (str_eq e.table "users")) [
          | inl u ↦
              let key = known e known_all.0 u in
              rw (link_of_account e key)
                (account_gone e e.erasure s ((eq_iff e.table "users").0 u) key)
          | inr u ↦
              gone_later user s.0 (erase_account on_delete user s).0 e (link_of e) e.erasure
                (account-Thins s) (h.0 u)
        ],
        all-IsGone entries s h.1 known_all.1,
      )

  -- The erasure of a person, with foreign keys that only delete rows or set columns to NULL, and an
  -- inventory whose entry of accounts goes by their key: no row of a table that the inventory ties
  -- to people and does not retain is about the person afterwards, whatever the order of the entries
  -- and whether or not the database's foreign keys reach the table.
  pub erase-IsGone :
      (entries : List PersonalDataTable) (db : Database)
      → all knows_account entries ≡ true
      → All (IsGone user (erase_subject on_delete user entries db).0) entries
  unfolding erase_subject
  erase-IsGone entries db k =
      let s : Database × ErasureReceipt =
        (db, record { deleted = []; anonymised = []; retained = [] }) in
      all-IsGone entries (erase_entries on_delete user entries s) (entries-Gone entries s) k
