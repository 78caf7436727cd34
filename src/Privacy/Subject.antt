-- ===== src/Privacy/Subject.antt =====
-- shared/procuresignal/privacy/subject.py: the export of what is held about a person, and its erasure.
-- `columns` gives the columns of a table, and `lower` is `str.lower`. The values of an export are
-- cells, before `_jsonable` writes them as JSON.
use text.Mathlib.Text.{find? as find_text}
use procuresignal.Prelude.{
  any, is_some, true, Bool, List, Option, String, [], false, if◌then◌else◌, keep, none, some,
  str_eq, ℕ, ◌∷◌,
}
use procuresignal.Prelude.Table.{rowcount}
use procuresignal.Privacy.Database.{
  Cell, Database, Row, clear_where, delete_where, has_cell, number, words,
}
use procuresignal.Privacy.Inventory.{
  ErasureAction, PersonalDataTable, SubjectLink, anonymise, delete, retain, unlinked,
  user_public_id, user_id_int,
}

pub record User : Type 0 where
  pub id : ℕ
  pub public_id : String

-- `_subject_value`
abbrev pub subject_value : User → SubjectLink → Cell
subject_value user user_public_id = words user.public_id
subject_value user _ = number user.id

abbrev pub same_link : SubjectLink → SubjectLink → Bool
same_link user_id_int user_id_int = true
same_link user_public_id user_public_id = true
same_link unlinked unlinked = true
same_link _ _ = false

abbrev pub is_linked : SubjectLink → Bool
is_linked unlinked = false
is_linked _ = true

-- The column that ties an entry's rows to a person: none is the `continue` of both functions.
abbrev pub link_of : PersonalDataTable → Option String
link_of e = elim e.link [ unlinked ↦ none | _ ↦ e.link_column ]

-- A value in the file: "[redacted]" or the column's.
pub data Shown : Type 0 where
  redacted : Shown
  shown : (value : Option Cell) → Shown

-- auth/audit.py
abbrev pub sensitive_key_parts : List String
sensitive_key_parts =
    "password" ∷ "token" ∷ "secret" ∷ "authorization" ∷ "api_key" ∷ "apikey" ∷ "credential" ∷ []

abbrev pub is_sensitive_key : (String → String) → String → Bool
is_sensitive_key lower key = any (λ part. is_some (find_text (lower key) part)) sensitive_key_parts

module _ (columns : String → List String) (lower : String → String) where
  -- `_row_to_dict`
  abbrev pub row_to_dict : List String → Row → List (String × Shown)
  row_to_dict [] row = []
  row_to_dict (name ∷ names) row =
      (name, if is_sensitive_key lower name then redacted else shown (row name))
      ∷ row_to_dict names row

  abbrev pub dicts : List String → List Row → List (List (String × Shown))
  dicts names [] = []
  dicts names (row ∷ rows) = row_to_dict names row ∷ dicts names rows

  -- The rows of one entry
  abbrev pub export_linked :
      User
      → Database
      → PersonalDataTable
      → Option String
      → List (String × List (List (String × Shown)))
      → List (String × List (List (String × Shown)))
  export_linked user db e none tables = tables
  export_linked user db e (some column) tables =
      (
        e.table,
        dicts (columns e.table) (keep (has_cell column (subject_value user e.link)) (db e.table)),
      )
      ∷ tables

  unfoldable pub export_subject :
      User → Database → List PersonalDataTable → List (String × List (List (String × Shown)))
  export_subject user db [] = []
  export_subject user db (e ∷ entries) =
      export_linked user db e (link_of e) (export_subject user db entries)

pub record ErasureReceipt : Type 0 where
  pub deleted : List (String × ℕ)
  pub anonymised : List (String × ℕ)
  pub retained : List (String × ℕ)

module _ (on_delete : String → List Row → Database → Database) (user : User) where
  -- One entry of the inventory that is linked by a column. The account itself goes last.
  unfoldable pub erase_linked :
      PersonalDataTable
      → String
      → ErasureAction
      → Database × ErasureReceipt
      → Database × ErasureReceipt
  erase_linked e column retain (db, receipt) =
      let matches = has_cell column (subject_value user e.link) in
      (
        db,
        record receipt { retained = (e.table, rowcount matches (db e.table)) ∷ receipt.retained },
      )
  erase_linked e column anonymise (db, receipt) =
      let matches = has_cell column (subject_value user e.link) in
      (
        clear_where e.table matches column db,
        record receipt {
          anonymised = (e.table, rowcount matches (db e.table)) ∷ receipt.anonymised;
        },
      )
  erase_linked e column delete (db, receipt) =
      let matches = has_cell column (subject_value user e.link) in
      if str_eq e.table "users" then (db, receipt) else (
        delete_where on_delete e.table matches db,
        record receipt { deleted = (e.table, rowcount matches (db e.table)) ∷ receipt.deleted },
      )

  unfoldable pub erase_entry :
      PersonalDataTable → Option String → Database × ErasureReceipt → Database × ErasureReceipt
  unfolding erase_linked
  erase_entry e none s = s
  erase_entry e (some column) s = erase_linked e column e.erasure s

  unfoldable pub erase_entries :
      List PersonalDataTable → Database × ErasureReceipt → Database × ErasureReceipt
  unfolding erase_entry
  erase_entries [] s = s
  erase_entries (e ∷ entries) s = erase_entries entries (erase_entry e (link_of e) s)

  unfoldable pub erase_account : Database × ErasureReceipt → Database × ErasureReceipt
  erase_account (db, receipt) =
      let matches = has_cell "id" (number user.id) in
      (
        delete_where on_delete "users" matches db,
        record receipt { deleted = ("users", rowcount matches (db "users")) ∷ receipt.deleted },
      )

  unfoldable pub erase_subject : List PersonalDataTable → Database → Database × ErasureReceipt
  unfolding erase_entries erase_account
  erase_subject entries db =
      erase_account
        (erase_entries entries (db, record { deleted = []; anonymised = []; retained = [] }))

-- `subject_tables`
abbrev pub subject_tables : SubjectLink → List PersonalDataTable → List PersonalDataTable
subject_tables link entries = keep (λ e. same_link e.link link) entries
