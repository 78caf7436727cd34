-- ===== src/Privacy/Exported.antt =====
-- privacy/subject.py: what an export shows once the person has been erased.
use procuresignal.Prelude.{
  All, Bool, List, Option, String, [], all, arith, keep, none, refl, some, true, ◌∷◌, ◌≡◌,
}
use procuresignal.Prelude.Table.{rowcount}
use procuresignal.Privacy.Database.{Database, OnlyThins, Row, has_cell}
use procuresignal.Privacy.Erased.{GoneBy, IsGone, erase-IsGone, knows_account}
use procuresignal.Privacy.Inventory.{ErasureAction, PersonalDataTable, anonymise, delete, retain}
use procuresignal.Privacy.Subject.{
  Shown, User, dicts, erase_subject, export_linked, export_subject, link_of, subject_value,
}

module _ (columns : String → List String) (lower : String → String) (user : User) where
  -- The rows that are shown of an entry by what erasure does with it.
  abbrev shown_of :
      Database → PersonalDataTable → String → ErasureAction → List (List (String × Shown))
  shown_of db e column retain =
      dicts columns lower (columns e.table)
        (keep (has_cell column (subject_value user e.link)) (db e.table))
  shown_of db e column anonymise = []
  shown_of db e column delete = []

  abbrev shown_entry :
      Database
      → PersonalDataTable
      → Option String
      → List (String × List (List (String × Shown)))
      → List (String × List (List (String × Shown)))
  shown_entry db e none tables = tables
  shown_entry db e (some column) tables = (e.table, shown_of db e column e.erasure) ∷ tables

  -- Each linked table is listed, with rows only if the inventory retains it.
  abbrev pub only_retained :
      Database → List PersonalDataTable → List (String × List (List (String × Shown)))
  only_retained db [] = []
  only_retained db (e ∷ entries) = shown_entry db e (link_of e) (only_retained db entries)

  keep-none : (p : Row → Bool) (rows : List Row) → rowcount p rows ≡ 0 → keep p rows ≡ []
  keep-none p [] h = refl
  keep-none p (r ∷ rows) h = ground (arith, h, keep-none p rows)

  export_entry :
      (db : Database) (e : PersonalDataTable) (o : Option String) (a : ErasureAction)
      (tables : List (String × List (List (String × Shown))))
      → e.erasure ≡ a
      → GoneBy user db e o a
      → export_linked columns lower user db e o tables ≡ shown_entry db e o tables
  export_entry db e none a tables k h = refl
  export_entry db e (some column) retain tables k h = rw k refl
  export_entry db e (some column) anonymise tables k h =
      rw (k, keep-none (has_cell column (subject_value user e.link)) (db e.table) h) refl
  export_entry db e (some column) delete tables k h =
      rw (k, keep-none (has_cell column (subject_value user e.link)) (db e.table) h) refl

  export_subject-only_retained :
      (db : Database) (entries : List PersonalDataTable)
      → All (IsGone user db) entries
      → export_subject columns lower user db entries ≡ only_retained db entries
  unfolding export_subject
  export_subject-only_retained db [] h = refl
  export_subject-only_retained db (e ∷ entries) h =
      rw (export_subject-only_retained db entries h.1)
        (export_entry db e (link_of e) e.erasure (only_retained db entries) refl h.0)

  module _ (on_delete : String → List Row → Database → Database) (thins : OnlyThins on_delete) where
    -- With foreign keys that only delete rows or set columns to NULL, and an inventory whose entry of
    -- accounts goes by their key, the export of a person after the erasure lists every table that the
    -- inventory ties to people, empty unless it is retained, and of a retained table the rows that
    -- the database still has about the person.
    pub export_subject-erase_subject :
        (entries : List PersonalDataTable) (db : Database)
        → all knows_account entries ≡ true
        → let after = (erase_subject on_delete user entries db).0 in
          export_subject columns lower user after entries ≡ only_retained after entries
    export_subject-erase_subject entries db k =
        export_subject-only_retained (erase_subject on_delete user entries db).0 entries
          (erase-IsGone on_delete thins user entries db k)
