-- ===== src/Privacy/Retention.antt =====
-- jobs/retention.py: rows past the window that the inventory gives their table are deleted. Times
-- are in seconds.
use procuresignal.Prelude.{
  All, Bool, List, eq_iff, ◌≢◌, ◌≤◌, Option, String, [], arith, false, if◌then◌else◌, ltb, none,
  some, str_eq, ◌>>=◌, ℕ, ◌*◌, ◌+◌, ◌∷◌, ◌≡◌,
}
use procuresignal.Prelude.Table.{rowcount}
use procuresignal.Privacy.Database.{
  Cell, Database, OnlyThins, Row, Thins, delete_where, delete_where-Thins, meets, number,
  rowcount-delete_where, words,
}
use procuresignal.Privacy.Inventory.{PersonalDataTable}

-- `_registry_days`: none is the KeyError.
unfoldable pub registry_days : List PersonalDataTable → String → Option ℕ
registry_days [] table = none
registry_days (e ∷ entries) table =
    let rest = registry_days entries table in
    if str_eq e.table table
    then elim e.retention_days [ none ↦ rest | some days ↦ some days ]
    else rest

pub record RetentionPolicy : Type 0 where
  pub raw_days : ℕ
  pub processed_days : ℕ
  pub feed_days : ℕ
  pub risk_event_days : ℕ

-- RetentionPolicy()
unfoldable pub default_policy : List PersonalDataTable → Option RetentionPolicy
unfolding registry_days
default_policy entries = do
  raw_days ← registry_days entries "news_articles_raw"
  processed_days ← registry_days entries "news_articles_processed"
  feed_days ← registry_days entries "user_news_feed"
  risk_event_days ← registry_days entries "risk_events"
  some (record {
    raw_days = raw_days;
    processed_days = processed_days;
    feed_days = feed_days;
    risk_event_days = risk_event_days;
  })

-- overrides.get(table, days)
abbrev pub window : RetentionPolicy → String → ℕ → ℕ
window policy table days =
    if str_eq table "news_articles_raw"
    then policy.raw_days
    else if str_eq table "news_articles_processed"
    then policy.processed_days
    else if str_eq table "user_news_feed"
    then policy.feed_days
    else if str_eq table "risk_events"
    then policy.risk_event_days
    else days

-- cell < reference_time - timedelta(days)
abbrev pub is_past : ℕ → ℕ → Cell → Bool
is_past days now (number t) = ltb (t + days * 86400) now
is_past days now (words s) = false

abbrev pub expired : RetentionPolicy → ℕ → PersonalDataTable → ℕ → Row → Bool
expired policy now e days = meets e.retention_column (is_past (window policy e.table days) now)

module _ (policy : RetentionPolicy) (now : ℕ) where
  -- No row of the table has a time in the column that lies more than so many days back.
  abbrev pub NoneOlder : ℕ → String → List Row → Type 0
  NoneOlder days column rows =
      All (λ row. (t : ℕ) → row column ≡ some (number t) → now ≤ t + days * 86400) rows

  -- What the four fields of a policy and the inventory's own window say of an entry.
  abbrev pub FreshFor : Database → PersonalDataTable → Option ℕ → Type 0
  FreshFor db e none = Unit
  FreshFor db e (some days) =
      (e.table ≡ "news_articles_raw"
        → NoneOlder policy.raw_days e.retention_column (db "news_articles_raw"))
      × (e.table ≡ "news_articles_processed"
          → NoneOlder policy.processed_days e.retention_column (db "news_articles_processed"))
      × (e.table ≡ "user_news_feed"
          → NoneOlder policy.feed_days e.retention_column (db "user_news_feed"))
      × (e.table ≡ "risk_events"
          → NoneOlder policy.risk_event_days e.retention_column (db "risk_events"))
      × (e.table ≢ "news_articles_raw"
          → e.table ≢ "news_articles_processed"
          → e.table ≢ "user_news_feed"
          → e.table ≢ "risk_events"
          → NoneOlder days e.retention_column (db e.table))

  abbrev pub IsFresh : Database → PersonalDataTable → Type 0
  IsFresh db e = FreshFor db e e.retention_days

  none_older :
      (days : ℕ) (column : String) (rows : List Row)
      → rowcount (meets column (is_past days now)) rows ≡ 0
      → NoneOlder days column rows
  none_older days column [] h = tt
  none_older days column (row ∷ rows) h =
      ((λ t e. row_kept t e), none_older days column rows (ground (arith, h)))
    where
      row_kept : (t : ℕ) → row column ≡ some (number t) → now ≤ t + days * 86400
      row_kept t e = ground (arith, h, e)

  -- What pruning counts as expired is what the policy says.
  fresh_counted :
      (db : Database) (e : PersonalDataTable) (days : ℕ)
      → rowcount (expired policy now e days) (db e.table) ≡ 0
      → FreshFor db e (some days)
  fresh_counted db e days h = (
    (λ t. none_older policy.raw_days e.retention_column (db "news_articles_raw") (rw t at h)),
    (λ t.
        none_older policy.processed_days e.retention_column (db "news_articles_processed")
          (rw t at h)),
    (λ t. none_older policy.feed_days e.retention_column (db "user_news_feed") (rw t at h)),
    (λ t. none_older policy.risk_event_days e.retention_column (db "risk_events") (rw t at h)),
    (λ a b c d. none_older days e.retention_column (db e.table) (rw (own a b c d) at h)),
  )
    where
      own :
          e.table ≢ "news_articles_raw"
          → e.table ≢ "news_articles_processed"
          → e.table ≢ "user_news_feed"
          → e.table ≢ "risk_events"
          → window policy e.table days ≡ days
      own a b c d = ground (
        arith,
        a,
        b,
        c,
        d,
        eq_iff e.table "news_articles_raw",
        eq_iff e.table "news_articles_processed",
        eq_iff e.table "user_news_feed",
        eq_iff e.table "risk_events",
      )

  -- Nothing of the table counts as expired.
  abbrev Emptied : Database → PersonalDataTable → Option ℕ → Type 0
  Emptied db e none = Unit
  Emptied db e (some days) = rowcount (expired policy now e days) (db e.table) ≡ 0

  Emptied-later :
      (e : PersonalDataTable) (o : Option ℕ) (db db' : Database)
      → Thins db db'
      → Emptied db e o
      → Emptied db' e o
  Emptied-later e none db db' t h = tt
  Emptied-later e (some days) db db' t h =
      omega (arith, h, t e.table e.retention_column (is_past (window policy e.table days) now))

  Emptied-FreshFor :
      (db : Database) (e : PersonalDataTable) (o : Option ℕ) → Emptied db e o → FreshFor db e o
  Emptied-FreshFor db e none h = tt
  Emptied-FreshFor db e (some days) h = fresh_counted db e days h

module _ (on_delete : String → List Row → Database → Database) (policy : RetentionPolicy)
    (now : ℕ) where
  abbrev pub prune_entry :
      PersonalDataTable → Option ℕ → Database × List (String × ℕ) → Database × List (String × ℕ)
  prune_entry e none s = s
  prune_entry e (some days) (db, by_table) = (
    delete_where on_delete e.table (expired policy now e days) db,
    (e.table, rowcount (expired policy now e days) (db e.table)) ∷ by_table,
  )

  unfoldable pub prune_tables :
      List PersonalDataTable → Database × List (String × ℕ) → Database × List (String × ℕ)
  prune_tables [] s = s
  prune_tables (e ∷ entries) s = prune_tables entries (prune_entry e e.retention_days s)

  unfoldable pub prune_expired_records :
      List PersonalDataTable → Database → Database × List (String × ℕ)
  unfolding prune_tables
  prune_expired_records entries db = prune_tables entries (db, [])

  module _ (thins : OnlyThins on_delete) where
    entry-Thins :
        (e : PersonalDataTable) (o : Option ℕ) (s : Database × List (String × ℕ))
        → Thins s.0 (prune_entry e o s).0
    entry-Thins e none s = λ t c v. omega arith
    entry-Thins e (some days) s =
        delete_where-Thins on_delete thins e.table (expired policy now e days) s.0

    entry-Emptied :
        (e : PersonalDataTable) (o : Option ℕ) (s : Database × List (String × ℕ))
        → Emptied policy now (prune_entry e o s).0 e o
    entry-Emptied e none s = tt
    entry-Emptied e (some days) s =
        rowcount-delete_where on_delete thins e.table e.retention_column
          (is_past (window policy e.table days) now) s.0

    tables-Thins :
        (entries : List PersonalDataTable) (s : Database × List (String × ℕ))
        → Thins s.0 (prune_tables entries s).0
    unfolding prune_tables
    tables-Thins [] s = λ t c v. omega arith
    tables-Thins (e ∷ entries) s = λ t c v. omega (
      arith,
      entry-Thins e e.retention_days s t c v,
      tables-Thins entries (prune_entry e e.retention_days s) t c v,
    )

    tables-IsFresh :
        (entries : List PersonalDataTable) (s : Database × List (String × ℕ))
        → All (IsFresh policy now (prune_tables entries s).0) entries
    unfolding prune_tables
    tables-IsFresh [] s = tt
    tables-IsFresh (e ∷ entries) s =
        let s' = prune_entry e e.retention_days s in
        (
          Emptied-FreshFor policy now (prune_tables entries s').0 e e.retention_days (
              Emptied-later policy now e e.retention_days s'.0 (prune_tables entries s').0
                (tables-Thins entries s') (entry-Emptied e e.retention_days s)),
          tables-IsFresh entries s',
        )

    -- With foreign keys that only delete rows or set columns to NULL, after the pruning no table to
    -- which the inventory gives a window has a row whose time lies further back: more days than the
    -- policy's field says for each of the four tables it names, and than the inventory says for any
    -- other.
    pub prune-IsFresh :
        (entries : List PersonalDataTable) (db : Database)
        → All (IsFresh policy now (prune_expired_records entries db).0) entries
    unfolding prune_expired_records
    prune-IsFresh entries db = tables-IsFresh entries (db, [])
