-- ===== src/Retrieval/Persistence/Laws.antt =====
-- What `save_articles` stores and counts.
use procuresignal.Prelude.{
  Bool, List, String, [], all, any, arith, eq_iff, eq_refl, is_some, length, length-append, not,
  refl, str_eq, true, ℕ, ◌&&◌, ◌+◌, ◌||◌, ◌∷◌, ◌≡◌,
}
use procuresignal.Prelude.Keyed.{IsDistinct, IsDistinct-append}
use procuresignal.Prelude.Table.{find?-append}
use procuresignal.Retrieval.Dedup.{RawArticle}
use procuresignal.Retrieval.Persistence.{
  NewsArticleRaw, Saved, article_of, hash_of, ingest_hash_of, none_saved, row_for, save_all,
  save_article, save_articles,
}

abbrev pub HasDistinctHashes : List NewsArticleRaw → Type 0
HasDistinctHashes rows = IsDistinct str_eq hash_of rows

abbrev pub count_of : Saved → ℕ
count_of s = s.inserted + s.duplicates + s.errors

abbrev pub is_stored : (hash : String) → List NewsArticleRaw → Bool
is_stored hash rows = is_some (article_of hash rows)

module _ (sha256 : String → String) (raises : RawArticle String → Bool) (now : ℕ) where
  save_article-count :
      (a : RawArticle String) (rows : List NewsArticleRaw) (saved : Saved)
      → (count_of (save_article sha256 raises now a rows saved).1 ≡ count_of saved + 1)
        × (length (save_article sha256 raises now a rows saved).0 + saved.inserted
            ≡ length rows + (save_article sha256 raises now a rows saved).1.inserted)
  unfolding save_article
  save_article-count a rows saved =
      (ground arith, ground (arith, length-append rows (row_for sha256 raises now a ∷ [])))

  save_article-HasDistinctHashes :
      (a : RawArticle String) (rows : List NewsArticleRaw) (saved : Saved)
      → HasDistinctHashes rows
      → HasDistinctHashes (save_article sha256 raises now a rows saved).0
  unfolding save_article
  save_article-HasDistinctHashes a rows saved d =
      ground (arith, IsDistinct-append str_eq hash_of eq_iff rows (row_for sha256 raises now a), d)

  save_article-stores :
      (a : RawArticle String) (rows : List NewsArticleRaw) (saved : Saved) (hash : String)
      → is_stored hash (save_article sha256 raises now a rows saved).0
        ≡ (is_stored hash rows || (not (raises a) && str_eq (ingest_hash_of sha256 a) hash))
  unfolding save_article
  save_article-stores a rows saved hash = ground (
    arith,
    find?-append (λ r. str_eq (hash_of r) hash) rows (row_for sha256 raises now a),
    eq_iff (ingest_hash_of sha256 a) hash,
  )

  pub save_all-count :
      (articles : List (RawArticle String)) (rows : List NewsArticleRaw) (saved : Saved)
      → (count_of (save_all sha256 raises now articles rows saved).1
          ≡ count_of saved + length articles)
        × (length (save_all sha256 raises now articles rows saved).0 + saved.inserted
            ≡ length rows + (save_all sha256 raises now articles rows saved).1.inserted)
  unfolding save_all
  save_all-count [] rows saved = (ground arith, refl)
  save_all-count (a ∷ articles) rows saved =
      let one = save_article sha256 raises now a rows saved in
      let step = save_article-count a rows saved in
      let rest = save_all-count articles one.0 one.1 in
      (ground (arith, step.0, rest.0), ground (arith, step.1, rest.1))

  pub save_all-HasDistinctHashes :
      (articles : List (RawArticle String)) (rows : List NewsArticleRaw) (saved : Saved)
      → HasDistinctHashes rows
      → HasDistinctHashes (save_all sha256 raises now articles rows saved).0
  unfolding save_all
  save_all-HasDistinctHashes [] rows saved d = d
  save_all-HasDistinctHashes (a ∷ articles) rows saved d =
      save_all-HasDistinctHashes articles (save_article sha256 raises now a rows saved).0
        (save_article sha256 raises now a rows saved).1
        (save_article-HasDistinctHashes a rows saved d)

  -- The hashes stored after a batch: those before, and those of the articles that did not raise.
  pub save_all-stores :
      (articles : List (RawArticle String)) (rows : List NewsArticleRaw) (saved : Saved)
      (hash : String)
      → is_stored hash (save_all sha256 raises now articles rows saved).0 ≡ (
          is_stored hash rows
          || any (λ a. not (raises a) && str_eq (ingest_hash_of sha256 a) hash) articles)
  unfolding save_all
  save_all-stores [] rows saved hash = ground arith
  save_all-stores (a ∷ articles) rows saved hash =
      let one = save_article sha256 raises now a rows saved in
      ground
        (arith, save_article-stores a rows saved hash, save_all-stores articles one.0 one.1 hash)

  -- Every article of a batch that did not raise has its hash stored.
  batch_is_stored :
      (articles : List (RawArticle String)) (rows : List NewsArticleRaw) (saved : Saved)
      → all
          (λ a.
            raises a
            || is_stored
                (ingest_hash_of sha256 a)
                (save_all sha256 raises now articles rows saved).0)
          articles
        ≡ true
  unfolding save_all
  batch_is_stored [] rows saved = refl
  batch_is_stored (a ∷ articles) rows saved =
      let one = save_article sha256 raises now a rows saved in
      ground (
        arith,
        eq_refl (ingest_hash_of sha256 a),
        save_article-stores a rows saved (ingest_hash_of sha256 a),
        save_all-stores articles one.0 one.1 (ingest_hash_of sha256 a),
        batch_is_stored articles one.0 one.1,
      )

  stored_article :
      (a : RawArticle String) (rows : List NewsArticleRaw) (saved : Saved)
      → (raises a || is_stored (ingest_hash_of sha256 a) rows) ≡ true
      → ((save_article sha256 raises now a rows saved).0 ≡ rows)
        × ((save_article sha256 raises now a rows saved).1.inserted ≡ saved.inserted)
  unfolding save_article
  stored_article a rows saved h = (ground (arith, h), ground (arith, h))

  -- A batch whose hashes are all stored changes nothing.
  stored_batch :
      (articles : List (RawArticle String)) (rows : List NewsArticleRaw) (saved : Saved)
      → all (λ a. raises a || is_stored (ingest_hash_of sha256 a) rows) articles ≡ true
      → ((save_all sha256 raises now articles rows saved).0 ≡ rows)
        × ((save_all sha256 raises now articles rows saved).1.inserted ≡ saved.inserted)
  unfolding save_all
  stored_batch [] rows saved h = (refl, refl)
  stored_batch (a ∷ articles) rows saved h =
      let one = save_article sha256 raises now a rows saved in
      ground (
        arith,
        h,
        stored_article a rows saved (ground (arith, h)),
        stored_batch articles rows one.1 (ground (arith, h)),
      )

module _ (sha256 : String → String) (raises : RawArticle String → Bool) where
  pub save_articles-count_of :
      (now : ℕ) (articles : List (RawArticle String)) (rows : List NewsArticleRaw)
      → count_of (save_articles sha256 raises now articles rows).1 ≡ length articles
  unfolding save_articles
  save_articles-count_of now articles rows =
      ground (arith, save_all-count sha256 raises now articles rows none_saved)

  -- Every article of a batch is counted once, as inserted, as a duplicate or as an error; the table
  -- grows by those inserted, and no hash is stored twice.
  pub save_articles-counts :
      (now : ℕ) (articles : List (RawArticle String)) (rows : List NewsArticleRaw)
      → HasDistinctHashes rows
      → (count_of (save_articles sha256 raises now articles rows).1 ≡ length articles)
        × (length (save_articles sha256 raises now articles rows).0
            ≡ length rows + (save_articles sha256 raises now articles rows).1.inserted)
        × HasDistinctHashes (save_articles sha256 raises now articles rows).0
  unfolding save_articles
  save_articles-counts now articles rows d =
      let counted = save_all-count sha256 raises now articles rows none_saved in
      (
        ground (arith, counted.0),
        ground (arith, counted.1),
        save_all-HasDistinctHashes sha256 raises now articles rows none_saved d,
      )

  -- Saving a batch again, at any time, inserts nothing and leaves the table as it is.
  pub save_articles-twice :
      (now later : ℕ) (articles : List (RawArticle String)) (rows : List NewsArticleRaw)
      → let once = (save_articles sha256 raises now articles rows).0 in
        ((save_articles sha256 raises later articles once).0 ≡ once)
        × ((save_articles sha256 raises later articles once).1.inserted ≡ 0)
  unfolding save_articles
  save_articles-twice now later articles rows =
      stored_batch sha256 raises later articles
        (save_all sha256 raises now articles rows none_saved).0 none_saved
        (batch_is_stored sha256 raises now articles rows none_saved)
