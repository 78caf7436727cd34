-- ===== src/Retrieval/Persistence/Tests.antt =====
-- A batch with an article that is there twice and one that the database refuses.
use procuresignal.Prelude.{String, Bool, List, [], length, refl, str_eq, ◌∷◌, ◌≡◌}
use procuresignal.Retrieval.Dedup.{RawArticle}
use procuresignal.Retrieval.Dedup.Samples.{official, reprint}
use procuresignal.Retrieval.Persistence.{save_articles, create_ingest_hash, NewsArticleRaw}
use procuresignal.Retrieval.Persistence.Laws.{
  count_of, HasDistinctHashes, save_articles-counts, save_articles-twice,
}

abbrev refuses : RawArticle String → Bool
refuses a = str_eq a.title "bad"

abbrev bad : RawArticle String
bad = record official { title = "bad" }

abbrev batch : List (RawArticle String)
batch = official ∷ reprint ∷ bad ∷ official ∷ []

abbrev saved_once : List NewsArticleRaw
unfolding save_articles
saved_once = (save_articles (λ s. s) refuses 5 batch []).0

tally :
    (save_articles (λ s. s) refuses 5 batch []).1
    ≡ record { inserted = 2; duplicates = 1; errors = 1 }
unfolding save_articles create_ingest_hash
tally = refl

save_articles-counts_example :
    (count_of (save_articles (λ s. s) refuses 5 batch []).1 ≡ 4)
    × (length (save_articles (λ s. s) refuses 5 batch []).0 ≡ 2)
    × HasDistinctHashes (save_articles (λ s. s) refuses 5 batch []).0
unfolding save_articles create_ingest_hash
save_articles-counts_example = save_articles-counts (λ s. s) refuses 5 batch [] tt

save_articles-twice_example :
    ((save_articles (λ s. s) refuses 9 batch saved_once).0 ≡ saved_once)
    × ((save_articles (λ s. s) refuses 9 batch saved_once).1.inserted ≡ 0)
unfolding saved_once save_articles
save_articles-twice_example = save_articles-twice (λ s. s) refuses 5 9 batch []
