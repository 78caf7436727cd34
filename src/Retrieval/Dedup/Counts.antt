-- ===== src/Retrieval/Dedup/Counts.antt =====
-- What `deduplicate_within_run` counts: every article is retained or a duplicate.
use procuresignal.Prelude.{List, String, [], arith, length, refl, true, ◌+◌, ◌∷◌, ◌≡◌, ◌≤◌}
use procuresignal.Prelude.Table.{rowcount}
use procuresignal.Prelude.Sorted.{rowcount-sort_by}
use procuresignal.Retrieval.Dedup.{
  Library, RawArticle, add_to_group, article_fingerprint, deduplicate_within_run, group_articles,
  result_le, winners,
}
use procuresignal.Retrieval.Dedup.Groups.{Groups}

rowcount-all : {T : Type 0} (xs : List (RawArticle T)) → rowcount (λ x. true) xs ≡ length xs
rowcount-all [] = refl
rowcount-all (x ∷ xs) = omega (arith, rowcount-all xs)

module _ {T : Type 0} (lib : Library T) where
  length-winners : (groups : Groups T) → length (winners lib groups) ≡ length groups
  unfolding winners
  length-winners [] = refl
  length-winners ((k, first, more) ∷ groups) = ground (arith, length-winners groups)

  length-add_to_group :
      (key : String) (a : RawArticle T) (groups : Groups T)
      → length (add_to_group lib key a groups) ≤ length groups + 1
  unfolding add_to_group
  length-add_to_group key a [] = omega arith
  length-add_to_group key a ((k, first, more) ∷ groups) =
      ground (arith, length-add_to_group key a groups)

  length-group_articles :
      (groups : Groups T) (articles : List (RawArticle T))
      → length (group_articles lib groups articles) ≤ length groups + length articles
  unfolding group_articles
  length-group_articles groups [] = omega arith
  length-group_articles groups (a ∷ articles) = ground (
    arith,
    length-add_to_group (article_fingerprint lib a) a groups,
    length-group_articles (add_to_group lib (article_fingerprint lib a) a groups) articles,
  )

  pub deduplicate-counts :
      (articles : List (RawArticle T))
      → length (deduplicate_within_run lib articles).0 + (deduplicate_within_run lib articles).1
        ≡ length articles
  unfolding deduplicate_within_run
  deduplicate-counts articles =
      let groups : Groups T = group_articles lib [] articles in
      let most = length-group_articles [] articles in
      ground (
        arith,
        most,
        length-winners groups,
        rowcount-all (winners lib groups),
        rowcount-all (deduplicate_within_run lib articles).0,
        rowcount-sort_by (result_le lib) (λ x. true) (winners lib groups),
      )
