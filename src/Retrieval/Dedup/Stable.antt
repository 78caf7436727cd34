-- ===== src/Retrieval/Dedup/Stable.antt =====
-- What `deduplicate_within_run` of retrieval/deduplication.py retains, for articles whose times
-- `_datetime_key` tells apart.
use procuresignal.Prelude.{
  Bool, List, String, [], all, any, arith, if◌then◌else◌, is_empty, keep, not, refl, ◌&&◌, ◌||◌,
  ◌∷◌, ◌≡◌, eq_refl,
}
use procuresignal.Prelude.Table.{rowcount}
use procuresignal.Prelude.Sorted.{
  IsSorted, rowcount-sort_by, same, sort_by-IsSorted, sorted_unique, times,
}
use procuresignal.Prelude.Sets.{HasSameElements, all-HasSameElements, is_in, same-flip}
use procuresignal.Retrieval.Dedup.{
  Library, RawArticle, article_fingerprint, deduplicate_within_run, group_articles, preference_le,
  result_le, winners,
}
use procuresignal.Retrieval.Dedup.Orders.{TellsApart, preference_le-IsOrder, result_le-IsOrder}
use procuresignal.Retrieval.Dedup.Groups.{
  group-IsGrouped, has_fingerprint, members-group_articles, rowcount-winners, times-winners,
  IsGrouped,
}

is_empty-keep :
    {T : Type 0} (p : RawArticle T → Bool) (xs : List (RawArticle T))
    → is_empty (keep p xs) ≡ not (any p xs)
is_empty-keep p [] = refl
is_empty-keep p (x ∷ xs) = ground (arith, is_empty-keep p xs)

all-keep :
    {T : Type 0} (p q : RawArticle T → Bool) (xs : List (RawArticle T))
    → all p (keep q xs) ≡ all (λ b. not (q b) || p b) xs
all-keep p q [] = refl
all-keep p q (x ∷ xs) = ground (arith, all-keep p q xs)

module _ {T : Type 0} (lib : Library T) where
  -- No article with the same fingerprint is preferred to it.
  abbrev pub is_preferred : RawArticle T → List (RawArticle T) → Bool
  is_preferred a articles =
      all (λ b. not (has_fingerprint lib (article_fingerprint lib a) b) || preference_le lib a b)
        articles

  abbrev pub retained : List (RawArticle T) → List (RawArticle T)
  retained articles = (deduplicate_within_run lib articles).0

  grouped : (articles : List (RawArticle T)) → IsGrouped lib (group_articles lib [] articles)
  grouped articles = group-IsGrouped lib [] articles tt

  -- Each fingerprint of the articles is retained once.
  pub fingerprint_retained_once :
      (key : String) (articles : List (RawArticle T))
      → rowcount (has_fingerprint lib key) (retained articles)
        ≡ (if any (has_fingerprint lib key) articles then 1 else 0)
  unfolding deduplicate_within_run
  fingerprint_retained_once key articles = ground (
    arith,
    rowcount-sort_by (result_le lib) (has_fingerprint lib key)
        (winners lib (group_articles lib [] articles)),
    rowcount-winners lib key (group_articles lib [] articles) (grouped articles),
    members-group_articles lib key [] articles,
    is_empty-keep (has_fingerprint lib key) articles,
  )

  module _ (h : TellsApart lib) where
    is_in-keep :
        (a : RawArticle T) (xs : List (RawArticle T))
        → is_in (preference_le lib) a (keep (has_fingerprint lib (article_fingerprint lib a)) xs)
          ≡ is_in (preference_le lib) a xs
    is_in-keep a [] = refl
    is_in-keep a (x ∷ xs) = ground (
      arith,
      is_in-keep a xs,
      eq_refl (article_fingerprint lib a),
      same-flip (preference_le lib) (preference_le-IsOrder lib h)
          (has_fingerprint lib (article_fingerprint lib a)) a x,
    )

    -- With a JSON encoding that tells fields apart, and times that `_datetime_key` tells apart, as when
    -- all are in UTC or none has a zone, an article is retained once when it is one of the articles and
    -- is preferred to all that share its fingerprint, and else not at all.
    pub retained_when_preferred :
        (a : RawArticle T) (articles : List (RawArticle T))
        → times (result_le lib) a (retained articles)
          ≡ (if is_in (preference_le lib) a articles && is_preferred a articles then 1 else 0)
    unfolding deduplicate_within_run
    retained_when_preferred a articles = ground (
      arith,
      rowcount-sort_by (result_le lib) (same (result_le lib) a)
          (winners lib (group_articles lib [] articles)),
      times-winners lib h a (group_articles lib [] articles) (grouped articles),
      members-group_articles lib (article_fingerprint lib a) [] articles,
      is_in-keep a articles,
      all-keep (preference_le lib a) (has_fingerprint lib (article_fingerprint lib a)) articles,
    )

    retained-IsSorted :
        (articles : List (RawArticle T)) → IsSorted (result_le lib) (retained articles)
    unfolding deduplicate_within_run
    retained-IsSorted articles =
        sort_by-IsSorted (result_le lib) (result_le-IsOrder lib h)
          (winners lib (group_articles lib [] articles))

    -- With a JSON encoding that tells fields apart, and times that `_datetime_key` tells apart, as when
    -- all are in UTC or none has a zone, the articles retained depend only on the set of the articles
    -- that came in, not on their order or on how often each came.
    pub retained_order_free :
        (xs ys : List (RawArticle T))
        → HasSameElements (preference_le lib) xs ys
        → retained xs ≡ retained ys
    retained_order_free xs ys e =
        sorted_unique (result_le lib) (result_le-IsOrder lib h) (retained xs) (retained ys)
          (retained-IsSorted xs) (retained-IsSorted ys)
          (λ a. ground (
            arith,
            e a,
            retained_when_preferred a xs,
            retained_when_preferred a ys,
            all-HasSameElements (preference_le lib) (preference_le-IsOrder lib h)
                (λ b.
                  not (has_fingerprint lib (article_fingerprint lib a) b) || preference_le lib a b)
                xs ys e,
          ))
