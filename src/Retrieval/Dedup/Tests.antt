-- ===== src/Retrieval/Dedup/Tests.antt =====
-- Articles of two sources about one page: the official one is retained.
use procuresignal.Prelude.{[], arith, refl, ◌∷◌, ◌≡◌}
use procuresignal.Prelude.Sorted.{times}
use procuresignal.Prelude.Order.{tuple_le}
use procuresignal.Retrieval.Dedup.{
  article_fingerprint, article_projection, preference_le, result_le, RawArticle,
  deduplicate_within_run,
}
use procuresignal.Retrieval.Dedup.Samples.{
  Time, aware, from_at, mixed, naive, official, plain, reprint, utc, utc-TellsApart,
}
use procuresignal.Retrieval.Dedup.Stable.{retained, retained_order_free, retained_when_preferred}

official_retained : deduplicate_within_run plain (reprint ∷ official ∷ []) ≡ (official ∷ [], 1)
unfolding deduplicate_within_run article_fingerprint preference_le
official_retained = refl

-- At ten without a zone, and at ten in UTC
abbrev unzoned : RawArticle Time
unzoned = from_at (naive "2025-01-01T10:00:00") "rss" "official"

abbrev zoned : RawArticle Time
zoned = from_at (aware "2025-01-01T10:00:00+00:00" "2025-01-01T10:00:00") "rss" "official"

-- `_preference` does not tell them apart, so the one that comes first is retained.
unzoned_retained : deduplicate_within_run mixed (unzoned ∷ zoned ∷ []) ≡ (unzoned ∷ [], 1)
unfolding deduplicate_within_run article_fingerprint article_projection preference_le tuple_le
unzoned_retained = refl

zoned_retained : deduplicate_within_run mixed (zoned ∷ unzoned ∷ []) ≡ (zoned ∷ [], 1)
unfolding deduplicate_within_run article_fingerprint article_projection preference_le tuple_le
zoned_retained = refl

retained_order_free_example :
    retained utc (reprint ∷ official ∷ reprint ∷ []) ≡ retained utc (official ∷ reprint ∷ [])
retained_order_free_example =
    retained_order_free utc utc-TellsApart (reprint ∷ official ∷ reprint ∷ [])
      (official ∷ reprint ∷ []) (λ a. ground arith)

retained_when_preferred_example :
    times (result_le utc) official (retained utc (reprint ∷ official ∷ [])) ≡ 1
unfolding preference_le article_fingerprint article_projection tuple_le
retained_when_preferred_example =
    retained_when_preferred utc utc-TellsApart official (reprint ∷ official ∷ [])
