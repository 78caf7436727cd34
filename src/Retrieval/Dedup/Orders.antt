-- ===== src/Retrieval/Dedup/Orders.antt =====
-- The orders that deduplication.py sorts by, for times and a library that tell all fields apart.
use mathlib.Core.Option
use mathlib.Core.Path.{subst}
use procuresignal.Prelude.{
  List, Option, String, arith, refl, true, ◌&&◌, ◌∷◌, ◌≡◌, ap, [], none, some, ℕ, zero, suc,
  Bool-cases, inl, inr, ◌||◌,
}
use procuresignal.Prelude.Order.{IsOrder, text_le-IsOrder, tuple_le, tuple_le-IsOrder}
use procuresignal.Retrieval.Dedup.{
  RawArticle, Library, article_fingerprint, article_projection, datetime_key, preference_le,
  result_le,
}

-- `_datetime_key` tells the times apart, as it does if they all have a zone, in one notation, or none
-- does, and json.dumps of a tagged pair its texts.
pub record TellsApart {T : Type 0} (lib : Library T) : Type 0 where
  pub key : (a b : T) → datetime_key lib a ≡ datetime_key lib b → a ≡ b
  pub text : (a b : Option String) → lib.optional_text a ≡ lib.optional_text b → a ≡ b
  pub datetime : (a b : Option String) → lib.optional_datetime a ≡ lib.optional_datetime b → a ≡ b
  pub payload : (a b : Option String) → lib.optional_payload a ≡ lib.optional_payload b → a ≡ b

map_injective :
    {T : Type 0} (f : T → String)
    → ((a b : T) → f a ≡ f b → a ≡ b)
    → (a b : Option T) → Option.map f a ≡ Option.map f b
    → a ≡ b
map_injective f h none none e = refl
map_injective f h none (some b) e = cc
map_injective f h (some a) none e = cc
map_injective f h (some a) (some b) e = ap some (h a b (ground (arith, e)))

-- The text at a position of a projection
abbrev nth : ℕ → List String → String
nth n [] = ""
nth zero (x ∷ xs) = x
nth (suc n) (x ∷ xs) = nth n xs

module _ {T : Type 0} (lib : Library T) (h : TellsApart lib) where
  open h use {key, text, datetime, payload}

  projection-eq : (a b : RawArticle T) → article_projection lib a ≡ article_projection lib b → a ≡ b
  unfolding article_projection
  projection-eq a b e = λ i. record {
    provider = (ap (λ (l : List String). nth 0 l) e) i;
    provider_article_id =
        (text a.provider_article_id b.provider_article_id (ap (λ (l : List String). nth 1 l) e)) i;
    query_group = (ap (λ (l : List String). nth 2 l) e) i;
    title = (ap (λ (l : List String). nth 3 l) e) i;
    description = (text a.description b.description (ap (λ (l : List String). nth 4 l) e)) i;
    content_snippet =
        (text a.content_snippet b.content_snippet (ap (λ (l : List String). nth 5 l) e)) i;
    article_url = (ap (λ (l : List String). nth 6 l) e) i;
    canonical_url = (text a.canonical_url b.canonical_url (ap (λ (l : List String). nth 8 l) e)) i;
    source_name = (ap (λ (l : List String). nth 9 l) e) i;
    source_url = (text a.source_url b.source_url (ap (λ (l : List String). nth 10 l) e)) i;
    published_at = (key a.published_at b.published_at (ap (λ (l : List String). nth 11 l) e)) i;
    language = (ap (λ (l : List String). nth 12 l) e) i;
    raw_payload = (payload a.raw_payload b.raw_payload (ap (λ (l : List String). nth 13 l) e)) i;
    source_id = (text a.source_id b.source_id (ap (λ (l : List String). nth 14 l) e)) i;
    source_class = (text a.source_class b.source_class (ap (λ (l : List String). nth 15 l) e)) i;
    source_domains = (ap (λ (l : List String). nth 16 l) e) i;
    source_countries = (ap (λ (l : List String). nth 17 l) e) i;
    registry_version =
        (text a.registry_version b.registry_version (ap (λ (l : List String). nth 18 l) e)) i;
    retrieved_at =
        (map_injective (datetime_key lib) key a.retrieved_at b.retrieved_at (
            datetime (Option.map (datetime_key lib) a.retrieved_at)
              (Option.map (datetime_key lib) b.retrieved_at)
              (ap (λ (l : List String). nth 19 l) e)))
          i;
    source_published_at_raw =
        (text a.source_published_at_raw b.source_published_at_raw
            (ap (λ (l : List String). nth 20 l) e))
          i;
  }

  preference-total : (a b : RawArticle T) → (preference_le lib a b || preference_le lib b a) ≡ true
  unfolding preference_le
  preference-total a b =
      ground (arith, tuple_le-IsOrder.total (article_projection lib a) (article_projection lib b))

  preference_trans :
      (a b c : RawArticle T)
      → preference_le lib a b ≡ true
      → preference_le lib b c ≡ true
      → preference_le lib a c ≡ true
  unfolding preference_le
  preference_trans a b c h k = ground (
    arith,
    h,
    k,
    tuple_le-IsOrder.trans (article_projection lib a) (article_projection lib b)
        (article_projection lib c),
  )

  preference-antisym :
      (a b : RawArticle T) → preference_le lib a b ≡ true → preference_le lib b a ≡ true → a ≡ b
  unfolding preference_le
  preference-antisym a b h k = projection-eq a b (
      tuple_le-IsOrder.antisym (article_projection lib a) (article_projection lib b)
        (ground (arith, h, k)) (ground (arith, h, k)))

  pub preference_le-IsOrder : IsOrder (preference_le lib)
  preference_le-IsOrder = record {
    total = preference-total;
    trans = preference_trans;
    antisym = preference-antisym;
  }

  result-total : (a b : RawArticle T) → (result_le lib a b || result_le lib b a) ≡ true
  unfolding result_le
  result-total a b = ground (
    arith,
    tuple_le-IsOrder.total (article_projection lib a) (article_projection lib b),
    text_le-IsOrder.total (article_fingerprint lib a) (article_fingerprint lib b),
  )

  result→projection :
      (a b : RawArticle T)
      → result_le lib a b ≡ true
      → tuple_le (article_projection lib a) (article_projection lib b) ≡ true
  unfolding result_le
  result→projection a b h = ground (arith, h)

  result-antisym :
      (a b : RawArticle T) → result_le lib a b ≡ true → result_le lib b a ≡ true → a ≡ b
  result-antisym a b h k = projection-eq a b (
      tuple_le-IsOrder.antisym (article_projection lib a) (article_projection lib b)
        (result→projection a b h) (result→projection b a k))

  -- The fingerprint never decides: equal projections are equal articles.
  pub result_le-projection :
      (a b : RawArticle T)
      → result_le lib a b ≡ tuple_le (article_projection lib a) (article_projection lib b)
  unfolding result_le
  result_le-projection a b =
      elim (Bool-cases (
        tuple_le (article_projection lib a) (article_projection lib b)
        && tuple_le (article_projection lib b) (article_projection lib a))) [
          | inl e ↦
              subst
                (λ (c : RawArticle T).
                  result_le lib a c
                  ≡ tuple_le (article_projection lib a) (article_projection lib c))
                (projection-eq a b (
                  tuple_le-IsOrder.antisym (article_projection lib a) (article_projection lib b)
                    (ground (arith, e)) (ground (arith, e))))
                (ground (
                  arith,
                  tuple_le-IsOrder.total (article_projection lib a) (article_projection lib a),
                  text_le-IsOrder.total (article_fingerprint lib a) (article_fingerprint lib a),
                ))
          | inr d ↦ rw (d) refl
        ]

  result_trans :
      (a b c : RawArticle T)
      → result_le lib a b ≡ true
      → result_le lib b c ≡ true
      → result_le lib a c ≡ true
  result_trans a b c h k = ground (
    arith,
    h,
    k,
    result_le-projection a b,
    result_le-projection b c,
    result_le-projection a c,
    tuple_le-IsOrder.trans (article_projection lib a) (article_projection lib b)
        (article_projection lib c),
  )

  pub result_le-IsOrder : IsOrder (result_le lib)
  result_le-IsOrder = record {
    total = result-total;
    trans = result_trans;
    antisym = result-antisym;
  }
