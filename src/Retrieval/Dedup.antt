-- ===== src/Retrieval/Dedup.antt =====
-- shared/procuresignal/retrieval/deduplication.py, and `RawArticle` of retrieval/base.py.
-- An article has its fields as `_article_projection` compares them: the tuples of domains and
-- countries joined, and the payload as the text of `_payload_key`. Its times are values of a type T,
-- of which a `Library` has isoformat() as they are and in UTC; the components that store articles take
-- for T the texts of isoformat(), which say the time and its zone. Python's URL parsing, json.dumps,
-- casefold and strip, and SHA-256 are functions of the `Library` too.
pub mod Orders
pub mod Groups
pub mod Stable
pub mod Counts
pub mod Samples
mod Tests
use mathlib.Core.Option
use Prim.Native.String.{◌++◌ as join}
use procuresignal.Prelude.{
  Bool, List, Option, String, [], false, if◌then◌else◌, length, ltb, none, not, some, str_eq, ℕ,
  ◌&&◌, ◌++◌, ◌-◌, ◌==◌, ◌||◌, ◌∷◌,
}
use procuresignal.Prelude.Order.{text_le, tuple_le}
use procuresignal.Prelude.Sorted.{min_by, sort_by}

pub record RawArticle (T : Type 0) : Type 0 where
  pub provider : String
  pub provider_article_id : Option String
  pub query_group : String
  pub title : String
  pub description : Option String
  pub content_snippet : Option String
  pub article_url : String
  pub canonical_url : Option String
  pub source_name : String
  pub source_url : Option String
  pub published_at : T
  pub language : String
  pub raw_payload : Option String
  pub source_id : Option String
  pub source_class : Option String
  pub source_domains : String
  pub source_countries : String
  pub registry_version : Option String
  pub retrieved_at : Option T
  pub source_published_at_raw : Option String

pub record Library (T : Type 0) : Type 0 where
  -- value.isoformat(), and of a value with a zone that of value.astimezone(timezone.utc) without it
  pub isoformat : T → String
  pub in_utc : T → Option String
  -- canonicalize_url
  pub canonicalize : String → String
  -- `_optional_text`, `_optional_datetime` and `_optional_payload`: json.dumps of a tagged pair
  pub optional_text : Option String → String
  pub optional_datetime : Option String → String
  pub optional_payload : Option String → String
  -- value.casefold().strip()
  pub folded : String → String
  pub sha256 : String → String

-- a or b, for texts
abbrev pub or_text : Option String → String → String
or_text none b = b
or_text (some a) b = if str_eq a "" then b else a

-- "\0".join
abbrev pub joined : List String → String
joined [] = ""
joined (x ∷ []) = x
joined (x ∷ y ∷ xs) = join x (join "\0" (joined (y ∷ xs)))

abbrev pub has_stable_provider_id : String → Option String → Bool
has_stable_provider_id provider none = false
has_stable_provider_id provider (some id) = not (str_eq id "") && str_eq provider "eu_sanctions"

module _ {T : Type 0} (lib : Library T) where
  open lib use {
    isoformat, in_utc, canonicalize, optional_text, optional_datetime, optional_payload, folded,
    sha256,
  }

  -- `_datetime_key`
  abbrev pub datetime_key : T → String
  datetime_key t = elim (in_utc t) [ none ↦ isoformat t | some text ↦ text ]

  abbrev pub url_of : RawArticle T → String
  url_of a = canonicalize (or_text a.canonical_url a.article_url)

  unfoldable pub article_fingerprint : RawArticle T → String
  article_fingerprint a = sha256 (
      if has_stable_provider_id a.provider a.provider_article_id
      then joined ("provider" ∷ a.provider ∷ or_text a.provider_article_id "" ∷ [])
      else if str_eq (url_of a) ""
      then joined (
          "content"
          ∷ folded a.title
          ∷ folded (or_text a.description "")
          ∷ isoformat a.published_at
          ∷ [])
      else joined ("url" ∷ url_of a ∷ []))

  unfoldable pub article_projection : RawArticle T → List String
  article_projection a =
      a.provider
      ∷ optional_text a.provider_article_id
      ∷ a.query_group
      ∷ a.title
      ∷ optional_text a.description
      ∷ optional_text a.content_snippet
      ∷ a.article_url
      ∷ url_of a
      ∷ optional_text a.canonical_url
      ∷ a.source_name
      ∷ optional_text a.source_url
      ∷ datetime_key a.published_at
      ∷ a.language
      ∷ optional_payload a.raw_payload
      ∷ optional_text a.source_id
      ∷ optional_text a.source_class
      ∷ a.source_domains
      ∷ a.source_countries
      ∷ optional_text a.registry_version
      ∷ optional_datetime (Option.map datetime_key a.retrieved_at)
      ∷ optional_text a.source_published_at_raw
      ∷ []

  -- `_AUTHORITY`
  abbrev pub authority_of : Option String → ℕ
  authority_of none = 0
  authority_of (some c) =
      if str_eq c "official"
      then 3
      else if str_eq c "established_media"
      then 2
      else if str_eq c "industry"
      then 1
      else 0

  -- The order of `_preference`
  unfoldable pub preference_le : RawArticle T → RawArticle T → Bool
  preference_le a b =
      ltb (authority_of b.source_class) (authority_of a.source_class)
      || ((authority_of a.source_class == authority_of b.source_class)
          && tuple_le (article_projection a) (article_projection b))

  -- The order of `_result_order`. A fingerprint decides nothing after an equal projection.
  unfoldable pub result_le : RawArticle T → RawArticle T → Bool
  result_le a b =
      if tuple_le (article_projection a) (article_projection b)
        && tuple_le (article_projection b) (article_projection a)
      then text_le (article_fingerprint a) (article_fingerprint b)
      else tuple_le (article_projection a) (article_projection b)

  -- groups.setdefault(fingerprint, []).append(article); a group is told by its first article.
  unfoldable pub add_to_group :
      String
      → RawArticle T
      → List (String × RawArticle T × List (RawArticle T))
      → List (String × RawArticle T × List (RawArticle T))
  add_to_group key a [] = (key, a, []) ∷ []
  add_to_group key a ((k, first, more) ∷ groups) =
      if str_eq k key
      then (k, first, more ++ a ∷ []) ∷ groups
      else (k, first, more) ∷ add_to_group key a groups

  unfoldable pub group_articles :
      List (String × RawArticle T × List (RawArticle T))
      → List (RawArticle T)
      → List (String × RawArticle T × List (RawArticle T))
  unfolding add_to_group
  group_articles groups [] = groups
  group_articles groups (a ∷ articles) =
      group_articles (add_to_group (article_fingerprint a) a groups) articles

  unfoldable pub winners : List (String × RawArticle T × List (RawArticle T)) → List (RawArticle T)
  unfolding min_by
  winners [] = []
  winners ((k, first, more) ∷ groups) = min_by preference_le first more ∷ winners groups

  -- The articles that are retained, and the number of duplicates.
  unfoldable pub deduplicate_within_run : List (RawArticle T) → List (RawArticle T) × ℕ
  unfolding group_articles winners sort_by
  deduplicate_within_run articles =
      let retained = sort_by result_le (winners (group_articles [] articles)) in
      (retained, length articles - length retained)
