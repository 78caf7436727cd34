-- ===== src/Retrieval/Persistence.antt =====
-- shared/procuresignal/retrieval/persistence.py: articles into the table of raw news.
-- The table is the list of its rows, unique by ingest_hash; a row keeps its article as it came in. A
-- statement may raise, which the caller of the model says by `raises`: its savepoint is undone. The
-- commit is the caller's, as with `commit=False`.
pub mod Laws
mod Tests
use Prim.Native.String.{◌++◌ as join}
use procuresignal.Prelude.{
  Bool, List, Option, String, [], if◌then◌else◌, is_some, str_eq, ℕ, ◌++◌, ◌+◌, ◌∷◌,
}
use procuresignal.Prelude.Keyed.{row_of}
use procuresignal.Retrieval.Dedup.{RawArticle, has_stable_provider_id, or_text}

pub record NewsArticleRaw : Type 0 where
  pub ingest_hash : String
  pub article : RawArticle String
  pub ingested_at : ℕ

pub record Saved : Type 0 where
  pub inserted : ℕ
  pub duplicates : ℕ
  pub errors : ℕ

abbrev pub none_saved : Saved
none_saved = record { inserted = 0; duplicates = 0; errors = 0 }

abbrev pub hash_of : NewsArticleRaw → String
hash_of r = r.ingest_hash

abbrev pub article_of : String → List NewsArticleRaw → Option NewsArticleRaw
article_of hash rows = row_of str_eq hash_of hash rows

-- sha256 stands for hashlib's digest in hexadecimal.
module _ (sha256 : String → String) where
  unfoldable pub create_ingest_hash : String → String → String → String → Option String → String
  create_ingest_hash title source published_at provider id = sha256 (
      if has_stable_provider_id provider id
      then join "provider|" (join provider (join "|" (or_text id "")))
      else join title (join "|" (join source (join "|" published_at))))

  abbrev pub ingest_hash_of : RawArticle String → String
  ingest_hash_of a =
      create_ingest_hash a.title a.source_name a.published_at a.provider a.provider_article_id

  module _ (raises : RawArticle String → Bool) (now : ℕ) where
    abbrev pub row_for : RawArticle String → NewsArticleRaw
    row_for a = record { ingest_hash = ingest_hash_of a; article = a; ingested_at = now }

    -- INSERT … ON CONFLICT (ingest_hash) DO NOTHING, and its rowcount.
    unfoldable pub save_article :
        RawArticle String → List NewsArticleRaw → Saved → List NewsArticleRaw × Saved
    save_article a rows saved =
        if raises a
        then (rows, record saved { errors = saved.errors + 1 })
        else if is_some (article_of (ingest_hash_of a) rows)
        then (rows, record saved { duplicates = saved.duplicates + 1 })
        else (rows ++ row_for a ∷ [], record saved { inserted = saved.inserted + 1 })

    unfoldable pub save_all :
        List (RawArticle String) → List NewsArticleRaw → Saved → List NewsArticleRaw × Saved
    unfolding save_article
    save_all [] rows saved = (rows, saved)
    save_all (a ∷ articles) rows saved =
        let (rows', saved') = save_article a rows saved in save_all articles rows' saved'

    unfoldable pub save_articles :
        List (RawArticle String) → List NewsArticleRaw → List NewsArticleRaw × Saved
    unfolding save_all
    save_articles articles rows = save_all articles rows none_saved
