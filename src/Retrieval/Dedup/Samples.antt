-- ===== src/Retrieval/Dedup/Samples.antt =====
-- Sample articles of two sources about one page, and a library for the tests.
use Prim.Native.String.{◌++◌ as join}
use procuresignal.Prelude.{Option, String, arith, none, refl, some, ◌≡◌}
use procuresignal.Retrieval.Dedup.{Library, RawArticle}
use procuresignal.Retrieval.Dedup.Orders.{TellsApart}

abbrev tagged : Option String → String
tagged none = ""
tagged (some s) = String.◌∷◌ "s" s

abbrev pub library_of : {T : Type 0} → (T → String) → (T → Option String) → Library T
library_of isoformat in_utc = record {
  isoformat = isoformat;
  in_utc = in_utc;
  canonicalize = λ s. s;
  optional_text = tagged;
  optional_datetime = tagged;
  optional_payload = tagged;
  folded = λ s. s;
  sha256 = λ s. s;
}

-- For times without a zone, as their texts
abbrev pub plain : Library String
plain = library_of (λ s. s) (λ s. none)

-- For times that are all in UTC, as what comes before the zone in their texts
abbrev pub utc : Library String
utc = library_of (λ s. join s "+00:00") (λ s. some s)

-- A time with a zone, as its texts in the zone and in UTC, or without.
pub data Time : Type 0 where
  naive : (text : String) → Time
  aware : (text utc_text : String) → Time

abbrev isoformat_of : Time → String
isoformat_of (naive text) = text
isoformat_of (aware text utc_text) = text

abbrev in_utc_of : Time → Option String
in_utc_of (naive text) = none
in_utc_of (aware text utc_text) = some utc_text

abbrev pub mixed : Library Time
mixed = library_of isoformat_of in_utc_of

tagged_apart : (a b : Option String) → tagged a ≡ tagged b → a ≡ b
tagged_apart none none h = refl
tagged_apart none (some s) h = cc
tagged_apart (some s) none h = cc
tagged_apart (some s) (some t) h = ground (arith, h)

pub utc-TellsApart : TellsApart utc
utc-TellsApart = record {
  key = λ a b e. e;
  text = tagged_apart;
  datetime = tagged_apart;
  payload = tagged_apart;
}

abbrev pub from_at : {T : Type 0} → T → String → String → RawArticle T
from_at time provider class = record {
  provider = provider;
  provider_article_id = none;
  query_group = "tariff_changes";
  title = "New tariff";
  description = none;
  content_snippet = none;
  article_url = "https://a.eu/tariff";
  canonical_url = none;
  source_name = provider;
  source_url = none;
  published_at = time;
  language = "en";
  raw_payload = none;
  source_id = none;
  source_class = some class;
  source_domains = "";
  source_countries = "eu";
  registry_version = none;
  retrieved_at = none;
  source_published_at_raw = none;
}

abbrev pub from : String → String → RawArticle String
from = from_at "2025-01-01T00:00:00"

abbrev pub official : RawArticle String
official = from "rss" "official"

abbrev pub reprint : RawArticle String
reprint = from "gdelt" "industry"
