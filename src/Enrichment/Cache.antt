-- ===== src/Enrichment/Cache.antt =====
-- shared/procuresignal/enrichment/cache.py: outputs by the fingerprint of their content and the
-- versions of policy and taxonomy. The table is the list of its rows, unique by that identity.
-- Pydantic's `model_dump` and `model_validate` are parameters; a ValidationError is `none`, and so is
-- the ValueError of `put`.
pub mod Laws
mod Tests
use procuresignal.Prelude.{
  Bool, List, Option, String, [], if◌then◌else◌, is_some, none, some, str_eq, ℕ, ◌&&◌, ◌+◌, ◌++◌,
  ◌||◌, ◌∷◌, false,
}
use procuresignal.Prelude.Keyed.{row_of}
use procuresignal.Prelude.Table.{update_where}

pub record Identity : Type 0 where
  pub fingerprint : String
  pub policy_version : String
  pub taxonomy_version : String

abbrev pub same_identity : Identity → Identity → Bool
same_identity a b =
    str_eq a.fingerprint b.fingerprint
    && (str_eq a.policy_version b.policy_version && str_eq a.taxonomy_version b.taxonomy_version)

pub record Entry (Payload : Type 0) : Type 0 where
  pub identity : Identity
  pub payload : Payload
  pub original_method : String
  pub hit_count : ℕ

pub record CachedEnrichment (Output : Type 0) : Type 0 where
  pub output : Output
  pub original_method : String

-- EnrichmentOutput with its two conversions
pub record Codec (Output Payload : Type 0) : Type 0 where
  pub model_dump : Output → Payload
  pub model_validate : Payload → Option Output

abbrev pub is_allowed : String → Bool
is_allowed method = str_eq method "deterministic" || str_eq method "llm"

module _ {Output Payload : Type 0} (codec : Codec Output Payload) where
  open codec use {model_dump, model_validate}

  abbrev pub identity_of : Entry Payload → Identity
  identity_of e = e.identity

  abbrev pub with_identity : Identity → Entry Payload → Bool
  with_identity k e = same_identity e.identity k

  -- `_query`
  unfoldable pub entry_of : Identity → List (Entry Payload) → Option (Entry Payload)
  entry_of k entries = row_of same_identity identity_of k entries

  abbrev pub hit : Entry Payload → Entry Payload
  hit e = record e { hit_count = e.hit_count + 1 }

  -- The entry of `get` once its payload has been validated.
  unfoldable pub validated :
      Identity
      → Entry Payload
      → Option Output
      → List (Entry Payload)
      → List (Entry Payload) × Option (CachedEnrichment Output)
  validated k e none entries = (entries, none)
  validated k e (some output) entries = (
    update_where (with_identity k) hit entries,
    some (record { output = output; original_method = e.original_method }),
  )

  unfoldable pub get_found :
      Identity
      → Option (Entry Payload)
      → List (Entry Payload)
      → List (Entry Payload) × Option (CachedEnrichment Output)
  unfolding validated
  get_found k none entries = (entries, none)
  get_found k (some e) entries = validated k e (model_validate e.payload) entries

  unfoldable pub get :
      Identity → List (Entry Payload) → List (Entry Payload) × Option (CachedEnrichment Output)
  unfolding get_found entry_of
  get k entries = get_found k (entry_of k entries) entries

  abbrev pub overwritten : Output → String → Entry Payload → Entry Payload
  overwritten output method e = record e { payload = model_dump output; original_method = method }

  abbrev pub new_entry : Identity → Output → String → Entry Payload
  new_entry k output method = record {
    identity = k;
    payload = model_dump output;
    original_method = method;
    hit_count = 0;
  }

  -- `put`, where `stale` says that its read came before the insert of another writer: then the
  -- insert is refused, and the entry is read again.
  unfoldable pub put :
      Bool → Identity → Output → String → List (Entry Payload) → Option (List (Entry Payload))
  unfolding entry_of
  put stale k output method entries =
      if is_allowed method
      then some (
          if is_some (if stale then none else entry_of k entries)
          then update_where (with_identity k) (overwritten output method) entries
          else if is_some (entry_of k entries)
          then update_where (with_identity k) (overwritten output method) entries
          else entries ++ new_entry k output method ∷ [])
      else none
