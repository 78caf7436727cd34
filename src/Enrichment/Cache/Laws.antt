-- ===== src/Enrichment/Cache/Laws.antt =====
-- What the cache returns is what was put last.
use procuresignal.Prelude.{
  Bool, List, Option, String, [], arith, eq_iff, false, if◌then◌else◌, none, refl, some, sym, true,
  ap, ◌∙◌, ◌↔◌, ◌≡◌, ◌∷◌, ◌++◌,
}
use procuresignal.Prelude.Keyed.{row_of-has_key}
use procuresignal.Prelude.Table.{find?-append, find?-update_where, update_where, updated}
use procuresignal.Enrichment.Cache.{
  CachedEnrichment, Codec, Entry, Identity, entry_of, get, identity_of, new_entry, overwritten, put,
  same_identity, validated, with_identity,
}

pub same_identity_iff : (a b : Identity) → (same_identity a b ≡ true) ↔ (a ≡ b)
same_identity_iff a b = ground (
  arith,
  eq_iff a.fingerprint b.fingerprint,
  eq_iff a.policy_version b.policy_version,
  eq_iff a.taxonomy_version b.taxonomy_version,
)

module _ {Output Payload : Type 0} (codec : Codec Output Payload) where
  abbrev overwritten_at :
      Identity → Identity → Output → String → Option (Entry Payload) → Option (Entry Payload)
  overwritten_at j k output method none = none
  overwritten_at j k output method (some e) =
      some (if same_identity j k then overwritten codec output method e else e)

  updated_row :
      (j k : Identity) (output : Output) (method : String) (o : Option (Entry Payload))
      → elim o [ none ↦ true | some e ↦ with_identity codec j e ] ≡ true
      → updated (with_identity codec k) (overwritten codec output method) o
        ≡ overwritten_at j k output method o
  updated_row j k output method none h = refl
  updated_row j k output method (some e) h =
      ap
        (λ (i : Identity).
          some (if same_identity i k then overwritten codec output method e else e))
        ((same_identity_iff e.identity j).0 h)

  -- The entry after an overwriting update, of the same identity and of others.
  updated_entry :
      (j k : Identity) (output : Output) (method : String) (entries : List (Entry Payload))
      → entry_of codec j
          (update_where (with_identity codec k) (overwritten codec output method) entries)
        ≡ overwritten_at j k output method (entry_of codec j entries)
  unfolding entry_of
  updated_entry j k output method entries =
      find?-update_where (with_identity codec j) (with_identity codec k)
        (overwritten codec output method) entries (λ e. refl)
      ∙ updated_row j k output method (entry_of codec j entries)
          (row_of-has_key same_identity (identity_of codec) j entries)

  abbrev appended_at : Identity → Entry Payload → Option (Entry Payload) → Option (Entry Payload)
  appended_at j e none = if same_identity e.identity j then some e else none
  appended_at j e (some found) = some found

  appended_entry :
      (j : Identity) (e : Entry Payload) (entries : List (Entry Payload))
      → entry_of codec j (entries ++ e ∷ []) ≡ appended_at j e (entry_of codec j entries)
  unfolding entry_of
  appended_entry j e entries = ground (arith, find?-append (with_identity codec j) entries e)

  abbrev pub answer_of : Identity → List (Entry Payload) → Option (CachedEnrichment Output)
  answer_of k entries = (get codec k entries).1

  -- The answer is told by the entry.
  abbrev read : Option (Entry Payload) → Option (CachedEnrichment Output)
  read none = none
  read (some e) = elim (codec.model_validate e.payload) [
    | none ↦ none
    | some output ↦ some (record { output = output; original_method = e.original_method })
  ]

  answer_of-read :
      (k : Identity) (entries : List (Entry Payload))
      → answer_of k entries ≡ read (entry_of codec k entries)
  unfolding get validated
  answer_of-read k entries = ground arith

  module _ (stale : Bool) (k : Identity) (output : Output) (method : String)
      (entries entries' : List (Entry Payload)) where
    put-same :
        codec.model_validate (codec.model_dump output) ≡ some output
        → put codec stale k output method entries ≡ some entries'
        → read (entry_of codec k entries')
          ≡ some (record { output = output; original_method = method })
    unfolding put
    put-same round h = ground (
      arith,
      h,
      round,
      same_identity_iff k k,
      updated_entry k k output method entries,
      appended_entry k (new_entry codec k output method) entries,
    )

    put-other :
        (j : Identity)
        → same_identity j k ≡ false
        → put codec stale k output method entries ≡ some entries'
        → read (entry_of codec j entries') ≡ read (entry_of codec j entries)
    unfolding put
    put-other j differ h = ground (
      arith,
      h,
      differ,
      same_identity_iff k j,
      same_identity_iff j k,
      updated_entry j k output method entries,
      appended_entry j (new_entry codec k output method) entries,
    )

  -- If a dumped output validates as itself, then what an accepted `put` stored is what `get` answers
  -- for its identity, whatever was there before and also when another writer's insert came in
  -- between; the answers for all other identities stay as they were.
  pub get-put :
      (stale : Bool) (k j : Identity) (output : Output) (method : String)
      (entries entries' : List (Entry Payload))
      → codec.model_validate (codec.model_dump output) ≡ some output
      → put codec stale k output method entries ≡ some entries'
      → same_identity j k ≡ false
      → (answer_of k entries' ≡ some (record { output = output; original_method = method }))
        × (answer_of j entries' ≡ answer_of j entries)
  get-put stale k j output method entries entries' round h differ = (
    answer_of-read k entries' ∙ put-same stale k output method entries entries' round h,
    answer_of-read j entries'
        ∙ put-other stale k output method entries entries' j differ h
        ∙ sym (answer_of-read j entries),
  )
