-- ===== src/Enrichment/Cache/Tests.antt =====
-- A cache with an entry that is put again.
use procuresignal.Prelude.{String, [], refl, some, true, ◌∷◌, ◌≡◌}
use procuresignal.Enrichment.Cache.{Codec, Entry, Identity, put}
use procuresignal.Enrichment.Cache.Laws.{answer_of, get-put}

abbrev codec : Codec String String
codec = record { model_dump = λ s. s; model_validate = λ s. some s }

abbrev identity : String → Identity
identity fingerprint = record {
  fingerprint = fingerprint;
  policy_version = "p1";
  taxonomy_version = "t1";
}

abbrev entry : String → String → Entry String
entry fingerprint output = record {
  identity = identity fingerprint;
  payload = output;
  original_method = "llm";
  hit_count = 2;
}

get-put_example :
    (answer_of codec (identity "a") (entry "a" "new" ∷ entry "b" "other" ∷ [])
      ≡ some (record { output = "new"; original_method = "llm" }))
    × (answer_of codec (identity "b") (entry "a" "new" ∷ entry "b" "other" ∷ [])
        ≡ answer_of codec (identity "b") (entry "a" "old" ∷ entry "b" "other" ∷ []))
unfolding put
get-put_example =
    get-put codec true (identity "a") (identity "b") "new" "llm"
      (entry "a" "old" ∷ entry "b" "other" ∷ []) (entry "a" "new" ∷ entry "b" "other" ∷ []) refl
      refl refl
