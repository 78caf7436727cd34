-- ===== src/Retrieval/SourceLease/Tests.antt =====
-- shared/procuresignal/retrieval/audit.py on small inputs, and the theorems applied there.
use procuresignal.Prelude.{List, [], arith, false, inl, none, refl, some, true, ◌∷◌, ◌≡◌}
use procuresignal.Retrieval.SourceLease.{
  Key, Outcome, claim_seen, claim_source, complete_source, completed_with, fail_source, new_outcome,
  update_source,
}
use procuresignal.Retrieval.SourceLease.Calls.{
  Call, any_succeeds, call, calls, claim, complete, fail,
}
use procuresignal.Retrieval.SourceLease.Detail.{safe_detail}
use procuresignal.Retrieval.SourceLease.Exclusive.{source_lease_is_exclusive}
use procuresignal.Retrieval.SourceLease.Settled.{settled_is_final}

program : Unit {0}
unfolding claim_source claim_seen complete_source fail_source update_source safe_detail call calls
    any_succeeds
program = tt

abbrev key : Key
key = (7, "fda")

abbrev claimed : List Outcome
claimed = new_outcome (7, "fda") "w1" 100 ∷ []

claim-empty : claim_source false key "w1" 100 [] ≡ (claimed, true)
unfolding program
claim-empty = refl

claim-other_worker : (claim_source false key "w2" 4000 claimed).1 ≡ false
unfolding program
claim-other_worker = refl

takeover-late : (claim_source false key "w2" 4001 claimed).1 ≡ true
unfolding program
takeover-late = refl

detail-unsafe : safe_detail (some "Bearer abc") ≡ none
unfolding program
detail-unsafe = refl

abbrev settled : List Outcome
settled = completed_with 200 (λ c. c) (new_outcome (7, "fda") "w1" 100) ∷ []

complete-claimed : complete_source key "w1" 200 (λ c. c) claimed ≡ (settled, true)
unfolding program
complete-claimed = refl

settled_is_final_example :
    any_succeeds key (claim false none key "w1" 300 ∷ fail key "w1" "http" none 300 0 ∷ []) settled
    ≡ false
settled_is_final_example =
    settled_is_final key "w1" 200 claimed settled (refl, tt) "http" none 0 (λ c. c)
      (claim false none key "w1" 300 ∷ fail key "w1" "http" none 300 0 ∷ []) (inl complete-claimed)

abbrev others : List Call
others = claim false none key "w2" 4000 ∷ complete key "w2" 150 (λ c. c) ∷ []

source_lease_is_exclusive_example :
    (any_succeeds key others claimed ≡ false)
    × ((complete_source key "w1" 4000 (λ c. c) (calls others claimed)).1 ≡ true)
source_lease_is_exclusive_example =
    source_lease_is_exclusive key "w1" 100 4000 (λ c. c) false none [] claimed others tt
      (unfold claim_seen in refl) refl (omega arith)
