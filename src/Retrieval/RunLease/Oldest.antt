-- ===== src/Retrieval/RunLease/Oldest.antt =====
-- shared/procuresignal/retrieval/audit.py: the run that `claim_run` takes.
use procuresignal.Prelude.{
  Bool, List, Option, String, any, false, if◌then◌else◌, none, not, some, true, ℕ, ◌&&◌, ◌≡◌,
}
use procuresignal.Retrieval.RunLease.{Run, claimable, comes_before, leased}
use procuresignal.Retrieval.RunLease.Laws.{run_of}

-- Whether the run could be taken instead of `r` and comes before it.
abbrev pub waits_longer : (ℕ → Bool) → ℕ → Run → Run → Bool
waits_longer skip now r x = claimable now x && not (skip x.id) && comes_before x r

abbrev none_waits_longer : (ℕ → Bool) → ℕ → Run → List Run → Bool
none_waits_longer skip now r rows = not (any (waits_longer skip now r) rows)

abbrev Candidate : (ℕ → Bool) → ℕ → Run → Type 0
Candidate skip now r = (claimable now r ≡ true) × (skip r.id ≡ false)

-- What the update makes of the row that the select gave, as it finds it.
abbrev UpdatedRow : String → ℕ → List Run → Option Run → List Run × Option Run → Type 0
UpdatedRow owner now rows none answer = answer ≡ (rows, none)
UpdatedRow owner now rows (some x) answer =
    if claimable now x then answer.1 ≡ some (leased owner now x) else answer ≡ (rows, none)

abbrev pub Updated : ℕ → String → ℕ → List Run → List Run × Option Run → Type 0
Updated run owner now rows answer = UpdatedRow owner now rows (run_of run rows) answer
