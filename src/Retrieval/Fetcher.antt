-- ===== src/Retrieval/Fetcher.antt =====
-- shared/procuresignal/retrieval/fetching.py: `SafeFetcher.fetch`, the retries of a source under its
-- circuit. The circuit store is an interface, as it is in the source.
pub mod Attempt
pub mod Body
pub mod Retries
mod Tests
use procuresignal.Prelude.{
  Bool, List, Option, String, [], any, contains, false, if◌then◌else◌, leb, length, ltb, max, min,
  none, not, some, str_eq, true, ℕ, zero, suc, ◌&&◌, ◌*◌, ◌+◌, ◌++◌, ◌/◌, ◌∷◌, ◌==◌, ◌^◌, ◌||◌,
}
use procuresignal.Retrieval.Fetcher.Attempt.{
  FetchResult, failed_with, is_ok, Reply, Headers, SafeFetcher, Source, attempt_fetch,
}

pub record CircuitStore (S : Type 0) : Type 0 where
  pub allow_circuit_request : String → String → ℕ → S → S × Bool
  pub record_circuit_failure : String → ℕ → S → S
  pub record_circuit_success : String → String → S → S × Bool

abbrev pub is_retryable : FetchResult → Bool
is_retryable r = elim r.failure_code [
  | none ↦ false
  | some code ↦ contains code ("network_error" ∷ "rate_limited" ∷ "transient_http_status" ∷ [])
]

-- The wait before the next attempt: the server's, or a backoff with jitter.
unfoldable pub delay_of : (ℕ → ℕ) → ℕ → Option ℕ → ℕ
delay_of jitter attempt (some wait) = min wait 900000
delay_of jitter attempt none =
    let base = min (1000 * 2 ^ attempt) 30000 in
    min (base + min (min (jitter base) (base / 4)) 5000) 900000

-- What an attempt's result leads to.
pub data Verdict : Type 0 where
  succeeded gave_up retries : Verdict

abbrev pub verdict_of : SafeFetcher → ℕ → FetchResult → Verdict
verdict_of fetcher attempt result =
    if is_ok result
    then succeeded
    else if not (is_retryable result) || leb fetcher.max_attempts (attempt + 1)
    then gave_up
    else retries

pub record Fetched (S : Type 0) : Type 0 where
  pub result : FetchResult
  pub store : S
  pub attempts : ℕ
  pub sleeps : List ℕ

-- How `fetch` ends: with a result, an exception of an attempt that it lets through, the RuntimeError of
-- a closed fetcher, or the AssertionError after its loop.
pub data Outcome (S : Type 0) : Type 0 where
  returned : (r : Fetched S) → Outcome S
  raised_in : (attempt : ℕ) (store : S) → Outcome S
  fetcher_closed : (store : S) → Outcome S
  unreachable : Outcome S

-- The replies by attempt, hop and URL, the clock by attempts made, and the jitter, at least 0.
pub record Weather : Type 0 where
  pub network : ℕ → ℕ → String → Reply
  pub clock : ℕ → ℕ
  pub jitter : ℕ → ℕ

module _ {S : Type 0} (circuits : CircuitStore S) (headers : Headers) (fetcher : SafeFetcher)
    (source : Source) (weather : Weather) where
  open circuits use {allow_circuit_request, record_circuit_failure, record_circuit_success}

  abbrev pub told_success : S → S
  told_success s =
      if fetcher.defer_success
      then s
      else (record_circuit_success source.source_id fetcher.owner s).0

  -- The end of an attempt; `rest` is the loop after it.
  unfoldable pub after_attempt : Verdict → ℕ → FetchResult → List ℕ → S → Outcome S → Outcome S
  after_attempt succeeded attempt result sleeps s rest =
      returned (record {
        result = result;
        store = told_success s;
        attempts = attempt + 1;
        sleeps = sleeps;
      })
  after_attempt gave_up attempt result sleeps s rest = returned (record {
    result = result;
    store = record_circuit_failure source.source_id (weather.clock (attempt + 1)) s;
    attempts = attempt + 1;
    sleeps = sleeps;
  })
  after_attempt retries attempt result sleeps s rest = rest

  abbrev pub result_of : ℕ → Option FetchResult
  unfolding attempt_fetch
  result_of attempt =
      attempt_fetch headers fetcher source (weather.clock attempt) (weather.network attempt)

  abbrev pub waits_after : ℕ → FetchResult → List ℕ → List ℕ
  waits_after attempt result sleeps =
      sleeps ++ delay_of weather.jitter attempt result.retry_after ∷ []

  -- The loop of `fetch` with the attempts that are left.
  unfoldable pub fetch_from : ℕ → ℕ → List ℕ → S → Outcome S
  unfolding after_attempt result_of
  fetch_from zero attempt sleeps s = unreachable
  fetch_from (suc left) attempt sleeps s = elim (result_of attempt) [
    | none ↦ raised_in attempt s
    | some result ↦
        after_attempt (verdict_of fetcher attempt result) attempt result sleeps s
          (fetch_from left (attempt + 1) (waits_after attempt result sleeps) s)
  ]

  abbrev pub circuit_open : S → Fetched S
  circuit_open s = record {
    result = failed_with "circuit_open";
    store = s;
    attempts = 0;
    sleeps = [];
  }

  unfoldable pub fetch : S → Outcome S
  unfolding fetch_from
  fetch s =
      let (s', allowed) =
        allow_circuit_request source.source_id fetcher.owner (weather.clock 0) s in
      if fetcher.is_closed
      then fetcher_closed s
      else if allowed
      then fetch_from fetcher.max_attempts 0 [] s'
      else returned (circuit_open s')
