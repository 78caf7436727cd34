-- ===== src/Retrieval/Fetcher/Retries.antt =====
-- retrieval/fetching.py: `fetch` ends, after few attempts and bounded waits, and tells the circuit
-- once.
use procuresignal.Prelude.{
  All, All-append, Bool, List, Option, String, [], arith, false, if◌then◌else◌, length,
  length-append, none, refl, some, true, ℕ, zero, suc, ◌+◌, ◌++◌, ◌<◌, ◌∷◌, ◌≡◌, ◌≤◌,
}
use procuresignal.Retrieval.Fetcher.{
  CircuitStore, Fetched, Outcome, returned, raised_in, fetcher_closed, unreachable, waits_after,
  Verdict, Weather, after_attempt, result_of, circuit_open, delay_of, fetch, fetch_from, gave_up,
  retries, succeeded, told_success, verdict_of,
}
use procuresignal.Retrieval.Fetcher.Attempt.{
  FetchResult, Headers, SafeFetcher, Source, is_ok, new_fetcher, aclose,
}

pub delay-le :
    (jitter : ℕ → ℕ) (attempt : ℕ) (wait : Option ℕ) → delay_of jitter attempt wait ≤ 900000
unfolding delay_of
delay-le jitter attempt none = ground arith
delay-le jitter attempt (some wait) = ground arith

module _ {S : Type 0} (circuits : CircuitStore S) (headers : Headers) (fetcher : SafeFetcher)
    (source : Source) (weather : Weather) where
  -- What the circuit is told at the end: a success, unless that is deferred, or one failure.
  abbrev pub told : S → Fetched S → S
  told s r =
      if is_ok r.result
      then told_success circuits headers fetcher source weather s
      else circuits.record_circuit_failure source.source_id (weather.clock r.attempts) s

  -- An end after some attempts: one wait between two of them, each of at most a quarter of an hour.
  abbrev pub IsEnding : S → Fetched S → Type 0
  IsEnding s r =
      (r.attempts ≤ fetcher.max_attempts)
      × (length r.sleeps + 1 ≡ r.attempts)
      × All (λ wait. wait ≤ 900000) r.sleeps
      × (r.store ≡ told s r)

  -- With a result as above, or with the exception of an attempt, of which the circuit is not told.
  abbrev pub Ends : S → Outcome S → Type 0
  Ends s (returned r) = IsEnding s r
  Ends s (raised_in attempt store) =
      (attempt < fetcher.max_attempts)
      × (result_of circuits headers fetcher source weather attempt ≡ none)
      × (store ≡ s)
  Ends s (fetcher_closed store) = ⊥
  Ends s unreachable = ⊥

  -- What each verdict says.
  succeeded→ok :
      (attempt : ℕ) (r : FetchResult) → verdict_of fetcher attempt r ≡ succeeded → is_ok r ≡ true
  succeeded→ok attempt r e = ground (arith, e)

  gave_up→failed :
      (attempt : ℕ) (r : FetchResult) → verdict_of fetcher attempt r ≡ gave_up → is_ok r ≡ false
  gave_up→failed attempt r e = ground (arith, e)

  retries→more :
      (attempt : ℕ) (r : FetchResult)
      → verdict_of fetcher attempt r ≡ retries
      → attempt + 1 < fetcher.max_attempts
  retries→more attempt r e = ground (arith, e)

  attempt-Ends :
      (v : Verdict) (attempt : ℕ) (result : FetchResult) (sleeps : List ℕ) (s : S)
      (rest : Outcome S)
      → verdict_of fetcher attempt result ≡ v
      → attempt < fetcher.max_attempts
      → length sleeps ≡ attempt
      → All (λ wait. wait ≤ 900000) sleeps
      → (attempt + 1 < fetcher.max_attempts → Ends s rest)
      → Ends s
          (after_attempt circuits headers fetcher source weather v attempt result sleeps s rest)
  unfolding after_attempt
  attempt-Ends succeeded attempt result sleeps s rest e left one_each short more =
      (omega (arith, left), omega (arith, one_each), short, rw (succeeded→ok attempt result e) refl)
  attempt-Ends gave_up attempt result sleeps s rest e left one_each short more = (
    omega (arith, left),
    omega (arith, one_each),
    short,
    rw (gave_up→failed attempt result e) refl,
  )
  attempt-Ends retries attempt result sleeps s rest e left one_each short more =
      more (retries→more attempt result e)

  by_result :
      (left attempt : ℕ) (sleeps : List ℕ) (s : S) (o : Option FetchResult)
      → result_of circuits headers fetcher source weather attempt ≡ o
      → attempt < fetcher.max_attempts
      → length sleeps ≡ attempt
      → All (λ wait. wait ≤ 900000) sleeps
      → ((result : FetchResult)
          → attempt + 1 < fetcher.max_attempts
          → Ends s (
              fetch_from circuits headers fetcher source weather left
                (attempt + 1)
                (waits_after circuits headers fetcher source weather attempt result sleeps)
                s))
      → Ends s (elim o [
        | none ↦ raised_in attempt s
        | some result ↦
            after_attempt circuits headers fetcher source weather
              (verdict_of fetcher attempt result)
              attempt
              result
              sleeps
              s
              (fetch_from circuits headers fetcher source weather left
                (attempt + 1)
                (waits_after circuits headers fetcher source weather attempt result sleeps)
                s)
      ])
  by_result left attempt sleeps s none e more one_each short rest = (more, e, refl)
  by_result left attempt sleeps s (some result) e more one_each short rest =
      attempt-Ends (verdict_of fetcher attempt result) attempt result sleeps s _ refl more one_each
        short (rest result)

  fetch_from-Ends :
      (left attempt : ℕ) (sleeps : List ℕ) (s : S)
      → 0 < left
      → left + attempt ≡ fetcher.max_attempts
      → length sleeps ≡ attempt
      → All (λ wait. wait ≤ 900000) sleeps
      → Ends s (fetch_from circuits headers fetcher source weather left attempt sleeps s)
  unfolding fetch_from
  fetch_from-Ends zero attempt sleeps s some_left all_told one_each short =
      absurd (omega (arith, some_left))
  fetch_from-Ends (suc left) attempt sleeps s some_left all_told one_each short =
      by_result left attempt sleeps s (result_of circuits headers fetcher source weather attempt)
        refl (omega (arith, all_told)) one_each short
        (λ result more.
          let wait : ℕ = delay_of weather.jitter attempt result.retry_after in
          fetch_from-Ends left (attempt + 1) (sleeps ++ wait ∷ []) s (omega (arith, all_told, more))
            (omega (arith, all_told)) (omega (arith, one_each, length-append sleeps (wait ∷ [])))
            (All-append (λ w. w ≤ 900000) sleeps (wait ∷ []) short
              (delay-le weather.jitter attempt result.retry_after, tt)))

  -- Whether the circuit lets it through or not
  abbrev pub FetchEnds : Outcome S → S → Bool → Type 0
  FetchEnds o s true = Ends s o
  FetchEnds o s false = o ≡ returned (circuit_open circuits headers fetcher source weather s)

  by_permission :
      (allowed : Bool) (s : S) (o : Outcome S)
      → Ends s o
      → FetchEnds
          (if allowed then o else returned (circuit_open circuits headers fetcher source weather s))
          s
          allowed
  by_permission true s o h = h
  by_permission false s o h = refl

-- A fetcher that the constructor accepts ends every fetch, and the error after its loop is
-- unreachable. If the circuit refuses, that is the result and nothing is requested. Otherwise at
-- least one attempt and at most three are made, and either one of them raises an exception, of which
-- the circuit is not told, or a result is returned: with one wait between two attempts, each of at
-- most 900 seconds, and the circuit told once at the end, of a success, unless that is deferred, or
-- of one failure, however many attempts failed. Once closed, it raises and leaves the circuit alone.
pub fetch-ends :
    {S : Type 0} (circuits : CircuitStore S) (headers : Headers) (fetcher : SafeFetcher)
    (source : Source) (weather : Weather) (owner : String) (bytes attempts redirects : ℕ)
    (deferred : Bool) (s : S)
    → new_fetcher owner bytes attempts redirects deferred ≡ some fetcher
    → let (s', allowed) =
        circuits.allow_circuit_request source.source_id fetcher.owner (weather.clock 0) s in
      (fetcher.max_attempts ≤ 3)
      × FetchEnds circuits headers fetcher source weather
          (fetch circuits headers fetcher source weather s)
          s'
          allowed
      × (fetch circuits headers (aclose fetcher) source weather s ≡ fetcher_closed s)
unfolding fetch new_fetcher
fetch-ends circuits headers fetcher source weather owner bytes attempts redirects deferred s h =
    let (s', allowed) =
      circuits.allow_circuit_request source.source_id fetcher.owner (weather.clock 0) s in
    let open_ : fetcher.is_closed ≡ false = ground (arith, h) in
    (
      ground (arith, h),
      rw open_ (
          by_permission circuits headers fetcher source weather allowed s'
            (fetch_from circuits headers fetcher source weather fetcher.max_attempts 0 [] s')
            (fetch_from-Ends circuits headers fetcher source weather fetcher.max_attempts 0 [] s'
              (ground (arith, h)) (omega arith) refl tt)),
      refl,
    )
