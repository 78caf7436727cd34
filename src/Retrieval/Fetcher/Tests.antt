-- ===== src/Retrieval/Fetcher/Tests.antt =====
-- A source that redirects, is busy twice and then answers.
use procuresignal.Prelude.{
  if◌then◌else◌, str_eq, List, String, [], false, none, refl, some, true, ℕ, zero, suc, ◌+◌, ◌∷◌,
  ◌≡◌, ◌≤◌,
}
use procuresignal.Retrieval.Circuit.{
  circuit_of, Circuit, allow_circuit_request, record_circuit_failure, record_circuit_success,
}
use procuresignal.Retrieval.Fetcher.{
  CircuitStore, Fetched, returned, raised_in, fetcher_closed, Weather, fetch, delay_of,
}
use procuresignal.Retrieval.Fetcher.Attempt.{
  Headers, Reply, SafeFetcher, Source, attempt_fetch, http_error, new_fetcher, not_a_number,
  not_a_date, aclose, responded, Response, FetchResult, read_body,
}
use procuresignal.Retrieval.Fetcher.Body.{AttemptIsBounded, attempt-IsBounded}
use procuresignal.Retrieval.Fetcher.Retries.{Ends, fetch-ends}

-- The circuits of audit.py serve the fetcher.
abbrev circuits : CircuitStore (List Circuit)
circuits = record {
  allow_circuit_request = allow_circuit_request;
  record_circuit_failure = record_circuit_failure;
  record_circuit_success = record_circuit_success;
}

abbrev headers : Headers
headers = record {
  number = λ s. not_a_number;
  date = λ s now. not_a_date;
  urljoin = λ base location. if str_eq location "http://[" then none else some location;
}

abbrev fetcher : SafeFetcher
fetcher = record {
  owner = "w1";
  max_response_bytes = 4;
  max_attempts = 3;
  max_redirects = 3;
  defer_success = false;
  is_closed = false;
}

abbrev source : Source
source = record {
  source_id = "ted";
  endpoint_url = "https://ted.eu/old";
  expected_content_types = "application/xml" ∷ [];
}

abbrev reply : ℕ → List (List ℕ) → Response
reply status chunks = record {
  is_redirect = false;
  location = none;
  status_code = status;
  retry_after = none;
  media_type = "application/xml";
  chunks = chunks;
}

abbrev network : ℕ → ℕ → String → Reply
network attempt zero url =
    responded (record (reply 301 []) { is_redirect = true; location = some "https://ted.eu/new" })
network zero hop url = http_error
network (suc zero) hop url = responded (reply 503 [])
network (suc (suc n)) hop url = responded (reply 200 ((1 ∷ 2 ∷ []) ∷ (3 ∷ []) ∷ []))

abbrev weather : Weather
weather = record { network = network; clock = λ n. 100 + n; jitter = λ base. 9000 }

abbrev answer : FetchResult
answer = record {
  content = some (1 ∷ 2 ∷ 3 ∷ []);
  content_type = some "application/xml";
  final_url = some "https://ted.eu/new";
  status_code = some 200;
  failure_code = none;
  retry_after = none;
  response_bytes = 3;
}

abbrev third : Fetched (List Circuit)
third = record { result = answer; store = []; attempts = 3; sleeps = 1250 ∷ 2500 ∷ [] }

third_attempt : fetch circuits headers fetcher source weather [] ≡ returned third
unfolding fetch delay_of read_body allow_circuit_request record_circuit_success circuit_of
third_attempt = refl

-- A redirect to an address that urljoin refuses: the circuit hears of nothing.
abbrev astray : Weather
astray = record weather {
  network = λ attempt hop url.
      responded (record (reply 301 []) { is_redirect = true; location = some "http://[" });
}

astray_raises : fetch circuits headers fetcher source astray [] ≡ raised_in 0 []
unfolding fetch allow_circuit_request circuit_of
astray_raises = refl

attempt-IsBounded_example :
    AttemptIsBounded headers fetcher source 5 (attempt_fetch headers fetcher source 5 (network 2))
attempt-IsBounded_example = attempt-IsBounded headers fetcher source 5 (network 2)

fetch-ends_example :
    (fetcher.max_attempts ≤ 3)
    × Ends circuits headers fetcher source weather []
        (fetch circuits headers fetcher source weather [])
    × (fetch circuits headers (aclose fetcher) source weather [] ≡ fetcher_closed [])
unfolding allow_circuit_request new_fetcher circuit_of
fetch-ends_example = fetch-ends circuits headers fetcher source weather "w1" 4 3 3 false [] refl
