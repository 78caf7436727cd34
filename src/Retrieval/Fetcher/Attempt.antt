-- ===== src/Retrieval/Fetcher/Attempt.antt =====
-- shared/procuresignal/retrieval/fetching.py: `SafeFetcher._attempt`, one attempt with its redirects.
-- Bytes are their values, and lengths of time are milliseconds. What the network answers to a request
-- is a `Reply`, given by the caller of the model for each attempt and redirect; the pinned connection
-- behind it is not modelled.
use procuresignal.Prelude.{
  Bool, List, Option, String, [], contains, false, if◌then◌else◌, leb, length, ltb, min, none, not,
  some, str_eq, true, ℕ, zero, suc, ◌&&◌, ◌*◌, ◌+◌, ◌++◌, ◌∷◌, ◌==◌, ◌||◌,
}

pub record FetchResult : Type 0 where
  pub content : Option (List ℕ)
  pub content_type : Option String
  pub final_url : Option String
  pub status_code : Option ℕ
  pub failure_code : Option String
  pub retry_after : Option ℕ
  pub response_bytes : ℕ

abbrev pub failed_with : String → FetchResult
failed_with code = record {
  content = none;
  content_type = none;
  final_url = none;
  status_code = none;
  failure_code = some code;
  retry_after = none;
  response_bytes = 0;
}

abbrev pub is_ok : FetchResult → Bool
is_ok r = elim r.failure_code [ none ↦ true | some code ↦ false ]

pub record Response : Type 0 where
  pub is_redirect : Bool
  pub location : Option String
  pub status_code : ℕ
  pub retry_after : Option String
  pub media_type : String
  pub chunks : List (List ℕ)

-- What a request gives: UnsafeURL, an HTTPError or TimeoutError, another exception, or a response.
pub data Reply : Type 0 where
  unsafe_url http_error other_error : Reply
  responded : (r : Response) → Reply

-- float(value) of a header: not a number, not finite, or milliseconds with their sign.
pub data Number : Type 0 where
  not_a_number not_finite : Number
  seconds : (negative : Bool) (millis : ℕ) → Number

-- min(900.0, max(0.0, seconds))
abbrev pub clamped : Bool → ℕ → ℕ
clamped negative millis = min 900000 (if negative then 0 else millis)

-- A date of a header, as its difference from `now`: not a date, or one that `astimezone` refuses with
-- an OverflowError.
pub data Date : Type 0 where
  not_a_date overflow : Date
  away : (negative : Bool) (millis : ℕ) → Date

-- Python's `float` and `email.utils`, and `urljoin`, where none is a ValueError.
pub record Headers : Type 0 where
  pub number : String → Number
  pub date : String → ℕ → Date
  pub urljoin : String → String → Option String

abbrev pub until_date : Date → Option (Option ℕ)
until_date not_a_date = some none
until_date overflow = none
until_date (away negative millis) = some (some (clamped negative millis))

abbrev pub of_number : Number → Date → Option (Option ℕ)
of_number (seconds negative millis) date = some (some (clamped negative millis))
of_number not_finite date = some none
of_number not_a_number date = until_date date

-- none is an exception.
unfoldable pub parse_retry_after : Headers → ℕ → Option String → Option (Option ℕ)
parse_retry_after headers now none = some none
parse_retry_after headers now (some value) =
    of_number (headers.number value) (headers.date value now)

pub record SafeFetcher : Type 0 where
  pub owner : String
  pub max_response_bytes : ℕ
  pub max_attempts : ℕ
  pub max_redirects : ℕ
  pub defer_success : Bool
  pub is_closed : Bool

-- The constructor, which refuses bounds that are not positive and caps them.
unfoldable pub new_fetcher : String → ℕ → ℕ → ℕ → Bool → Option SafeFetcher
new_fetcher owner max_response_bytes max_attempts max_redirects defer_success =
    if leb max_attempts 0 || leb max_response_bytes 0
    then none
    else some (record {
      owner = owner;
      max_response_bytes = min max_response_bytes (5 * 1024 * 1024);
      max_attempts = min max_attempts 3;
      max_redirects = min max_redirects 3;
      defer_success = defer_success;
      is_closed = false;
    })

abbrev pub aclose : SafeFetcher → SafeFetcher
aclose fetcher = record fetcher { is_closed = true }

-- A source, with its content types in lower case.
pub record Source : Type 0 where
  pub source_id : String
  pub endpoint_url : String
  pub expected_content_types : List String

-- The body: all chunks, or how much had come when it was too much.
unfoldable pub read_body : ℕ → List ℕ → List (List ℕ) → List ℕ × Bool
read_body most content [] = (content, true)
read_body most content (chunk ∷ chunks) =
    let longer = content ++ chunk in
    let rest = read_body most longer chunks in
    if ltb most (length longer) then (longer, false) else rest

abbrev pub body_result : Response → String → List ℕ × Bool → FetchResult
body_result r url (content, true) = record {
  content = some content;
  content_type = some r.media_type;
  final_url = some url;
  status_code = some r.status_code;
  failure_code = none;
  retry_after = none;
  response_bytes = length content;
}
body_result r url (content, false) = record (failed_with "oversized_response") {
  response_bytes = length content;
}

-- A request ends the attempt, with an exception that it does not catch or a result, or leads to
-- another URL.
pub data Hop : Type 0 where
  raised : Hop
  ended : (result : FetchResult) → Hop
  redirected : (url : String) → Hop

abbrev pub with_status : ℕ → String → FetchResult
with_status status code = record (failed_with code) { status_code = some status }

module _ (headers : Headers) (fetcher : SafeFetcher) (source : Source) (now : ℕ) where
  open fetcher use {max_redirects, max_response_bytes}

  abbrev pub follow : String → Option String → Hop
  follow url none = ended (failed_with "http_status")
  follow url (some location) =
      if str_eq location ""
      then ended (failed_with "http_status")
      else elim (headers.urljoin url location) [ none ↦ raised | some next ↦ redirected next ]

  abbrev pub limited : Option (Option ℕ) → Hop
  limited none = raised
  limited (some wait) = ended (record (with_status 429 "rate_limited") { retry_after = wait })

  -- The statuses and the content type that end an attempt, and otherwise the body.
  abbrev pub read_unlimited : String → Response → FetchResult
  read_unlimited url r =
      if leb 500 r.status_code && ltb r.status_code 600
      then with_status r.status_code "transient_http_status"
      else if leb 400 r.status_code
      then with_status r.status_code "http_status"
      else if not (contains r.media_type source.expected_content_types)
      then with_status r.status_code "unexpected_content_type"
      else body_result r url (read_body max_response_bytes [] r.chunks)

  abbrev pub read_response : String → Response → Hop
  read_response url r =
      if r.status_code == 429
      then limited (parse_retry_after headers now r.retry_after)
      else ended (read_unlimited url r)

  abbrev pub hop_of : String → Reply → Hop
  hop_of url unsafe_url = ended (failed_with "unsafe_url")
  hop_of url http_error = ended (failed_with "network_error")
  hop_of url other_error = raised
  hop_of url (responded r) = if r.is_redirect then follow url r.location else read_response url r

  -- The loop of `_attempt` with the hops that are left. A redirect drops the query parameters, so a
  -- reply depends on whether it is the first hop. none is an exception.
  unfoldable pub hops : (ℕ → String → Reply) → ℕ → ℕ → String → Option FetchResult
  hops network zero hop url = some (failed_with "too_many_redirects")
  hops network (suc left) hop url = elim (hop_of url (network hop url)) [
    | raised ↦ none
    | ended result ↦ some result
    | redirected next ↦ hops network left (hop + 1) next
  ]

  unfoldable pub attempt_fetch : (ℕ → String → Reply) → Option FetchResult
  unfolding hops
  attempt_fetch network = hops network (max_redirects + 1) 0 source.endpoint_url
