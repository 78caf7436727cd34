-- ===== src/Retrieval/Fetcher/Body.antt =====
-- retrieval/fetching.py: a body that is returned is whole and within the fetcher's bound.
use procuresignal.Prelude.{
  Bool, List, Option, String, [], arith, false, if◌then◌else◌, length, leb, ltb, none, not, refl,
  some, str_eq, true, contains, ℕ, zero, suc, ◌&&◌, ◌+◌, ◌++◌, ◌==◌, ◌∷◌, ◌≡◌, ◌≤◌,
}
use procuresignal.Retrieval.Fetcher.Attempt.{
  FetchResult, Headers, Hop, Reply, Response, SafeFetcher, Source, attempt_fetch, body_result,
  ended, failed_with, follow, hop_of, hops, http_error, read_body, read_response, read_unlimited,
  limited, other_error, raised, redirected, responded, unsafe_url, is_ok, with_status,
  parse_retry_after,
}

-- concat of the chunks, after what has come
abbrev pub joined : List ℕ → List (List ℕ) → List ℕ
joined content [] = content
joined content (chunk ∷ chunks) = joined (content ++ chunk) chunks

abbrev WholeBody : ℕ → List ℕ → List (List ℕ) → List ℕ × Bool → Type 0
WholeBody most content chunks (body, false) = Unit
WholeBody most content chunks (body, true) = (body ≡ joined content chunks) × (length body ≤ most)

by_overflow :
    (over : Bool) (most : ℕ) (content : List ℕ) (chunk : List ℕ) (chunks : List (List ℕ))
    (rest : List ℕ × Bool)
    → (over ≡ false → WholeBody most (content ++ chunk) chunks rest)
    → WholeBody most content (chunk ∷ chunks) (if over then (content ++ chunk, false) else rest)
by_overflow true most content chunk chunks rest h = tt
by_overflow false most content chunk chunks (body, true) h = h refl
by_overflow false most content chunk chunks (body, false) h = tt

read_body-whole :
    (most : ℕ) (content : List ℕ) (chunks : List (List ℕ))
    → length content ≤ most
    → WholeBody most content chunks (read_body most content chunks)
unfolding read_body
read_body-whole most content [] h = (refl, h)
read_body-whole most content (chunk ∷ chunks) h =
    let longer = content ++ chunk in
    by_overflow (ltb most (length longer)) most content chunk chunks (read_body most longer chunks)
      (λ e. read_body-whole most longer chunks (ground (arith, e)))

-- A result with a body has at most so many bytes and says how many; it has no failure, and one
-- without a body has one.
abbrev BodyFits : ℕ → FetchResult → Option (List ℕ) → Type 0
BodyFits most r none = is_ok r ≡ false
BodyFits most r (some body) =
    (is_ok r ≡ true) × (length body ≤ most) × (r.response_bytes ≡ length body)

abbrev pub IsBounded : ℕ → FetchResult → Type 0
IsBounded most r = BodyFits most r r.content

body_result-IsBounded :
    (most : ℕ) (r : Response) (url : String) (chunks : List (List ℕ)) (read : List ℕ × Bool)
    → WholeBody most [] chunks read
    → IsBounded most (body_result r url read)
body_result-IsBounded most r url chunks (body, true) h = (refl, h.1, refl)
body_result-IsBounded most r url chunks (body, false) h = refl

-- One more status or check on the response
IsBounded-if :
    (b : Bool) (most : ℕ) (r r' : FetchResult)
    → IsBounded most r
    → IsBounded most r'
    → IsBounded most (if b then r else r')
IsBounded-if true most r r' h h' = h
IsBounded-if false most r r' h h' = h'

module _ (headers : Headers) (fetcher : SafeFetcher) (source : Source) (now : ℕ) where
  read_unlimited-IsBounded :
      (url : String) (r : Response)
      → IsBounded fetcher.max_response_bytes (read_unlimited headers fetcher source now url r)
  read_unlimited-IsBounded url r =
      let most : ℕ = fetcher.max_response_bytes in
      let body = body_result r url (read_body most [] r.chunks) in
      let typed =
        if not (contains r.media_type source.expected_content_types)
        then with_status r.status_code "unexpected_content_type"
        else body in
      let accepted =
        if leb 400 r.status_code then with_status r.status_code "http_status" else typed in
      IsBounded-if (leb 500 r.status_code && ltb r.status_code 600) most
        (with_status r.status_code "transient_http_status") accepted refl
        (IsBounded-if (leb 400 r.status_code) most (with_status r.status_code "http_status") typed
          refl
          (IsBounded-if (not (contains r.media_type source.expected_content_types)) most
            (with_status r.status_code "unexpected_content_type") body refl
            (body_result-IsBounded most r url r.chunks (read_body most [] r.chunks)
              (read_body-whole most [] r.chunks (omega arith)))))

  abbrev HopIsBounded : Hop → Type 0
  HopIsBounded raised = Unit
  HopIsBounded (ended result) = IsBounded fetcher.max_response_bytes result
  HopIsBounded (redirected url) = Unit

  HopIsBounded-if :
      (b : Bool) (h h' : Hop)
      → HopIsBounded h
      → HopIsBounded h'
      → HopIsBounded (if b then h else h')
  HopIsBounded-if true h h' x y = x
  HopIsBounded-if false h h' x y = y

  limited-IsBounded :
      (wait : Option (Option ℕ)) → HopIsBounded (limited headers fetcher source now wait)
  limited-IsBounded none = tt
  limited-IsBounded (some wait) = refl

  joined_url-IsBounded :
      (next : Option String)
      → HopIsBounded (elim next [ none ↦ raised | some url ↦ redirected url ])
  joined_url-IsBounded none = tt
  joined_url-IsBounded (some url) = tt

  follow-IsBounded :
      (url : String) (location : Option String)
      → HopIsBounded (follow headers fetcher source now url location)
  follow-IsBounded url none = refl
  follow-IsBounded url (some location) =
      HopIsBounded-if (str_eq location "") (ended (failed_with "http_status")) _ refl
        (joined_url-IsBounded (headers.urljoin url location))

  hop_of-IsBounded :
      (url : String) (reply : Reply) → HopIsBounded (hop_of headers fetcher source now url reply)
  hop_of-IsBounded url unsafe_url = refl
  hop_of-IsBounded url http_error = refl
  hop_of-IsBounded url other_error = tt
  hop_of-IsBounded url (responded r) =
      HopIsBounded-if r.is_redirect (follow headers fetcher source now url r.location)
        (read_response headers fetcher source now url r) (follow-IsBounded url r.location)
        (HopIsBounded-if (r.status_code == 429)
          (limited headers fetcher source now (parse_retry_after headers now r.retry_after))
          (ended (read_unlimited headers fetcher source now url r))
          (limited-IsBounded (parse_retry_after headers now r.retry_after))
          (read_unlimited-IsBounded url r))

  -- What an attempt returns, unless an exception leaves it
  abbrev pub AttemptIsBounded : Option FetchResult → Type 0
  AttemptIsBounded none = Unit
  AttemptIsBounded (some result) = IsBounded fetcher.max_response_bytes result

  hops-IsBounded :
      (network : ℕ → String → Reply) (left hop : ℕ) (url : String)
      → AttemptIsBounded (hops headers fetcher source now network left hop url)
  unfolding hops
  hops-IsBounded network zero hop url = refl
  hops-IsBounded network (suc left) hop url =
      by_hop (hop_of headers fetcher source now url (network hop url))
        (hop_of-IsBounded url (network hop url)) (hops-IsBounded network left (hop + 1))
    where
      by_hop :
          (h : Hop)
          → HopIsBounded h
          → ((next : String)
              → AttemptIsBounded (hops headers fetcher source now network left (hop + 1) next))
          → AttemptIsBounded (elim h [
            | raised ↦ none
            | ended result ↦ some result
            | redirected next ↦ hops headers fetcher source now network left (hop + 1) next
          ])
      by_hop raised b later = tt
      by_hop (ended result) b later = b
      by_hop (redirected next) b later = later next

  -- What an attempt returns has a body if and only if it has no failure. The body is within the
  -- fetcher's bound of bytes and the result gives its length, whatever the servers send and wherever
  -- they redirect.
  pub attempt-IsBounded :
      (network : ℕ → String → Reply)
      → AttemptIsBounded (attempt_fetch headers fetcher source now network)
  unfolding attempt_fetch
  attempt-IsBounded network =
      hops-IsBounded network (fetcher.max_redirects + 1) 0 source.endpoint_url
