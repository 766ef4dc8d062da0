-- ===== src/Fetch/Redirects.antt =====
-- `fetch` and its loop over redirects in crates/llmbase-core/src/fetch.rs. Beside the result, a run says to
-- which targets it has sent a request.
use llmbase.Prelude.{
  ltb, if◌then◌else◌, within, unwrap_or, length, any, ◌==◌, nat_PartialEq, bytes_eqb,
  bytes_PartialEq, concat, codes, one_of, ℕ, zero, suc, ◌+◌, ◌-◌, String, Bool, false, not, ◌||◌,
  Option, none, some, List, [], ◌∷◌, ◌++◌, map,
}
use llmbase.Errors.{Error, invalid, capability, Result, ok, err, ◌>>=◌, ◌>>◌, reject_if}
use llmbase.Fetch.Address.{Address, v4, v6}
use llmbase.Fetch.Url.{Url, lower, parse_url, bad_location}
use llmbase.Fetch.Target.{SocketAddr, Target, resolve_target}

pub record FetchOptions : Type 0 where
  pub max_bytes : ℕ
  pub timeout_ms : ℕ
  pub connect_timeout_ms : ℕ
  pub max_redirects : ℕ

unfoldable pub validate : FetchOptions → Result (Unit {0})
validate options =
    reject_if
      (options.max_bytes == 0
        || ltb 33554432 options.max_bytes
        || options.timeout_ms == 0
        || ltb 120000 options.timeout_ms
        || options.connect_timeout_ms == 0
        || ltb options.timeout_ms options.connect_timeout_ms
        || ltb 10 options.max_redirects)
      (invalid "fetch limits exceed supported bounds")

-- A response as the crate reqwest gives it: the address of the peer, the status, the headers that are read
-- (where they are valid text), and the chunks of the body, of which `none` is a failure to read on.
pub record Response : Type 0 where
  pub peer : Option Address
  pub status : ℕ
  pub location : Option String
  pub encoding : Option (List ℕ)
  pub content_length : Option ℕ
  pub content_type : Option String
  pub chunks : List (Option (List ℕ))

pub data Exchange : Type 0 where
  no_client no_answer : Exchange
  answered : Response → Exchange

pub record FetchResponse : Type 0 where
  pub url : String
  pub status : ℕ
  pub content_type : String
  pub body_bytes : List ℕ
  pub redirects : ℕ
  pub http_attempts : ℕ

abbrev pub same_address : Address → Address → Bool
same_address (v4 a b c d) (v4 a' b' c' d') = bytes_eqb (a ∷ b ∷ c ∷ d ∷ []) (a' ∷ b' ∷ c' ∷ d' ∷ [])
same_address (v6 a b c d e f g h) (v6 a' b' c' d' e' f' g' h') =
    bytes_eqb (a ∷ b ∷ c ∷ d ∷ e ∷ f ∷ g ∷ h ∷ []) (a' ∷ b' ∷ c' ∷ d' ∷ e' ∷ f' ∷ g' ∷ h' ∷ [])
same_address _ _ = false

abbrev pub is_pinned : Target → Option Address → Bool
is_pinned target none = false
is_pinned target (some peer) = any (λ s. same_address s.ip peer) target.addresses

abbrev pub is_redirect : ℕ → Bool
is_redirect status = one_of status (301 ∷ 302 ∷ 303 ∷ 307 ∷ 308 ∷ [])

abbrev pub exceeds : Option ℕ → ℕ → Bool
exceeds none limit = false
exceeds (some size) limit = ltb limit size

abbrev pub too_large : Error
too_large = invalid "fetch body size limit exceeded"

-- The loop over the chunks; `body` is what has been read.
unfoldable pub read_body : ℕ → List ℕ → List (Option (List ℕ)) → Result (List ℕ)
read_body limit body [] = ok body
read_body limit body (none ∷ chunks) = err (invalid "fetch response body failed")
read_body limit body (some chunk ∷ chunks) =
    let rest = read_body limit (body ++ chunk) chunks in
    reject_if (ltb (limit - length body) (length chunk)) too_large >> rest

abbrev pub compressed : Option (List ℕ) → Bool
compressed none = false
compressed (some value) = not (map lower value == codes "identity")

-- `print` is `Url::as_str`; a status is printed as `status_text` says.
-- The requests that were sent, and the result.
abbrev pub Sending : Type 0
Sending = List Target × Result FetchResponse

abbrev pub stop : Error → Sending
stop e = ([], err e)

abbrev pub sent : Target → Sending → Sending
sent target (targets, result) = (target ∷ targets, result)

abbrev pub continue : Result Url → (Url → Sending) → Sending
continue (err e) next = stop e
continue (ok url) next = next url

abbrev pub at_response : Target → Response → Sending → Result FetchResponse → Sending
at_response target response redirected accepted =
    if not (is_pinned target response.peer)
    then stop (invalid "fetch connected to an unvalidated address")
    else if is_redirect response.status
    then redirected
    else ([], accepted)

-- What becomes of a request; `redirected` and `accepted` take a response further.
abbrev pub at_exchange :
    Target → Exchange → (Response → Sending) → (Response → Result FetchResponse) → Sending
at_exchange target no_client redirected accepted = stop (capability "fetch HTTP client unavailable")
at_exchange target no_answer redirected accepted =
    sent target (stop (invalid "fetch HTTP request failed"))
at_exchange target (answered response) redirected accepted =
    sent target (at_response target response (redirected response) (accepted response))

abbrev pub at_target : Result Target → (Target → Sending) → Sending
at_target (err e) next = stop e
at_target (ok target) next = next target

module _ (parse : String → Option Url) (print : Url → String) (join : Url → String → Option Url)
    (status_text : ℕ → String) where
  -- A response that is no redirect.
  unfoldable pub accept : FetchOptions → Target → ℕ → Response → Result FetchResponse
  unfolding read_body
  accept options target hop response =
      reject_if (not (within 200 299 response.status))
        (invalid (concat "fetch returned HTTP " (status_text response.status)))
      >> (reject_if (compressed response.encoding)
            (invalid "fetch requires an uncompressed response")
          >> (reject_if (exceeds response.content_length options.max_bytes) too_large
              >> (read_body options.max_bytes [] response.chunks >>= λ body. ok record {
                url = print target.url;
                status = response.status;
                content_type = unwrap_or response.content_type "";
                body_bytes = body;
                redirects = hop;
                http_attempts = hop + 1;
              })))

  -- Where a redirect goes on.
  unfoldable pub next_url : Target → Option String → Result Url
  unfolding parse_url bad_location
  next_url target none = err (invalid "fetch redirect has no valid location")
  next_url target (some location) =
      reject_if (bad_location location) (invalid "invalid fetch redirect")
      >> elim (join target.url location) [
        | none ↦ err (invalid "invalid fetch redirect")
        | some next ↦ parse_url parse (print next)
      ]

  -- `resolve` and `send` may answer otherwise at each hop.
  module _ (resolve : ℕ → Url → Result Target) (send : ℕ → Target → Exchange)
      (options : FetchOptions) where
    abbrev pub at_hop : ℕ → Url → (Target → Response → Sending) → Sending
    at_hop hop url redirected = at_target (resolve hop url) λ target.
        at_exchange target (send hop target) (redirected target) (accept options target hop)

    -- `left` redirects are allowed behind this hop.
    unfoldable pub fetch_hops : ℕ → ℕ → Url → Sending
    unfolding accept next_url
    fetch_hops zero hop url =
        at_hop hop url λ target response. stop (invalid "fetch redirect limit exceeded")
    fetch_hops (suc left) hop url =
        at_hop hop url λ target response.
          continue (next_url target response.location) (fetch_hops left (suc hop))

    unfoldable pub fetch_resolved : String → Sending
    unfolding fetch_hops
    fetch_resolved input = continue (parse_url parse input) (fetch_hops options.max_redirects 0)

-- How the work under `bounded` ends.
pub data Ending : Type 0 where
  fetch_cancelled total_timeout finished : Ending

abbrev pub bounded : {A : Type 0} → Ending → Result A → Result A
bounded fetch_cancelled work = err (invalid "fetch cancelled")
bounded total_timeout work = err (invalid "fetch total timeout exceeded")
bounded finished work = work

-- The name service may answer otherwise each time.
abbrev pub resolving :
    (String → Option Address)
    → (ℕ → String → ℕ → Option (List SocketAddr))
    → ℕ
    → Url
    → Result Target
resolving parse_address lookup hop = resolve_target parse_address (lookup hop)

module _ (parse : String → Option Url) (print : Url → String) (join : Url → String → Option Url)
    (status_text : ℕ → String) (parse_address : String → Option Address)
    (lookup : ℕ → String → ℕ → Option (List SocketAddr)) where
  -- The loop with the resolution that `fetch` uses.
  abbrev pub fetching : (ℕ → Target → Exchange) → FetchOptions → String → Sending
  fetching send options input =
      fetch_resolved parse print join status_text (resolving parse_address lookup) send options
        input

  unfoldable pub fetch :
      (ℕ → Target → Exchange) → Ending → FetchOptions → String → Result FetchResponse
  unfolding validate fetch_resolved
  fetch send ending options input =
      validate options >> bounded ending (fetching send options input).1

  unfoldable pub validate_url : Ending → String → Result (Unit {0})
  unfolding parse_url
  validate_url ending input =
      bounded ending
        (parse_url parse input >>= resolving parse_address lookup 0 >>= λ target. ok tt)
