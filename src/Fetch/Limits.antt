-- ===== src/Fetch/Limits.antt =====
-- The limits of a response in the loop of crates/llmbase-core/src/fetch.rs.
use mathlib.Core.Path.{subst}
use llmbase.Prelude.{
  if◌then◌else◌, within, unwrap_or, length, nat_PartialEq, ℕ, zero, suc, ◌+◌, ◌≤◌, String, ◌≡◌,
  Bool, true, false, not, Option, List, [], arith,
}
use llmbase.Errors.{invalid, Result, ok, err, bind_ok, passed}
use llmbase.Fetch.Url.{Url}
use llmbase.Fetch.Target.{Target}
use llmbase.Fetch.Redirects.{
  FetchOptions, Response, Exchange, no_client, no_answer, answered, FetchResponse, is_pinned,
  is_redirect, exceeds, too_large, read_body, compressed, Sending, stop, continue, at_response,
  at_exchange, at_target, accept, next_url, fetch_hops,
}
use llmbase.Fetch.Body.{read_body-Fits}

-- What holds of a response, with the limits that it was fetched under and the number of requests.
pub record IsBounded (options : FetchOptions) (requests : ℕ) (r : FetchResponse) : Type 0 where
  pub small_body : length r.body_bytes ≤ options.max_bytes
  pub success : within 200 299 r.status ≡ true
  pub attempts : r.http_attempts ≡ suc r.redirects
  pub counted : r.http_attempts ≡ requests

module _ (parse : String → Option Url) (print : Url → String) (join : Url → String → Option Url)
    (status_text : ℕ → String) (options : FetchOptions) where
  accept-IsBounded :
      (target : Target) (hop : ℕ) (response : Response) (r : FetchResponse)
      → accept parse print join status_text options target hop response ≡ ok r
      → IsBounded options (suc hop) r
  unfolding accept
  accept-IsBounded target hop response r h =
      let (failed, h1) = passed (not (within 200 299 response.status)) _ _ r h in
      let (_, h2) = passed (compressed response.encoding) _ _ r h1 in
      let (_, h3) = passed (exceeds response.content_length options.max_bytes) too_large _ r h2 in
      let (body, read, h4) = bind_ok (read_body options.max_bytes [] response.chunks) _ r h3 in
      let same : made body ≡ r = cc h4 in
      subst (IsBounded options (suc hop)) same record {
        small_body = read_body-Fits options.max_bytes [] response.chunks body (omega arith) read;
        success = positive (within 200 299 response.status) failed;
        attempts = omega arith;
        counted = omega arith;
      }
    where
      made : List ℕ → FetchResponse
      made body = record {
        url = print target.url;
        status = response.status;
        content_type = unwrap_or response.content_type "";
        body_bytes = body;
        redirects = hop;
        http_attempts = hop + 1;
      }

      positive : (b : Bool) → not b ≡ false → b ≡ true
      positive b k = ground arith

  at_response-IsBounded :
      (target : Target) (hop : ℕ) (response : Response) (redirected : Sending) (r : FetchResponse)
      → (redirected.1 ≡ ok r → IsBounded options (suc hop + length redirected.0) r)
      → (at_response target response redirected
          (accept parse print join status_text options target hop response)).1
        ≡ ok r
      → IsBounded options
          (suc hop
            + length
                (at_response target response redirected
                  (accept parse print join status_text options target hop response)).0)
          r
  at_response-IsBounded target hop response redirected r later =
      go (not (is_pinned target response.peer)) (is_redirect response.status)
    where
      accepted : Result FetchResponse
      accepted = accept parse print join status_text options target hop response

      chosen : Bool → Bool → Sending
      chosen b c =
          if b
          then stop (invalid "fetch connected to an unvalidated address")
          else if c
          then redirected
          else ([], accepted)

      go :
          (b c : Bool)
          → (chosen b c).1 ≡ ok r
          → IsBounded options (suc hop + length (chosen b c).0) r
      go true c k = cc k
      go false true k = later k
      go false false k =
          subst (λ n. IsBounded options n r) (omega arith)
            (accept-IsBounded target hop response r k)

  at_exchange-IsBounded :
      (target : Target) (hop : ℕ) (exchange : Exchange) (redirected : Response → Sending)
      (r : FetchResponse)
      → ((response : Response)
          → (redirected response).1 ≡ ok r
          → IsBounded options (suc hop + length (redirected response).0) r)
      → (at_exchange target exchange redirected
          (accept parse print join status_text options target hop)).1
        ≡ ok r
      → IsBounded options
          (hop
            + length
                (at_exchange target exchange redirected
                  (accept parse print join status_text options target hop)).0)
          r
  at_exchange-IsBounded target hop no_client redirected r later k = cc k
  at_exchange-IsBounded target hop no_answer redirected r later k = cc k
  at_exchange-IsBounded target hop (answered response) redirected r later k =
      subst (λ n. IsBounded options n r) (omega arith)
        (at_response-IsBounded target hop response (redirected response) r (later response) k)

module _ (options : FetchOptions) (r : FetchResponse) (n : ℕ) where
  at_target-IsBounded :
      (found : Result Target) (next : Target → Sending)
      → ((target : Target)
          → (next target).1 ≡ ok r
          → IsBounded options (n + length (next target).0) r)
      → (at_target found next).1 ≡ ok r
      → IsBounded options (n + length (at_target found next).0) r
  at_target-IsBounded (err e) next later k = cc k
  at_target-IsBounded (ok target) next later k = later target k

  pub continue-IsBounded :
      (found : Result Url) (next : Url → Sending)
      → ((url : Url) → (next url).1 ≡ ok r → IsBounded options (n + length (next url).0) r)
      → (continue found next).1 ≡ ok r
      → IsBounded options (n + length (continue found next).0) r
  continue-IsBounded (err e) next later k = cc k
  continue-IsBounded (ok url) next later k = later url k

module _ (parse : String → Option Url) (print : Url → String) (join : Url → String → Option Url)
    (status_text : ℕ → String) (resolve : ℕ → Url → Result Target) (send : ℕ → Target → Exchange)
    (options : FetchOptions) (r : FetchResponse) where
  pub fetch_hops-IsBounded :
      (left hop : ℕ) (url : Url)
      → (fetch_hops parse print join status_text resolve send options left hop url).1 ≡ ok r
      → IsBounded options
          (hop
            + length (fetch_hops parse print join status_text resolve send options left hop url).0)
          r
  unfolding fetch_hops
  fetch_hops-IsBounded zero hop url =
      at_target-IsBounded options r hop (resolve hop url) _ λ target.
        at_exchange-IsBounded parse print join status_text options target hop (send hop target) _ r
          λ response k. cc k
  fetch_hops-IsBounded (suc left) hop url =
      at_target-IsBounded options r hop (resolve hop url) _ λ target.
        at_exchange-IsBounded parse print join status_text options target hop (send hop target) _ r
          λ response.
            continue-IsBounded options r (suc hop)
              (next_url parse print join status_text target response.location) _
              λ next. fetch_hops-IsBounded left (suc hop) next
