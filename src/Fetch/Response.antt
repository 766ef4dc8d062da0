-- ===== src/Fetch/Response.antt =====
-- What crates/llmbase-core/src/fetch.rs returns.
use llmbase.Prelude.{
  ltb, within, length, ◌==◌, nat_PartialEq, ℕ, suc, ◌+◌, ◌≤◌, String, ◌≡◌, refl, Bool, true, false,
  ◌||◌, Option, List, arith,
}
use llmbase.Errors.{Error, Result, ok, reject_if, bind_ok}
use llmbase.Fetch.Address.{Address}
use llmbase.Fetch.Url.{Url, parse_url}
use llmbase.Fetch.Target.{SocketAddr, Target}
use llmbase.Fetch.Redirects.{
  FetchOptions, validate, Exchange, FetchResponse, fetch_resolved, Ending, fetch_cancelled,
  total_timeout, finished, bounded, resolving, fetching, fetch,
}
use llmbase.Fetch.Contacts.{fetch_resolved-Contacts}
use llmbase.Fetch.Limits.{continue-IsBounded, fetch_hops-IsBounded}

validate-limits :
    (options : FetchOptions)
    → validate options ≡ ok tt
    → (options.max_bytes ≤ 33554432) × (options.max_redirects ≤ 10)
unfolding validate
validate-limits options h =
    go (options.max_bytes == 0) (options.timeout_ms == 0) (ltb 120000 options.timeout_ms)
      (options.connect_timeout_ms == 0) (ltb options.timeout_ms options.connect_timeout_ms)
      options.max_bytes options.max_redirects (not_rejected _ _ h)
  where
    not_rejected : (b : Bool) (e : Error) → reject_if b e ≡ ok tt → b ≡ false
    not_rejected true e k = cc k
    not_rejected false e k = refl

    ends :
        (a l b c d e m : Bool)
        → (a || l || b || c || d || e || m) ≡ false
        → (l ≡ false) × (m ≡ false)
    ends a l b c d e m k = ground arith

    at_most : (l n : ℕ) → ltb l n ≡ false → n ≤ l
    at_most l n k = ground arith

    go :
        (a b c d e : Bool) (bytes redirects : ℕ)
        → (a || ltb 33554432 bytes || b || c || d || e || ltb 10 redirects) ≡ false
        → (bytes ≤ 33554432) × (redirects ≤ 10)
    go a b c d e bytes redirects k =
        let (large, many) = ends a (ltb 33554432 bytes) b c d e (ltb 10 redirects) k in
        (at_most 33554432 bytes large, at_most 10 redirects many)

bounded-finished :
    {A : Type 0} (ending : Ending) (work : Result A) (a : A)
    → bounded ending work ≡ ok a
    → work ≡ ok a
bounded-finished fetch_cancelled work a h = cc h
bounded-finished total_timeout work a h = cc h
bounded-finished finished work a h = h

-- A response that `fetch` returns has a body within `max_bytes`, which is at most 32 MiB, and a status between
-- 200 and 299. Its attempts are the requests that were sent, one more than its redirects, which are at most as
-- many as allowed and at most 10.
pub fetch-IsBounded :
    (parse : String → Option Url) (print : Url → String) (join : Url → String → Option Url)
    (status_text : ℕ → String) (parse_address : String → Option Address)
    (lookup : ℕ → String → ℕ → Option (List SocketAddr)) (send : ℕ → Target → Exchange)
    (ending : Ending) (options : FetchOptions) (input : String) (r : FetchResponse)
    → fetch parse print join status_text parse_address lookup send ending options input ≡ ok r
    → (length r.body_bytes ≤ options.max_bytes)
      × (options.max_bytes ≤ 33554432)
      × (within 200 299 r.status ≡ true)
      × (r.http_attempts
          ≡ length
              (fetching parse print join status_text parse_address lookup send options input).0)
      × (r.http_attempts ≡ suc r.redirects)
      × (r.redirects ≤ options.max_redirects)
      × (options.max_redirects ≤ 10)
unfolding fetch fetch_resolved
fetch-IsBounded parse print join status_text parse_address lookup send ending options input r h =
    let (u, valid, rest) = bind_ok (validate options) _ r h in
    let (bytes, redirects) = validate-limits options valid in
    let found =
      continue-IsBounded options r 0 (parse_url parse input) _
        (λ url.
          fetch_hops-IsBounded parse print join status_text (resolving parse_address lookup) send
            options r options.max_redirects 0 url)
        (bounded-finished ending
          (fetching parse print join status_text parse_address lookup send options input).1 r
          rest) in
    let (few, _) =
      fetch_resolved-Contacts parse print join status_text parse_address lookup send options
        input in
    (
      found.small_body,
      bytes,
      found.success,
      counted found.counted,
      found.attempts,
      fewer found.attempts (counted found.counted) few,
      redirects,
    )
  where
    requests : ℕ
    requests =
        length (fetching parse print join status_text parse_address lookup send options input).0

    counted : r.http_attempts ≡ 0 + requests → r.http_attempts ≡ requests
    counted e = omega (arith, e)

    fewer :
        r.http_attempts ≡ suc r.redirects
        → r.http_attempts ≡ requests
        → requests ≤ suc options.max_redirects
        → r.redirects ≤ options.max_redirects
    fewer a c l = omega (arith, a, c, l)
