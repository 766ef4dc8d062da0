-- ===== src/Fetch/Contacts.antt =====
-- The requests that a run of crates/llmbase-core/src/fetch.rs sends.
use llmbase.Prelude.{
  if◌then◌else◌, length, All, ℕ, zero, suc, ◌≤◌, String, ◌≡◌, refl, Bool, true, false, not, Option,
  none, some, List, [], ◌∷◌, arith,
}
use llmbase.Errors.{invalid, Result, ok, err, passed}
use llmbase.Fetch.Address.{Address}
use llmbase.Fetch.Url.{Url, parse_url, bad_location}
use llmbase.Fetch.Target.{SocketAddr, Target, resolve_target}
use llmbase.Fetch.Redirects.{
  FetchOptions, Response, Exchange, no_client, no_answer, answered, FetchResponse, is_pinned,
  is_redirect, Sending, stop, continue, at_response, at_exchange, at_target, next_url, fetch_hops,
  fetch_resolved, resolving, fetching,
}
use llmbase.Fetch.Vetted.{IsWebUrl, IsVetted, parse_url-IsWebUrl, resolve_target-IsVetted}

-- At most so many requests, to vetted targets.
pub data Contacts (bound : ℕ) (targets : List Target) : Type 0 where
  contacts : length targets ≤ bound → All IsVetted targets → Contacts bound targets

none_sent : (n : ℕ) → Contacts n []
none_sent n = contacts (omega arith) tt

one_more :
    (n : ℕ) (t : Target) (ts : List Target) → IsVetted t → Contacts n ts → Contacts (suc n) (t ∷ ts)
one_more n t ts v (contacts few all_vetted) = contacts (omega arith) (v, all_vetted)

at_response-Contacts :
    (n : ℕ) (target : Target) (response : Response) (redirected : Sending)
    (accepted : Result FetchResponse)
    → Contacts n redirected.0
    → Contacts n (at_response target response redirected accepted).0
at_response-Contacts n target response redirected accepted later =
    go (not (is_pinned target response.peer)) (is_redirect response.status)
  where
    go :
        (b c : Bool)
        → Contacts n
            (if b
              then stop (invalid "fetch connected to an unvalidated address")
              else if c
              then redirected
              else ([], accepted)).0
    go true c = none_sent n
    go false true = later
    go false false = none_sent n

at_exchange-Contacts :
    (n : ℕ) (target : Target) (exchange : Exchange) (redirected : Response → Sending)
    (accepted : Response → Result FetchResponse)
    → IsVetted target
    → ((response : Response) → Contacts n (redirected response).0)
    → Contacts (suc n) (at_exchange target exchange redirected accepted).0
at_exchange-Contacts n target no_client redirected accepted v later = none_sent (suc n)
at_exchange-Contacts n target no_answer redirected accepted v later =
    one_more n target [] v (none_sent n)
at_exchange-Contacts n target (answered response) redirected accepted v later =
    one_more n target _ v (
      at_response-Contacts n target response (redirected response) (accepted response)
        (later response))

at_target-Contacts :
    (n : ℕ) (r : Result Target) (next : Target → Sending)
    → ((target : Target) → r ≡ ok target → Contacts n (next target).0)
    → Contacts n (at_target r next).0
at_target-Contacts n (err e) next h = none_sent n
at_target-Contacts n (ok target) next h = h target refl

continue-Contacts :
    (n : ℕ) (r : Result Url) (next : Url → Sending)
    → ((url : Url) → r ≡ ok url → Contacts n (next url).0)
    → Contacts n (continue r next).0
continue-Contacts n (err e) next h = none_sent n
continue-Contacts n (ok url) next h = h url refl

module _ (parse : String → Option Url) (print : Url → String) (join : Url → String → Option Url)
    (status_text : ℕ → String) (parse_address : String → Option Address)
    (lookup : ℕ → String → ℕ → Option (List SocketAddr)) (send : ℕ → Target → Exchange)
    (options : FetchOptions) where
  abbrev hops : ℕ → ℕ → Url → Sending
  hops = fetch_hops parse print join status_text (resolving parse_address lookup) send options

  next_url-IsWebUrl :
      (target : Target) (location : Option String) (url : Url)
      → next_url parse print join status_text target location ≡ ok url
      → IsWebUrl url
  unfolding next_url
  next_url-IsWebUrl target none url h = cc h
  next_url-IsWebUrl target (some location) url h =
      let (_, rest) = passed (bad_location location) _ _ url h in
      joined (join target.url location) rest
    where
      joined :
          (o : Option Url)
          → elim o [
            | none ↦ err (invalid "invalid fetch redirect")
            | some next ↦ parse_url parse (print next)
          ]
            ≡ ok url
          → IsWebUrl url
      joined none k = cc k
      joined (some next) k = parse_url-IsWebUrl parse (print next) url k

  fetch_hops-Contacts :
      (left hop : ℕ) (url : Url) → IsWebUrl url → Contacts (suc left) (hops left hop url).0
  unfolding fetch_hops
  fetch_hops-Contacts zero hop url web =
      at_target-Contacts 1 (resolve_target parse_address (lookup hop) url) _ λ target found.
        at_exchange-Contacts 0 target (send hop target) _ _
          (resolve_target-IsVetted parse_address (lookup hop) url target web found)
          λ response. none_sent 0
  fetch_hops-Contacts (suc left) hop url web =
      at_target-Contacts (suc (suc left)) (resolve_target parse_address (lookup hop) url) _
        λ target found.
          at_exchange-Contacts (suc left) target (send hop target) _ _
            (resolve_target-IsVetted parse_address (lookup hop) url target web found)
            λ response.
              continue-Contacts (suc left)
                (next_url parse print join status_text target response.location) _
                λ next at_next.
                  fetch_hops-Contacts left (suc hop) next
                    (next_url-IsWebUrl target response.location next at_next)

  fetching-Contacts :
      (input : String)
      → Contacts
          (suc options.max_redirects)
          (fetching parse print join status_text parse_address lookup send options input).0
  unfolding fetch_resolved
  fetching-Contacts input =
      continue-Contacts (suc options.max_redirects) (parse_url parse input) _ λ url found.
        fetch_hops-Contacts options.max_redirects 0 url (parse_url-IsWebUrl parse input url found)

-- Whatever the name service and the servers answer, a run of the loop sends at most one request more than the
-- redirects that are allowed, and each goes to an HTTP(S) URL without user name, password or fragment, whose
-- host is not a local name, and with at least one and at most 256 addresses, all of them public.
pub fetch_resolved-Contacts :
    (parse : String → Option Url) (print : Url → String) (join : Url → String → Option Url)
    (status_text : ℕ → String) (parse_address : String → Option Address)
    (lookup : ℕ → String → ℕ → Option (List SocketAddr)) (send : ℕ → Target → Exchange)
    (options : FetchOptions) (input : String)
    → (length (fetching parse print join status_text parse_address lookup send options input).0
        ≤ suc options.max_redirects)
      × All IsVetted
          (fetching parse print join status_text parse_address lookup send options input).0
fetch_resolved-Contacts parse print join status_text parse_address lookup send options input =
    both _ _
      (fetching-Contacts parse print join status_text parse_address lookup send options input)
  where
    both : (n : ℕ) (ts : List Target) → Contacts n ts → (length ts ≤ n) × All IsVetted ts
    both n ts (contacts few vetted) = (few, vetted)
