-- ===== src/Fetch/Tests.antt =====
-- The theorems on crates/llmbase-core/src/fetch.rs at a page behind a redirect.
use llmbase.Prelude.{
  within, length, any, All, ℕ, zero, suc, ◌≤◌, String, ◌≡◌, refl, true, not, Option, none, some,
  List, [], ◌∷◌, arith,
}
use llmbase.Fetch.Address.{Address, v4, is_public_address}
use llmbase.Fetch.Url.{Url}
use llmbase.Fetch.Target.{SocketAddr, Target, resolve_target}
use llmbase.Fetch.Redirects.{
  FetchOptions, Response, Exchange, answered, FetchResponse, read_body, finished, fetching, fetch,
}
use llmbase.Fetch.Body.{flat, arrived, whole_or_refused, read_body-flat}
use llmbase.Fetch.Contacts.{fetch_resolved-Contacts}
use llmbase.Fetch.Vetted.{IsVetted}
use llmbase.Fetch.Response.{fetch-IsBounded}
use llmbase.Fetch.Networks.{in_network, special_networks, value, is_public_address-networks}

-- A parser that knows one host.
abbrev page : String → Url
page path = record {
  scheme = "https";
  host = some "example.org";
  username = "";
  password = none;
  port_or_known_default = some 443;
  path_and_query = path;
  fragment = none;
}

abbrev parse_page : String → Option Url
parse_page text = some (page text)

abbrev print_page : Url → String
print_page url = url.path_and_query

abbrev join_page : Url → String → Option Url
join_page url location = some (page location)

abbrev any_status : ℕ → String
any_status status = "status"

abbrev no_literal : String → Option Address
no_literal host = none

abbrev one_server : SocketAddr
one_server = record { ip = v4 93 184 215 14; port = 443 }

abbrev name_service : ℕ → String → ℕ → Option (List SocketAddr)
name_service time host port = some (one_server ∷ one_server ∷ [])

abbrev answer : ℕ → Option String → List (Option (List ℕ)) → Response
answer status location chunks = record {
  peer = some (v4 93 184 215 14);
  status = status;
  location = location;
  encoding = none;
  content_length = none;
  content_type = some "text/plain";
  chunks = chunks;
}

abbrev server : ℕ → Target → Exchange
server zero target = answered (answer 302 (some "/b") [])
server (suc n) target = answered (answer 200 none (some (1 ∷ 2 ∷ []) ∷ some (3 ∷ []) ∷ []))

abbrev sample_options : FetchOptions
sample_options = record {
  max_bytes = 8;
  timeout_ms = 30000;
  connect_timeout_ms = 10000;
  max_redirects = 5;
}

abbrev sample_response : FetchResponse
sample_response = record {
  url = "/b";
  status = 200;
  content_type = "text/plain";
  body_bytes = 1 ∷ 2 ∷ 3 ∷ [];
  redirects = 1;
  http_attempts = 2;
}

abbrev sample_requests : List Target
sample_requests =
    (fetching parse_page print_page join_page any_status no_literal name_service server
      sample_options "/a").0

fetch_resolved-Contacts_example :
    (length sample_requests ≤ suc sample_options.max_redirects) × All IsVetted sample_requests
fetch_resolved-Contacts_example =
    fetch_resolved-Contacts parse_page print_page join_page any_status no_literal name_service
      server sample_options "/a"

fetch-IsBounded_example :
    (length sample_response.body_bytes ≤ sample_options.max_bytes)
    × (sample_options.max_bytes ≤ 33554432)
    × (within 200 299 sample_response.status ≡ true)
    × (sample_response.http_attempts ≡ length sample_requests)
    × (sample_response.http_attempts ≡ suc sample_response.redirects)
    × (sample_response.redirects ≤ sample_options.max_redirects)
    × (sample_options.max_redirects ≤ 10)
unfolding fetch resolve_target
fetch-IsBounded_example =
    fetch-IsBounded parse_page print_page join_page any_status no_literal name_service server
      finished sample_options "/a" sample_response refl

read_body-flat_example :
    read_body 2 [] (arrived ((1 ∷ 2 ∷ []) ∷ (3 ∷ []) ∷ []))
    ≡ whole_or_refused 2 (flat ((1 ∷ 2 ∷ []) ∷ (3 ∷ []) ∷ []))
read_body-flat_example = read_body-flat 2 ((1 ∷ 2 ∷ []) ∷ (3 ∷ []) ∷ [])

is_public_address-networks_example :
    is_public_address (v4 172 16 0 1) ≡ not (any (in_network (value 172 16 0 1)) special_networks)
is_public_address-networks_example =
    is_public_address-networks 172 16 0 1 (omega arith) (omega arith) (omega arith) (omega arith)
