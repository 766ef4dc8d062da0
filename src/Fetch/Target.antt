-- ===== src/Fetch/Target.antt =====
-- `resolve_target` and `validate_addresses` of crates/llmbase-core/src/fetch.rs.
use llmbase.Prelude.{
  ltb, if◌then◌else◌, unwrap_or, length, take, is_empty, any, ◌==◌, nat_PartialEq, bytes_PartialEq,
  ℕ, String, Bool, true, false, not, ◌||◌, Option, none, some, List, [], ◌∷◌,
}
use llmbase.Errors.{invalid, Result, ok, err, ◌>>=◌, ◌>>◌, reject_if}
use llmbase.Fetch.Address.{Address, v4, v6, is_public_address}
use llmbase.Fetch.Url.{Url}

pub record SocketAddr : Type 0 where
  pub ip : Address
  pub port : ℕ

-- The order of socket addresses, in which the addresses of version 4 come first, is the one of these lists.
abbrev key : SocketAddr → List ℕ
key s = elim s.ip [
  | v4 a b c d ↦ 4 ∷ a ∷ b ∷ c ∷ d ∷ s.port ∷ []
  | v6 s0 s1 s2 s3 s4 s5 s6 s7 ↦ 6 ∷ s0 ∷ s1 ∷ s2 ∷ s3 ∷ s4 ∷ s5 ∷ s6 ∷ s7 ∷ s.port ∷ []
]

unfoldable below : List ℕ → List ℕ → Bool
below [] ys = true
below (x ∷ xs) [] = false
below (x ∷ xs) (y ∷ ys) = let rest = below xs ys in if x == y then rest else ltb x y

unfoldable insert : SocketAddr → List SocketAddr → List SocketAddr
unfolding below
insert s [] = s ∷ []
insert s (t ∷ ts) =
    let later = insert s ts in if below (key s) (key t) then s ∷ t ∷ ts else t ∷ later

unfoldable pub sort_unstable : List SocketAddr → List SocketAddr
unfolding insert
sort_unstable [] = []
sort_unstable (s ∷ ss) = insert s (sort_unstable ss)

abbrev push_new : SocketAddr → List SocketAddr → List SocketAddr
push_new s [] = s ∷ []
push_new s (t ∷ ts) = if key s == key t then t ∷ ts else s ∷ t ∷ ts

-- Neighbours that are the same become one.
unfoldable pub dedup : List SocketAddr → List SocketAddr
dedup [] = []
dedup (s ∷ ss) = push_new s (dedup ss)

abbrev pub is_public : SocketAddr → Bool
is_public s = is_public_address s.ip

unfoldable pub validate_addresses : List SocketAddr → Result (Unit {0})
unfolding is_public_address
validate_addresses addresses =
    reject_if
      (is_empty addresses || ltb 256 (length addresses) || any (λ s. not (is_public s)) addresses)
      (invalid "fetch destination is not public")

pub record Target : Type 0 where
  pub url : Url
  pub addresses : List SocketAddr

-- `str::parse::<IpAddr>` on a host without its brackets, and the answers of the name service, in which `none`
-- is a failure.
module _ (parse_address : String → Option Address)
    (lookup : String → ℕ → Option (List SocketAddr)) where
  abbrev pub answers : String → ℕ → Option Address → Result (List SocketAddr)
  answers host port (some address) = ok (record { ip = address; port = port } ∷ [])
  answers host port none = elim (lookup host port) [
    | none ↦ err (invalid "fetch DNS resolution failed")
    | some found ↦ ok (take 257 found)
  ]

  unfoldable pub resolve_found : Url → List SocketAddr → Result Target
  unfolding sort_unstable dedup validate_addresses
  resolve_found url found =
      reject_if (ltb 256 (length found)) (invalid "fetch DNS answer limit exceeded")
      >> (validate_addresses (dedup (sort_unstable found))
          >> ok record { url = url; addresses = dedup (sort_unstable found) })

  unfoldable pub resolve_target : Url → Result Target
  unfolding resolve_found
  resolve_target url = elim url.host [
    | none ↦ err (invalid "missing fetch hostname")
    | some host ↦
        let port = unwrap_or url.port_or_known_default 80 in
        answers host port (parse_address host) >>= resolve_found url
  ]
