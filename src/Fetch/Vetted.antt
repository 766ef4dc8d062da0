-- ===== src/Fetch/Vetted.antt =====
-- Where the requests of crates/llmbase-core/src/fetch.rs go.
use mathlib.Core.Path.{subst}
use Prim.Native.String.{len}
use llmbase.Errors.{Error, invalid, ok, err, ◌>>=◌, reject_if, bind_ok, passed}
use llmbase.Prelude.{
  ltb, is_some, some_and, unwrap_or, ||-eq-false, length, is_empty, any, all, ◌==◌,
  string_PartialEq, str_eq_iff, codes, one_of, ℕ, ◌≤◌, String, ◌≡◌, refl, Bool, true, false, not,
  ◌&&◌, ◌||◌, Option, none, some, List, [], ◌∷◌, arith,
}
use llmbase.Fetch.Address.{Address}
use llmbase.Fetch.Url.{
  Url, bad_char, after_scheme, has_userinfo, is_local_host, bad_port, is_refused, checked_url,
  parse_url,
}
use llmbase.Fetch.Target.{
  SocketAddr, sort_unstable, dedup, is_public, validate_addresses, Target, answers, resolve_found,
  resolve_target,
}

-- What `parse_url` lets through.
pub record IsWebUrl (url : Url) : Type 0 where
  pub web : one_of url.scheme ("http" ∷ "https" ∷ []) ≡ true
  pub anonymous : url.username ≡ ""
  pub no_password : url.password ≡ none
  pub no_fragment : url.fragment ≡ none
  pub not_local : is_local_host (unwrap_or url.host "") ≡ false

pub record IsVetted (target : Target) : Type 0 where
  pub url_checked : IsWebUrl target.url
  pub some_address : is_empty target.addresses ≡ false
  pub few_addresses : length target.addresses ≤ 256
  pub all_public : all is_public target.addresses ≡ true

module _ (parse : String → Option Url) where
  checked_url-IsWebUrl :
      (input : String) (o : Option Url) (url : Url)
      → checked_url parse input o ≡ ok url
      → IsWebUrl url
  unfolding checked_url is_refused
  checked_url-IsWebUrl input none url h = cc h
  checked_url-IsWebUrl input (some parsed) url h =
      let (accepted, h1) = passed (is_refused parsed (codes input)) _ _ url h in
      let (public, h2) = passed (is_local_host (unwrap_or parsed.host "")) _ _ url h1 in
      subst IsWebUrl (cc h2) (web_url accepted public)
    where
      facts :
          (a b c d e f : Bool)
          → (not a || not b || not c || d || e || f) ≡ false
          → (a ≡ true) × (c ≡ true) × (d ≡ false)
      facts a b c d e f k = ground arith

      no_some : {A : Type 0} (o : Option A) → is_some o ≡ false → o ≡ none
      no_some none k = refl
      no_some (some a) k = cc k

      web_url :
          is_refused parsed (codes input) ≡ false
          → is_local_host (unwrap_or parsed.host "") ≡ false
          → IsWebUrl record parsed { fragment = none }
      web_url k l =
          let (web, anonymous, secret) =
            facts (one_of parsed.scheme ("http" ∷ "https" ∷ [])) (is_some parsed.host)
              (parsed.username == "") (is_some parsed.password)
              (some_and (after_scheme (codes input)) has_userinfo)
              (bad_port parsed.port_or_known_default) k in
          record {
            web = web;
            anonymous = (str_eq_iff parsed.username "").0 anonymous;
            no_password = no_some parsed.password secret;
            no_fragment = refl;
            not_local = l;
          }

  pub parse_url-IsWebUrl :
      (input : String) (url : Url) → parse_url parse input ≡ ok url → IsWebUrl url
  unfolding parse_url
  parse_url-IsWebUrl input url h =
      let (_, rest) = passed (ltb 16384 (len input) || any bad_char (codes input)) _ _ url h in
      checked_url-IsWebUrl input (parse input) url rest

all_public_of :
    (addresses : List SocketAddr)
    → validate_addresses addresses ≡ ok tt
    → (is_empty addresses ≡ false) × (length addresses ≤ 256) × (all is_public addresses ≡ true)
unfolding validate_addresses
all_public_of addresses h =
    let (some_, few, open_) =
      three (is_empty addresses) (ltb 256 (length addresses))
        (any (λ s. not (is_public s)) addresses) (not_rejected _ _ h) in
    (some_, at_most (length addresses) few, none_private addresses open_)
  where
    three : (a b c : Bool) → (a || b || c) ≡ false → (a ≡ false) × (b ≡ false) × (c ≡ false)
    three a b c k = ground arith

    at_most : (n : ℕ) → ltb 256 n ≡ false → n ≤ 256
    at_most n k = ground arith

    not_rejected : (b : Bool) (e : Error) → reject_if b e ≡ ok tt → b ≡ false
    not_rejected true e k = cc k
    not_rejected false e k = refl

    none_private :
        (ss : List SocketAddr) → any (λ s. not (is_public s)) ss ≡ false → all is_public ss ≡ true
    none_private [] k = refl
    none_private (s ∷ ss) k =
        let (here, later) = ||-eq-false (not (is_public s)) (any (λ t. not (is_public t)) ss) k in
        rw (none_private ss later) (open_here (is_public s) here)
      where
        open_here : (b : Bool) → not b ≡ false → (b && true) ≡ true
        open_here b e = ground arith

module _ (parse_address : String → Option Address)
    (lookup : String → ℕ → Option (List SocketAddr)) where
  resolve_found-IsVetted :
      (url : Url) (found : List SocketAddr) (target : Target)
      → IsWebUrl url
      → resolve_found parse_address lookup url found ≡ ok target
      → IsVetted target
  unfolding resolve_found
  resolve_found-IsVetted url found target web h =
      let (_, h1) = passed (ltb 256 (length found)) _ _ target h in
      let (u, valid, h2) = bind_ok (validate_addresses (dedup (sort_unstable found))) _ target h1 in
      let (some_, few, open_) = all_public_of (dedup (sort_unstable found)) valid in
      subst IsVetted (cc h2)
        record { url_checked = web; some_address = some_; few_addresses = few; all_public = open_ }

  pub resolve_target-IsVetted :
      (url : Url) (target : Target)
      → IsWebUrl url
      → resolve_target parse_address lookup url ≡ ok target
      → IsVetted target
  unfolding resolve_target
  resolve_target-IsVetted url target web h = go url.host h
    where
      port : ℕ
      port = unwrap_or url.port_or_known_default 80

      go :
          (o : Option String)
          → elim o [
            | none ↦ err (invalid "missing fetch hostname")
            | some host ↦
                answers parse_address lookup host port (parse_address host)
                >>= resolve_found parse_address lookup url
          ]
            ≡ ok target
          → IsVetted target
      go none k = cc k
      go (some host) k =
          let (found, _, rest) =
            bind_ok (answers parse_address lookup host port (parse_address host)) _ target k in
          resolve_found-IsVetted url found target web rest
