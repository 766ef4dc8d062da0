-- ===== src/Fetch/Url.antt =====
-- `parse_url` of crates/llmbase-core/src/fetch.rs, the checks on a redirect's location among them. The parser
-- and the printer of URLs are those of the crate url.
use mathlib.Core.List.{reverse}
use Prim.Native.String.{len}
use llmbase.Prelude.{
  ltb, leb, if◌then◌else◌, within, is_some, some_and, unwrap_or, any, ◌==◌, nat_PartialEq,
  string_PartialEq, bytes_PartialEq, codes, one_of, ℕ, ◌+◌, String, Bool, true, not, ◌||◌, Option,
  none, some, List, [], ◌∷◌, map,
}
use llmbase.Utf8.{strip_prefix}
use llmbase.Errors.{invalid, Result, ok, err, ◌>>◌, reject_if}

-- What the program reads of a `Url`.
pub record Url : Type 0 where
  pub scheme : String
  pub host : Option String
  pub username : String
  pub password : Option String
  pub port_or_known_default : Option ℕ
  pub path_and_query : String
  pub fragment : Option String

-- `char::is_control` and `char::is_whitespace`
abbrev pub is_control : ℕ → Bool
is_control c = leb c 0x1F || within 0x7F 0x9F c

abbrev pub is_whitespace : ℕ → Bool
is_whitespace c =
    within 9 13 c
    || within 0x2000 0x200A c
    || one_of c (0x20 ∷ 0x85 ∷ 0xA0 ∷ 0x1680 ∷ 0x2028 ∷ 0x2029 ∷ 0x202F ∷ 0x205F ∷ 0x3000 ∷ [])

abbrev pub bad_char : ℕ → Bool
bad_char c = is_control c || is_whitespace c || c == b'\\'

abbrev pub after_colon : List ℕ
after_colon = b':' ∷ b'/' ∷ b'/' ∷ []

-- The second part of `text.split_once("://")`
unfoldable pub after_scheme : List ℕ → Option (List ℕ)
after_scheme [] = none
after_scheme (c ∷ cs) =
    let further = after_scheme cs in
    elim (strip_prefix after_colon (c ∷ cs)) [ some rest ↦ some rest | none ↦ further ]

-- `text.split(['/', '?', '#']).next().unwrap_or("")`
abbrev pub authority : List ℕ → List ℕ
authority [] = []
authority (c ∷ cs) =
    let rest = authority cs in if one_of c (b'/' ∷ b'?' ∷ b'#' ∷ []) then [] else c ∷ rest

abbrev pub has_userinfo : List ℕ → Bool
has_userinfo rest = one_of b'@' (authority rest)

-- `text.trim_end_matches('.')`
abbrev pub keep_unless_dot : ℕ → List ℕ → List ℕ
keep_unless_dot c [] = if c == b'.' then [] else c ∷ []
keep_unless_dot c (d ∷ ds) = c ∷ d ∷ ds

abbrev pub trim_dots : List ℕ → List ℕ
trim_dots [] = []
trim_dots (c ∷ cs) = keep_unless_dot c (trim_dots cs)

abbrev pub lower : ℕ → ℕ
lower c = if within b'A' b'Z' c then c + 32 else c

abbrev pub ends_with : List ℕ → List ℕ → Bool
ends_with text suffix = is_some (strip_prefix (reverse suffix) (reverse text))

unfoldable pub is_local_host : String → Bool
is_local_host name =
    let host = map lower (trim_dots (codes name)) in
    host == codes "localhost"
    || ends_with host (codes ".localhost")
    || ends_with host (codes ".local")

abbrev pub bad_port : Option ℕ → Bool
bad_port none = true
bad_port (some port) = port == 0

-- The checks on a URL and on the text that it was parsed from.
unfoldable pub is_refused : Url → List ℕ → Bool
unfolding after_scheme
is_refused url input =
    not (one_of url.scheme ("http" ∷ "https" ∷ []))
    || not (is_some url.host)
    || not (url.username == "")
    || is_some url.password
    || some_and (after_scheme input) has_userinfo
    || bad_port url.port_or_known_default

module _ (parse : String → Option Url) where
  unfoldable pub checked_url : String → Option Url → Result Url
  unfolding is_refused is_local_host
  checked_url input none = err (invalid "invalid fetch URL")
  checked_url input (some url) =
      reject_if (is_refused url (codes input))
        (invalid "fetch requires an HTTP(S) URL without userinfo")
      >> (reject_if (is_local_host (unwrap_or url.host ""))
            (invalid "fetch destination is not public")
          >> ok record url { fragment = none })

  unfoldable pub parse_url : String → Result Url
  unfolding checked_url
  parse_url input =
      reject_if (ltb 16384 (len input) || any bad_char (codes input)) (invalid "invalid fetch URL")
      >> checked_url input (parse input)

-- The checks on the text of a redirect.
unfoldable pub bad_location : String → Bool
unfolding after_scheme
bad_location location =
    let text = codes location in
    any bad_char text
    || some_and
        (elim (after_scheme text) [
          | some rest ↦ some rest
          | none ↦ strip_prefix (b'/' ∷ b'/' ∷ []) text
        ])
        has_userinfo
