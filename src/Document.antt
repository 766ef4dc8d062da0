-- ===== src/Document.antt =====
-- crates/llmbase-core/src/document.rs: front matter, and the spans into which a body is cut. A text is its
-- bytes, and where one of them starts a character it is not a continuation byte.
mod Spans
mod Offsets
pub mod FrontMatter
mod Tests
use llmbase.Prelude.{
  ltb, leb, if◌then◌else◌, within, is_some, unwrap_or, length, take, drop, ◌==◌, nat_PartialEq,
  bytes_PartialEq, codes, ℕ, zero, suc, ◌+◌, String, Bool, true, not, ◌&&◌, ◌||◌, Option, none,
  some, List, [], ◌∷◌, ◌++◌,
}
use llmbase.Utf8.{continuation, valid, strip_prefix}
use llmbase.Json.{Value, object, end, get, is_object, is_null, as_str, get_str}
use llmbase.Errors.{invalid, Result, ok, err, ◌>>=◌, ◌>>◌, reject_if}

pub record Document : Type 0 where
  pub original : List ℕ
  pub metadata : Value
  pub body_start : ℕ
  pub hash : String

abbrev pub push_byte : ℕ → List (List ℕ) → List (List ℕ)
push_byte b [] = (b ∷ []) ∷ []
push_byte b (line ∷ lines) = (b ∷ line) ∷ lines

-- `text.split_inclusive('\n')`
unfoldable pub split_inclusive : List ℕ → List (List ℕ)
split_inclusive [] = []
split_inclusive (b ∷ bs) =
    let rest = split_inclusive bs in if b == b'\n' then (b ∷ []) ∷ rest else push_byte b rest

abbrev keep_unless_end : ℕ → List ℕ → List ℕ
keep_unless_end b [] = if b == b'\r' || b == b'\n' then [] else b ∷ []
keep_unless_end b (c ∷ cs) = b ∷ c ∷ cs

-- `line.trim_end_matches(['\r', '\n'])`
abbrev pub trim_line : List ℕ → List ℕ
trim_line [] = []
trim_line (b ∷ bs) = keep_unless_end b (trim_line bs)

abbrev pub dashes : List ℕ
dashes = b'-' ∷ b'-' ∷ b'-' ∷ []

abbrev pub dots : List ℕ
dots = b'.' ∷ b'.' ∷ b'.' ∷ []

abbrev pub closes : List ℕ → Bool
closes line = trim_line line == dashes || trim_line line == dots

-- The lines before the first that closes the front matter, and that line.
unfoldable pub front_matter : List (List ℕ) → Option (List ℕ × List ℕ)
front_matter [] = none
front_matter (line ∷ lines) =
    let later = front_matter lines in
    if closes line
    then some ([], line)
    else elim later [ none ↦ none | some (front, close) ↦ some (line ++ front, close) ]

abbrev pub opening : List ℕ → ℕ
opening text =
    if is_some (strip_prefix (dashes ++ b'\r' ∷ b'\n' ∷ []) text)
    then 5
    else if is_some (strip_prefix (dashes ++ b'\n' ∷ []) text)
    then 4
    else 0

abbrev pub null_to_empty : Value → Value
null_to_empty v = if is_null v then object end else v

-- `hash` is the SHA-256 of the crate sha2, `parse_metadata` the function of that name, which tries JSON and
-- then YAML.
module _ (hash : List ℕ → String) (parse_metadata : List ℕ → Result Value) where
  abbrev pub with_metadata : List ℕ → ℕ → List ℕ → Value → Result Document
  with_metadata bytes start close metadata =
      reject_if (not (is_object metadata)) (invalid "frontmatter must be a mapping")
      >> ok record {
        original = bytes;
        metadata = metadata;
        body_start = start + length close;
        hash = hash bytes;
      }

  abbrev pub at_front : List ℕ → ℕ → Option (List ℕ × List ℕ) → Result Document
  at_front bytes start none = err (invalid "unterminated frontmatter")
  at_front bytes start (some (front, close)) = parse_metadata front >>= λ metadata.
      with_metadata bytes (start + length front) close (null_to_empty metadata)

  -- `Document::parse`
  unfoldable pub parse : List ℕ → Result Document
  unfolding valid front_matter split_inclusive
  parse bytes =
      reject_if (not (valid bytes))
        (invalid "text source must be valid UTF-8; binary originals require a parser adapter")
      >> (let start = opening bytes in
          if ltb 0 start
          then at_front bytes start (front_matter (split_inclusive (drop start bytes)))
          else ok
              record { original = bytes; metadata = object end; body_start = 0; hash = hash bytes })

abbrev pub title : Document → String → String
title document fallback = unwrap_or (get_str document.metadata "title") fallback

abbrev pub either_field : Option Value → Option Value → Option Value
either_field (some v) other = some v
either_field none other = other

abbrev pub web_text : Option Value → Option String
web_text none = none
web_text (some v) = elim (as_str v) [
  | none ↦ none
  | some s ↦
      if is_some (strip_prefix (codes "https://") (codes s))
        || is_some (strip_prefix (codes "http://") (codes s))
      then some s
      else none
]

unfoldable pub source_url : Document → Option String
source_url document =
    web_text (either_field (get document.metadata "source_url") (get document.metadata "source"))

-- The loop of `Document::chunks`. `start` is where the current span starts, `offset` the byte that is looked
-- at, `count` the characters of the span so far.
unfoldable pub spans : ℕ → ℕ → ℕ → ℕ → List ℕ → List (ℕ × ℕ)
spans max_chars start offset count [] = if ltb start offset then (start, offset) ∷ [] else []
spans max_chars start offset count (b ∷ bs) =
    let same = spans max_chars start (suc offset) count bs in
    let next = spans max_chars start (suc offset) (suc count) bs in
    let fresh = spans max_chars offset (suc offset) 1 bs in
    if continuation b then same else if count == max_chars then (start, offset) ∷ fresh else next

-- `Document::chunks`
unfoldable pub chunks : Document → ℕ → Result (List (ℕ × ℕ))
unfolding spans
chunks document max_chars =
    reject_if (not (within 16 32000 max_chars)) (invalid "chunk_chars must be 16..32000")
    >> ok (
        spans max_chars document.body_start document.body_start 0
          (drop document.body_start document.original))

-- `text.chars().count()`
unfoldable pub count_chars : List ℕ → ℕ
count_chars [] = 0
count_chars (b ∷ bs) = let rest = count_chars bs in if continuation b then rest else suc rest

abbrev pub is_boundary : List ℕ → Bool
is_boundary [] = true
is_boundary (b ∷ bs) = not (continuation b)

-- `byte_to_scalar`; `text.get(..offset)` is there if the offset is a boundary of the text.
unfoldable pub byte_to_scalar : List ℕ → ℕ → Result ℕ
unfolding count_chars
byte_to_scalar text offset =
    if leb offset (length text) && is_boundary (drop offset text)
    then ok (count_chars (take offset text))
    else err (invalid "offset is not a UTF-8 boundary")

-- The byte at which so many characters have gone by, among the starts of characters and the end.
unfoldable pub nth_start : ℕ → ℕ → List ℕ → Option ℕ
nth_start zero at [] = some at
nth_start (suc n) at [] = none
nth_start zero at (b ∷ bs) =
    let later = nth_start zero (suc at) bs in if continuation b then later else some at
nth_start (suc n) at (b ∷ bs) =
    let same = nth_start (suc n) (suc at) bs in
    let next = nth_start n (suc at) bs in if continuation b then same else next

-- `scalar_to_byte`
unfoldable pub scalar_to_byte : List ℕ → ℕ → Result ℕ
unfolding nth_start
scalar_to_byte text offset = elim (nth_start offset 0 text) [
  | some at ↦ ok at
  | none ↦ err (invalid "scalar offset exceeds source")
]
