-- ===== src/Paths.antt =====
-- `validate_id`, `root_for` and `scoped_path` of crates/llmbase-core/src/config.rs. Paths are code points,
-- and `Path::components` is that of Unix.
mod Scope
mod Tests
use Prim.Native.String.{len}
use llmbase.Prelude.{
  ltb, if◌then◌else◌, within, all, ◌==◌, nat_PartialEq, string_PartialEq, bytes_PartialEq, codes,
  one_of, ℕ, String, Bool, true, false, not, ◌||◌, List, [], ◌∷◌, ◌++◌,
}
use llmbase.Errors.{Error, invalid, Result, ok, err, ◌>>=◌, reject_if}

abbrev pub alphanumeric : ℕ → Bool
alphanumeric c = within b'0' b'9' c || within b'A' b'Z' c || within b'a' b'z' c

abbrev pub id_char : ℕ → Bool
id_char c = alphanumeric c || c == b'-' || c == b'_'

unfoldable pub validate_id : String → Result (Unit {0})
validate_id id =
    reject_if (id == "" || ltb 128 (len id) || not (all id_char (codes id)))
      (invalid "library ID must contain 1–128 ASCII letters, digits, hyphens or underscores")

pub record Roots : Type 0 where
  pub raw : List ℕ
  pub concepts : List ℕ
  pub outputs : List ℕ

unfoldable pub root_for : Roots → String → Result (List ℕ)
root_for roots kind =
    if kind == "raw"
    then ok roots.raw
    else if kind == "compiled"
    then ok roots.concepts
    else if kind == "note"
    then ok roots.outputs
    else err (invalid "unknown source kind")

pub data Component : Type 0 where
  root_dir cur_dir parent_dir : Component
  normal : List ℕ → Component

-- The text between slashes, in order.
abbrev pub push_char : ℕ → List (List ℕ) → List (List ℕ)
push_char c [] = (c ∷ []) ∷ []
push_char c (part ∷ parts) = (c ∷ part) ∷ parts

unfoldable pub split_path : List ℕ → List (List ℕ)
split_path [] = [] ∷ []
split_path (c ∷ cs) = let rest = split_path cs in if c == b'/' then [] ∷ rest else push_char c rest

-- Parts that are empty or "." say nothing, except at the start of the path.
abbrev pub later : List (List ℕ) → List Component
later [] = []
later (part ∷ parts) =
    let rest = later parts in
    if part == [] || part == b'.' ∷ []
    then rest
    else if part == b'.' ∷ b'.' ∷ []
    then parent_dir ∷ rest
    else normal part ∷ rest

abbrev pub from_start : List (List ℕ) → List Component
from_start [] = []
from_start ([] ∷ []) = []
from_start ([] ∷ next ∷ parts) = root_dir ∷ later (next ∷ parts)
from_start (part ∷ parts) =
    if part == b'.' ∷ [] then cur_dir ∷ later parts else later (part ∷ parts)

unfoldable pub components : List ℕ → List Component
unfolding split_path
components path = from_start (split_path path)

abbrev pub is_normal : Component → Bool
is_normal (normal part) = true
is_normal root_dir = false
is_normal _ = false

abbrev pub not_relative : Error
not_relative = invalid "path must be a non-empty relative path"

abbrev pub linked : Error
linked = invalid "symlinks are not accepted as source paths"

-- `PathBuf::push` puts a slash behind a path that is not empty and does not end in one.
abbrev pub ends_in_slash : List ℕ → Bool
ends_in_slash [] = false
ends_in_slash (c ∷ []) = c == b'/'
ends_in_slash (c ∷ d ∷ cs) = ends_in_slash (d ∷ cs)

abbrev pub separator : List ℕ → List ℕ
separator path = if path == [] || ends_in_slash path then [] else b'/' ∷ []

abbrev pub pushed : List ℕ → List ℕ → List ℕ
pushed path part = path ++ (separator path ++ part)

abbrev pub join : List ℕ → Component → List ℕ
join path (normal part) = pushed path part
join path root_dir = path
join path _ = path

-- `is_link` says which paths are symbolic links.
module _ (is_link : List ℕ → Bool) where
  unfoldable pub walk : List ℕ → List Component → Result (List ℕ)
  walk path [] = ok path
  walk path (part ∷ parts) =
      let next = join path part in reject_if (is_link next) linked >>= λ _. walk next parts

  unfoldable pub scoped_path : List ℕ → String → Result (List ℕ)
  unfolding components walk
  scoped_path root relative =
      reject_if
        (relative == ""
          || one_of b'\\' (codes relative)
          || not (all is_normal (components (codes relative))))
        not_relative
      >>= λ _. walk root (components (codes relative))
