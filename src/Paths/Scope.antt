-- ===== src/Paths/Scope.antt =====
-- What `scoped_path` of crates/llmbase-core/src/config.rs lets through.
use Prim.Native.Char.{code}
use mathlib.Core.Bool.{false≢true}
use llmbase.Prelude.{
  if◌then◌else◌, Bool-cases, ||-eq-false, is_empty, all, All, ◌==◌, nat_PartialEq, string_PartialEq,
  bytes_eqb_iff, bytes_PartialEq, codes, one_of, ℕ, String, ◌≡◌, refl, sym, ap, ◌∙◌, ◌≢◌, inl, inr,
  Bool, true, false, not, ◌||◌, List, [], ◌∷◌, arith,
}
use llmbase.Paths.{
  Component, root_dir, cur_dir, parent_dir, normal, push_char, split_path, later, from_start,
  components, is_normal, not_relative, pushed, walk, scoped_path, Error, Result, String, all, codes,
  not, ok, reject_if, true, ◌>>=◌,
}

-- A name that stands for one entry of a directory.
abbrev pub IsName : List ℕ → Type 0
IsName part =
    (part ≢ []) × (part ≢ b'.' ∷ []) × (part ≢ b'.' ∷ b'.' ∷ []) × (one_of b'/' part ≡ false)

-- The path below `root` of these names.
abbrev pub below : List ℕ → List (List ℕ) → List ℕ
below root [] = root
below root (part ∷ parts) = below (pushed root part) parts

-- Neither the path nor one that it goes through, below the root, is a symbolic link.
abbrev pub NoLinks : (List ℕ → Bool) → List ℕ → List (List ℕ) → Type 0
NoLinks is_link root [] = Unit
NoLinks is_link root (part ∷ parts) =
    (is_link (pushed root part) ≡ false) × NoLinks is_link (pushed root part) parts

-- Components that are names without a slash.
abbrev Named : Component → Type 0
Named (normal part) = IsName part
Named root_dir = Unit
Named cur_dir = Unit
Named parent_dir = Unit

NoSlash : List ℕ → Type 0
NoSlash part = one_of b'/' part ≡ false

push_char-NoSlash :
    (c : ℕ) (parts : List (List ℕ))
    → (c == b'/') ≡ false
    → All NoSlash parts
    → All NoSlash (push_char c parts)
unfolding NoSlash
push_char-NoSlash c [] h k = (rw (differs c h) refl, tt)
  where
    differs : (c : ℕ) → (c == b'/') ≡ false → (b'/' == c) ≡ false
    differs c h = ground arith
push_char-NoSlash c (part ∷ parts) h k = (rw (differs c h) k.0, k.1)
  where
    differs : (c : ℕ) → (c == b'/') ≡ false → (b'/' == c) ≡ false
    differs c h = ground arith

split_path-NoSlash : (cs : List ℕ) → All NoSlash (split_path cs)
unfolding NoSlash split_path
split_path-NoSlash [] = (refl, tt)
split_path-NoSlash (c ∷ cs) = elim (Bool-cases (c == b'/')) [
  | inl slash ↦ rw slash (refl, split_path-NoSlash cs)
  | inr other ↦ rw other (push_char-NoSlash c (split_path cs) other (split_path-NoSlash cs))
]

differs_from : (a b : List ℕ) → (a == b) ≡ false → a ≢ b
differs_from a b h e = false≢true (sym h ∙ (bytes_eqb_iff a b).1 e)

later-Named : (parts : List (List ℕ)) → All NoSlash parts → All Named (later parts)
unfolding NoSlash
later-Named [] h = tt
later-Named (part ∷ parts) h = elim (Bool-cases (part == [] || part == b'.' ∷ [])) [
  | inl skipped ↦ rw skipped (later-Named parts h.1)
  | inr kept ↦ elim (Bool-cases (part == b'.' ∷ b'.' ∷ [])) [
    | inl up ↦ rw (kept, up) (tt, later-Named parts h.1)
    | inr name ↦
        let (filled, undotted) = ||-eq-false (part == []) (part == b'.' ∷ []) kept in
        rw (kept, name)
          (
            (
              differs_from part [] filled,
              differs_from part (b'.' ∷ []) undotted,
              differs_from part (b'.' ∷ b'.' ∷ []) name,
              h.0,
            ),
            later-Named parts h.1,
          )
  ]
]

from_start-Named : (parts : List (List ℕ)) → All NoSlash parts → All Named (from_start parts)
unfolding NoSlash
from_start-Named [] h = tt
from_start-Named ([] ∷ []) h = tt
from_start-Named ([] ∷ next ∷ parts) h = (tt, later-Named (next ∷ parts) h.1)
from_start-Named ((c ∷ cs) ∷ parts) h =
    either (c ∷ cs == b'.' ∷ []) (later ((c ∷ cs) ∷ parts)) (later-Named ((c ∷ cs) ∷ parts) h)
  where
    either :
        (b : Bool) (found : List Component)
        → All Named found
        → All Named (if b then cur_dir ∷ later parts else found)
    either true found k = (tt, later-Named parts h.1)
    either false found k = k

components-Named : (path : List ℕ) → All Named (components path)
unfolding components
components-Named path = from_start-Named (split_path path) (split_path-NoSlash path)

-- A path that is not empty has a component.
HasComponent : List Component → Type 0
HasComponent [] = ⊥
HasComponent (c ∷ cs) = Unit

later-some :
    (c : ℕ) (cs : List ℕ) (parts : List (List ℕ)) → HasComponent (from_start ((c ∷ cs) ∷ parts))
unfolding HasComponent
later-some c cs parts = either (c ∷ cs == b'.' ∷ []) (c ∷ cs == b'.' ∷ b'.' ∷ [])
  where
    either :
        (dot up : Bool)
        → HasComponent (
            if dot
            then cur_dir ∷ later parts
            else if dot
            then later parts
            else if up
            then parent_dir ∷ later parts
            else normal (c ∷ cs) ∷ later parts)
    either true up = tt
    either false true = tt
    either false false = tt

split_path-cons :
    (cs : List ℕ) → (part : List ℕ) × (parts : List (List ℕ)) × (split_path cs ≡ part ∷ parts)
unfolding split_path
split_path-cons [] = ([], [], refl)
split_path-cons (c ∷ cs) =
    let (part, parts, e) = split_path-cons cs in
    elim (Bool-cases (c == b'/')) [
      | inl slash ↦ ([], split_path cs, rw slash refl)
      | inr other ↦ (c ∷ part, parts, rw (other, e) refl)
    ]

components-some : (c : ℕ) (cs : List ℕ) → HasComponent (components (c ∷ cs))
unfolding components split_path HasComponent
components-some c cs =
    let (part, parts, e) = split_path-cons cs in
    elim (Bool-cases (c == b'/')) [
      | inl slash ↦ rw (slash, e) tt
      | inr other ↦ rw (other, e) (later-some c part parts)
    ]

walk-below :
    (is_link : List ℕ → Bool) (cs : List Component) (root path : List ℕ)
    → all is_normal cs ≡ true
    → All Named cs
    → walk is_link root cs ≡ ok path
    → (parts : List (List ℕ)) × (path ≡ below root parts)
      × All IsName parts
      × NoLinks is_link root parts
      × (is_empty cs ≡ is_empty parts)
unfolding walk
walk-below is_link [] root path n h e = ([], cc (sym e), tt, tt, refl)
walk-below is_link (root_dir ∷ cs) root path n h e = cc n
walk-below is_link (cur_dir ∷ cs) root path n h e = cc n
walk-below is_link (parent_dir ∷ cs) root path n h e = cc n
walk-below is_link (normal part ∷ cs) root path n h e =
    elim (Bool-cases (is_link (pushed root part))) [
      | inl link ↦ cc (rw link at e)
      | inr plain ↦
          let (parts, where_to, names, links, _) =
            walk-below is_link cs (pushed root part) path n h.1 (rw plain at e) in
          (part ∷ parts, where_to, (h.0, names), (plain, links), refl)
    ]

passed :
    {A : Type 0} (b : Bool) (e : Error) (next : Result A) (a : A)
    → (reject_if b e >>= λ _. next) ≡ ok a
    → (b ≡ false) × (next ≡ ok a)
passed true e next a h = cc h
passed false e next a h = (refl, h)

is_empty-some : (cs : List Component) → HasComponent cs → is_empty cs ≡ false
unfolding HasComponent
is_empty-some [] h = absurd h
is_empty-some (c ∷ cs) h = refl

codes-cons : (s : String) → (s == "") ≡ false → (c : ℕ) × (cs : List ℕ) × (codes s ≡ c ∷ cs)
codes-cons String.[] h = cc h
codes-cons (String.◌∷◌ c s) h = (code c, codes s, refl)

-- A relative path that is accepted leads to a path strictly below its root: behind the root come one or more
-- names, each of them not empty, not ".", not ".." and without a slash, and no path that is gone through on
-- the way, the whole path included, is a symbolic link.
pub scoped_path-below :
    (is_link : List ℕ → Bool) (root path : List ℕ) (relative : String)
    → scoped_path is_link root relative ≡ ok path
    → (parts : List (List ℕ)) × (path ≡ below root parts)
      × All IsName parts
      × NoLinks is_link root parts
      × (is_empty parts ≡ false)
unfolding scoped_path
scoped_path-below is_link root path relative e =
    let cs = components (codes relative) in
    let (valid, walked) =
      passed (relative == "" || one_of b'\\' (codes relative) || not (all is_normal cs))
        not_relative (walk is_link root cs) path e in
    let (left, normal_only) =
      ||-eq-false (relative == "" || one_of b'\\' (codes relative)) (not (all is_normal cs))
        valid in
    let (filled, _) = ||-eq-false (relative == "") (one_of b'\\' (codes relative)) left in
    let (c, rest, shape) = codes-cons relative filled in
    let (parts, where_to, names, links, same) =
      walk-below is_link cs root path (not_false (all is_normal cs) normal_only)
        (components-Named (codes relative)) walked in
    (
      parts,
      where_to,
      names,
      links,
      sym same ∙ ap (λ x. is_empty (components x)) shape ∙ is_empty-some _ (components-some c rest),
    )
  where
    not_false : (b : Bool) → not b ≡ false → b ≡ true
    not_false b h = ground arith
