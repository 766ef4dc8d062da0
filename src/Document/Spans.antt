-- ===== src/Document/Spans.antt =====
-- The spans of `Document::chunks` in crates/llmbase-core/src/document.rs.
use mathlib.Core.Path.{subst}
use llmbase.Prelude.{
  ltb, if◌then◌else◌, within, nat_eqb_iff, ltb→lt, Bool-cases, length, take, drop, length-append,
  take-append-drop, All, ◌==◌, nat_PartialEq, ℕ, zero, suc, ◌+◌, ◌-◌, ◌≤◌, ◌<◌, ◌≡◌, refl, sym, ap,
  ◌∙◌, ◌⊎◌, inl, inr, Bool, true, false, not, List, [], ◌∷◌, ◌++◌, append_assoc, arith,
}
use llmbase.Utf8.{continuation}
use llmbase.Errors.{ok, passed}
use llmbase.Document.{Document, spans, chunks, count_chars}

-- The bytes of a span.
abbrev pub slice : List ℕ → (ℕ × ℕ) → List ℕ
slice text (from, to) = take (to - from) (drop from text)

abbrev pub joined : List ℕ → List (ℕ × ℕ) → List ℕ
joined text [] = []
joined text (s ∷ ss) = slice text s ++ joined text ss

abbrev pub IsSpan : List ℕ → ℕ → (ℕ × ℕ) → Type 0
IsSpan text max_chars s = (s.0 < s.1) × (count_chars (slice text s) ≤ max_chars)

drop-append : (pre rest : List ℕ) → drop (length pre) (pre ++ rest) ≡ rest
drop-append [] rest = refl
drop-append (p ∷ pre) rest = drop-append pre rest

take-append : (pre rest : List ℕ) → take (length pre) (pre ++ rest) ≡ pre
take-append [] [] = refl
take-append [] (r ∷ rest) = refl
take-append (p ∷ pre) rest = ap (◌∷◌ p) (take-append pre rest)

slice-append :
    (text pre piece rest : List ℕ) (from to : ℕ)
    → text ≡ pre ++ (piece ++ rest)
    → length pre ≡ from
    → from + length piece ≡ to
    → slice text (from, to) ≡ piece
slice-append text pre piece rest from to e f t =
    rw (e, sym f, size) (rw (drop-append pre (piece ++ rest)) (take-append piece rest))
  where
    size : to - length pre ≡ length piece
    size = omega (arith, f, t)

count_chars-snoc :
    (piece : List ℕ) (b : ℕ)
    → count_chars (piece ++ b ∷ [])
      ≡ (if continuation b then count_chars piece else suc (count_chars piece))
unfolding count_chars
count_chars-snoc [] b = refl
count_chars-snoc (p ∷ piece) b =
    rw (count_chars-snoc piece b) (swap (continuation p) (continuation b))
  where
    n : ℕ
    n = count_chars piece

    swap :
        (c d : Bool)
        → (if c then (if d then n else suc n) else suc (if d then n else suc n))
          ≡ (if d then (if c then n else suc n) else suc (if c then n else suc n))
    swap true d = refl
    swap false true = refl
    swap false false = refl

count_chars-length : (piece : List ℕ) → count_chars piece ≤ length piece
unfolding count_chars
count_chars-length [] = omega arith
count_chars-length (p ∷ piece) = go (continuation p) (count_chars-length piece)
  where
    go :
        (c : Bool)
        → count_chars piece ≤ length piece
        → (if c then count_chars piece else suc (count_chars piece)) ≤ suc (length piece)
    go true h = omega (arith, h)
    go false h = omega (arith, h)

last-IsSpan :
    (text : List ℕ) (max_chars start offset : ℕ) (pre piece rest : List ℕ)
    → text ≡ pre ++ (piece ++ rest)
    → length pre ≡ start
    → start + length piece ≡ offset
    → count_chars piece ≤ max_chars
    → start < offset
    → IsSpan text max_chars (start, offset)
last-IsSpan text max_chars start offset pre piece rest e f t few less =
    (less, rw (slice-append text pre piece rest start offset e f t) few)

empty_of : (bytes : List ℕ) → length bytes ≡ 0 → bytes ≡ []
empty_of [] h = refl
empty_of (b ∷ bytes) h = absurd (omega (arith, h))

none_read : (start offset n : ℕ) → start + n ≡ offset → ltb start offset ≡ false → n ≡ 0
none_read start offset n h k = ground arith

-- The spans from `start` on, where `piece` has been read, cover the piece and the rest.
abbrev Covers : List ℕ → ℕ → List (ℕ × ℕ) → List ℕ → Type 0
Covers text max_chars ss body = (joined text ss ≡ body) × All (IsSpan text max_chars) ss

spans-Covers :
    (text : List ℕ) (max_chars start offset count : ℕ) (pre piece rest : List ℕ)
    → text ≡ pre ++ (piece ++ rest)
    → length pre ≡ start
    → start + length piece ≡ offset
    → count_chars piece ≡ count
    → count ≤ max_chars
    → 1 ≤ max_chars
    → Covers text max_chars (spans max_chars start offset count rest) (piece ++ rest)
unfolding spans count_chars
spans-Covers text max_chars start offset count pre piece [] e f t c few some_chars =
    go (Bool-cases (ltb start offset))
  where
    go :
        (ltb start offset ≡ true) ⊎ (ltb start offset ≡ false)
        → Covers text max_chars
            (if ltb start offset then (start, offset) ∷ [] else [])
            (piece ++ [])
    go (inl more) = rw more (
      ap (λ x. x ++ []) (slice-append text pre piece [] start offset e f t),
      (
        last-IsSpan text max_chars start offset pre piece [] e f t (rw c few)
            (ltb→lt start offset more),
        tt,
      ),
    )
    go (inr none_more) =
        rw (none_more, empty_of piece (none_read start offset (length piece) t none_more))
          (refl, tt)
spans-Covers text max_chars start offset count pre piece (b ∷ rest) e f t c few some_chars =
    elim (Bool-cases (continuation b)) [
      | inl inside ↦ rw inside (
          subst (Covers text max_chars (spans max_chars start (suc offset) count rest))
            (append_assoc piece (b ∷ []) rest)
            (spans-Covers text max_chars start (suc offset) count pre (piece ++ b ∷ []) rest
              (e ∙ ap (λ x. pre ++ x) (sym (append_assoc piece (b ∷ []) rest))) f (longer t)
              (count_chars-snoc piece b ∙ rw inside c) few some_chars))
      | inr first ↦ elim (Bool-cases (count == max_chars)) [
        | inl full ↦
            rw (first, full)
              (cut full (
                spans-Covers text max_chars offset (suc offset) 1 (pre ++ piece) (b ∷ []) rest
                  (e ∙ sym (append_assoc pre piece (b ∷ rest))) (so_far t) (omega arith) (one first)
                  some_chars some_chars))
        | inr room ↦
            rw (first, room)
              (subst (Covers text max_chars (spans max_chars start (suc offset) (suc count) rest))
                (append_assoc piece (b ∷ []) rest)
                (spans-Covers text max_chars start (suc offset) (suc count) pre (piece ++ b ∷ [])
                  rest (e ∙ ap (λ x. pre ++ x) (sym (append_assoc piece (b ∷ []) rest))) f
                  (longer t) (count_chars-snoc piece b ∙ rw first (ap suc c))
                  (more_room count max_chars few room) some_chars))
      ]
    ]
  where
    longer : start + length piece ≡ offset → start + length (piece ++ b ∷ []) ≡ suc offset
    longer h = let l = length-append piece (b ∷ []) in omega (arith, h, l)

    so_far : start + length piece ≡ offset → length (pre ++ piece) ≡ offset
    so_far h = let l = length-append pre piece in omega (arith, h, l, f)

    one : continuation b ≡ false → count_chars (b ∷ []) ≡ 1
    one h = count_chars-snoc [] b ∙ rw h refl

    more_room : (n m : ℕ) → n ≤ m → (n == m) ≡ false → suc n ≤ m
    more_room n m h k = ground arith

    cut :
        (count == max_chars) ≡ true
        → Covers text max_chars (spans max_chars offset (suc offset) 1 rest) (b ∷ rest)
        → Covers text max_chars
            ((start, offset) ∷ spans max_chars offset (suc offset) 1 rest)
            (piece ++ b ∷ rest)
    cut full (covers, good) = (
      rw (slice-append text pre piece (b ∷ rest) start offset e f t) (ap (λ x. piece ++ x) covers),
      (
        last-IsSpan text max_chars start offset pre piece (b ∷ rest) e f t (rw c few) nonempty,
        good,
      ),
    )
      where
        nonempty : start < offset
        nonempty =
            let k = count_chars-length piece in
            let l = (nat_eqb_iff count max_chars).0 full in omega (arith, k, l, c, some_chars, t)

take-length : (n : ℕ) (xs : List ℕ) → n ≤ length xs → length (take n xs) ≡ n
take-length zero xs h = refl
take-length (suc n) [] h = absurd (omega (arith, h))
take-length (suc n) (x ∷ xs) h = let l = take-length n xs (omega (arith, h)) in omega (arith, l)

-- The spans of a document's body are not empty, hold at most `max_chars` characters each, and their bytes,
-- one after another, are the body.
pub chunks-Cover :
    (document : Document) (max_chars : ℕ) (ss : List (ℕ × ℕ))
    → document.body_start ≤ length document.original
    → chunks document max_chars ≡ ok ss
    → (joined document.original ss ≡ drop document.body_start document.original)
      × All (IsSpan document.original max_chars) ss
unfolding chunks count_chars
chunks-Cover document max_chars ss inside h =
    let (accepted, h1) = passed (not (within 16 32000 max_chars)) _ _ ss h in
    let same : found ≡ ss = cc h1 in
    subst (λ x. Covers document.original max_chars x body) same
      (spans-Covers document.original max_chars start start 0 (take start document.original) [] body
        (sym (take-append-drop start document.original))
        (take-length start document.original inside) (omega arith) none_counted (omega arith)
        (at_least max_chars accepted))
  where
    start : ℕ
    start = document.body_start

    body : List ℕ
    body = drop start document.original

    found : List (ℕ × ℕ)
    found = spans max_chars start start 0 body

    none_counted : count_chars [] ≡ 0
    none_counted = refl

    at_least : (m : ℕ) → not (within 16 32000 m) ≡ false → 1 ≤ m
    at_least m k = ground arith
