-- ===== src/Document/Offsets.antt =====
-- Offsets in bytes and in characters: crates/llmbase-core/src/document.rs.
use llmbase.Prelude.{
  leb, if◌then◌else◌, Bool-cases, length, take, drop, ℕ, zero, suc, ◌+◌, ◌≤◌, ◌≡◌, refl, inl, inr,
  Bool, true, false, Option, none, some, List, [], ◌∷◌, arith,
}
use llmbase.Utf8.{continuation}
use llmbase.Errors.{invalid, ok, err}
use llmbase.Document.{count_chars, is_boundary, byte_to_scalar, nth_start, scalar_to_byte}

-- Where a number of characters has gone by in a text, counted from `at`.
pub data IsAt (n at k : ℕ) (text : List ℕ) : Type 0 where
  here :
      (j : ℕ)
      → k ≡ at + j
      → j ≤ length text
      → is_boundary (drop j text) ≡ true
      → count_chars (take j text) ≡ n
      → IsAt n at k text

further :
    (n m at k b : ℕ) (text : List ℕ)
    → (count_chars (b ∷ []) + n) ≡ m
    → IsAt n (suc at) k text
    → IsAt m at k (b ∷ text)
unfolding count_chars
further n m at k b text e (here j same inside boundary counted) =
    here (suc j) (omega (arith, same)) (omega (arith, inside)) boundary (go (continuation b) e)
  where
    go :
        (c : Bool)
        → (if c then 0 else 1) + n ≡ m
        → (if c then count_chars (take j text) else suc (count_chars (take j text))) ≡ m
    go true h = omega (arith, h, counted)
    go false h = omega (arith, h, counted)

some_eq : (a b : ℕ) → some a ≡ some b → a ≡ b
some_eq a b h = cc h

at_zero : (at k : ℕ) → at ≡ k → k ≡ at + 0
at_zero at k h = omega (arith, h)

nth_start-IsAt : (n at k : ℕ) (text : List ℕ) → nth_start n at text ≡ some k → IsAt n at k text
unfolding nth_start count_chars
nth_start-IsAt zero at k [] h = here 0 (at_zero at k (some_eq at k h)) (omega arith) refl refl
nth_start-IsAt (suc n) at k [] h = cc h
nth_start-IsAt zero at k (b ∷ text) h = elim (Bool-cases (continuation b)) [
  | inl inside ↦
      further 0 0 at k b text (rw inside (omega arith))
        (nth_start-IsAt zero (suc at) k text (rw inside at h))
  | inr first ↦
      here 0 (at_zero at k (some_eq at k (rw first at h))) (omega arith) (rw first refl) refl
]
nth_start-IsAt (suc n) at k (b ∷ text) h = elim (Bool-cases (continuation b)) [
  | inl inside ↦
      further (suc n) (suc n) at k b text (rw inside (omega arith))
        (nth_start-IsAt (suc n) (suc at) k text (rw inside at h))
  | inr first ↦
      further n (suc n) at k b text (rw first (omega arith))
        (nth_start-IsAt n (suc at) k text (rw first at h))
]

-- The byte at which a number of characters has gone by is a boundary of the text, and that many characters are
-- before it: `byte_to_scalar` takes back what `scalar_to_byte` has given.
pub scalar_to_byte-back :
    (text : List ℕ) (n k : ℕ) → scalar_to_byte text n ≡ ok k → byte_to_scalar text k ≡ ok n
unfolding scalar_to_byte byte_to_scalar
scalar_to_byte-back text n k h = back (nth_start-IsAt n 0 k text (found (nth_start n 0 text) h))
  where
    found :
        (o : Option ℕ)
        → elim o [ some at ↦ ok at | none ↦ err (invalid "scalar offset exceeds source") ] ≡ ok k
        → o ≡ some k
    found (some at) e = cc e
    found none e = cc e

    le : (j m : ℕ) → j ≤ m → leb j m ≡ true
    le j m e = ground arith

    back : IsAt n 0 k text → byte_to_scalar text k ≡ ok n
    back (here j same inside boundary counted) =
        let e : k ≡ j = omega (arith, same) in
        rw (e, le j (length text) inside, boundary, counted) refl
