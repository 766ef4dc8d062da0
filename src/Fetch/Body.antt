-- ===== src/Fetch/Body.antt =====
-- How the body of a response is read in crates/llmbase-core/src/fetch.rs.
use mathlib.Core.Path.{subst}
use llmbase.Prelude.{
  ltb, leb, if◌then◌else◌, length, length-append, ℕ, ◌+◌, ◌-◌, ◌≤◌, ◌<◌, ◌≡◌, refl, sym, Bool, true,
  false, Option, none, some, List, [], ◌∷◌, ◌++◌, map, append-nil, append_assoc, arith,
}
use llmbase.Errors.{Result, ok, err, ◌>>◌, reject_if, passed}
use llmbase.Fetch.Redirects.{too_large, read_body}

abbrev pub flat : List (List ℕ) → List ℕ
flat [] = []
flat (chunk ∷ chunks) = chunk ++ flat chunks

abbrev pub arrived : List (List ℕ) → List (Option (List ℕ))
arrived chunks = map some chunks

-- The result for a body that would be this as a whole.
abbrev pub whole_or_refused : ℕ → List ℕ → Result (List ℕ)
whole_or_refused limit whole = if leb (length whole) limit then ok whole else err too_large

within_limit :
    (limit : ℕ) (whole : List ℕ) → length whole ≤ limit → whole_or_refused limit whole ≡ ok whole
within_limit limit whole h = rw (at_most limit (length whole) h)
  where
    at_most : (l n : ℕ) → n ≤ l → leb n l ≡ true
    at_most l n k = ground arith

beyond_limit :
    (limit : ℕ) (whole : List ℕ)
    → limit < length whole
    → whole_or_refused limit whole ≡ err too_large
beyond_limit limit whole h = rw (more limit (length whole) h)
  where
    more : (l n : ℕ) → l < n → leb n l ≡ false
    more l n k = ground arith

cut_off : (limit b c : ℕ) → ltb (limit - b) c ≡ true → limit < b + c
cut_off limit b c h = ground arith

grown : (limit b c : ℕ) → b ≤ limit → ltb (limit - b) c ≡ false → b + c ≤ limit
grown limit b c fits h = ground arith

read_body_from :
    (limit : ℕ) (body : List ℕ) (chunks : List (List ℕ))
    → length body ≤ limit
    → read_body limit body (arrived chunks) ≡ whole_or_refused limit (body ++ flat chunks)
unfolding read_body
read_body_from limit body [] fits = rw (append-nil body) (sym (within_limit limit body fits))
read_body_from limit body (chunk ∷ chunks) fits =
    go _ refl (read_body_from limit (body ++ chunk) chunks)
  where
    go :
        (b : Bool)
        → ltb (limit - length body) (length chunk) ≡ b
        → (length (body ++ chunk) ≤ limit
            → read_body limit (body ++ chunk) (arrived chunks)
              ≡ whole_or_refused limit ((body ++ chunk) ++ flat chunks))
        → (reject_if b too_large >> read_body limit (body ++ chunk) (arrived chunks))
          ≡ whole_or_refused limit (body ++ (chunk ++ flat chunks))
    go true large later = sym (
        beyond_limit limit (body ++ (chunk ++ flat chunks)) (
          rw (length-append body (chunk ++ flat chunks), length-append chunk (flat chunks))
            (longer (cut_off limit (length body) (length chunk) large))))
      where
        longer :
            limit < length body + length chunk
            → limit < length body + (length chunk + length (flat chunks))
        longer k = omega arith
    go false small later = rw (sym (append_assoc body chunk (flat chunks))) (
        later (rw (length-append body chunk) (grown limit (length body) (length chunk) fits small)))

-- However a body is cut into chunks, it is read as a whole when it is within the limit, and refused when it is
-- not.
pub read_body-flat :
    (limit : ℕ) (chunks : List (List ℕ))
    → read_body limit [] (arrived chunks) ≡ whole_or_refused limit (flat chunks)
read_body-flat limit chunks = read_body_from limit [] chunks (omega arith)

-- A body that is read is within the limit, failures to read or not.
pub read_body-Fits :
    (limit : ℕ) (body : List ℕ) (chunks : List (Option (List ℕ))) (whole : List ℕ)
    → length body ≤ limit
    → read_body limit body chunks ≡ ok whole
    → length whole ≤ limit
unfolding read_body
read_body-Fits limit body [] whole fits h = subst (λ b. length b ≤ limit) (same h) fits
  where
    same : Result.ok body ≡ ok whole → body ≡ whole
    same k = cc k
read_body-Fits limit body (none ∷ chunks) whole fits h = cc h
read_body-Fits limit body (some chunk ∷ chunks) whole fits h =
    let (small, rest) = passed (ltb (limit - length body) (length chunk)) _ _ whole h in
    read_body-Fits limit (body ++ chunk) chunks whole
      (rw (length-append body chunk) (grown limit (length body) (length chunk) fits small)) rest
