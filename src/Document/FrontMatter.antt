-- ===== src/Document/FrontMatter.antt =====
-- What `Document::parse` of crates/llmbase-core/src/document.rs makes of a text.
use llmbase.Prelude.{
  &&-eq-true, length, drop, all, length-append, ◌==◌, nat_PartialEq, ℕ, ◌+◌, String, ◌≡◌, refl, sym,
  ap, ◌∙◌, ◌⊎◌, inl, inr, Bool, true, false, not, Option, some, List, [], ◌∷◌, ◌++◌, map,
  append_assoc, arith,
}
use llmbase.Utf8.{valid}
use llmbase.Json.{Value, is_object}
use llmbase.Errors.{Result, ok, bind_ok, passed}
use llmbase.Document.{
  Document, split_inclusive, dashes, closes, front_matter, null_to_empty, at_front, parse,
}

abbrev pub flat_lines : List (List ℕ) → List ℕ
flat_lines [] = []
flat_lines (line ∷ lines) = line ++ flat_lines lines

-- A line of text that is not the last: no line feed but the one at its end.
abbrev pub ended : List ℕ → List ℕ
ended text = text ++ b'\n' ∷ []

abbrev pub has_no_feed : List ℕ → Bool
has_no_feed text = all (λ b. not (b == b'\n')) text

pub split_inclusive-line :
    (text rest : List ℕ)
    → has_no_feed text ≡ true
    → split_inclusive (ended text ++ rest) ≡ ended text ∷ split_inclusive rest
unfolding split_inclusive
split_inclusive-line [] rest h = refl
split_inclusive-line (b ∷ text) rest h =
    let (other, others) = &&-eq-true (not (b == b'\n')) (has_no_feed text) h in
    rw (is_other (b == b'\n') other, split_inclusive-line text rest others) refl
  where
    is_other : (c : Bool) → not c ≡ true → c ≡ false
    is_other c k = ground arith

abbrev pub lines_of : List (List ℕ) → List (List ℕ)
lines_of texts = map ended texts

append_nil : (xs : List ℕ) → xs ++ [] ≡ xs
append_nil [] = refl
append_nil (x ∷ xs) = ap (λ l. x ∷ l) (append_nil xs)

-- A line that closes front matter: it ends in a line feed, or is the end of the text.
abbrev pub IsClosing : List ℕ → List ℕ → Type 0
IsClosing close rest =
    ((text : List ℕ) × (has_no_feed text ≡ true) × (close ≡ ended text))
    ⊎ ((has_no_feed close ≡ true) × (rest ≡ []))

split_inclusive-end :
    (b : ℕ) (text : List ℕ)
    → has_no_feed (b ∷ text) ≡ true
    → split_inclusive (b ∷ text) ≡ (b ∷ text) ∷ []
unfolding split_inclusive
split_inclusive-end b [] h =
    let (other, _) = &&-eq-true (not (b == b'\n')) true h in rw (is_other (b == b'\n') other) refl
  where
    is_other : (c : Bool) → not c ≡ true → c ≡ false
    is_other c k = ground arith
split_inclusive-end b (c ∷ text) h =
    let (other, others) = &&-eq-true (not (b == b'\n')) (has_no_feed (c ∷ text)) h in
    rw (is_other (b == b'\n') other, split_inclusive-end c text others) refl
  where
    is_other : (c : Bool) → not c ≡ true → c ≡ false
    is_other c k = ground arith

front_matter-close :
    (close rest : List ℕ)
    → IsClosing close rest
    → closes close ≡ true
    → front_matter (split_inclusive (close ++ rest)) ≡ some ([], close)
unfolding front_matter
front_matter-close close rest (inl (text, line, e)) ends =
    ap (λ c. front_matter (split_inclusive (c ++ rest))) e
    ∙ rw (split_inclusive-line text rest line, sym (ap closes e) ∙ ends) refl
    ∙ ap (λ c. Option.some ([], c)) (sym e)
front_matter-close [] rest (inr (line, e)) ends = cc ends
front_matter-close (b ∷ close) rest (inr (line, e)) ends =
    ap (λ r. front_matter (split_inclusive (b ∷ close ++ r))) e
    ∙ ap (λ c. front_matter (split_inclusive c)) (append_nil (b ∷ close))
    ∙ rw (split_inclusive-end b close line, ends) refl

front_matter-lines :
    (texts : List (List ℕ)) (close rest : List ℕ)
    → all has_no_feed texts ≡ true
    → all (λ t. not (closes (ended t))) texts ≡ true
    → IsClosing close rest
    → closes close ≡ true
    → front_matter (split_inclusive (flat_lines (lines_of texts) ++ (close ++ rest)))
      ≡ some (flat_lines (lines_of texts), close)
unfolding front_matter
front_matter-lines [] close rest lined none_closes closed ends =
    front_matter-close close rest closed ends
front_matter-lines (text ∷ texts) close rest lined none_closes closed ends =
    let (line, lines) = &&-eq-true (has_no_feed text) (all has_no_feed texts) lined in
    let (other, others) =
      &&-eq-true (not (closes (ended text))) (all (λ t. not (closes (ended t))) texts)
        none_closes in
    ap (λ x. front_matter (split_inclusive x))
      (append_assoc (ended text) (flat_lines (lines_of texts)) (close ++ rest))
    ∙ ap front_matter
        (split_inclusive-line text (flat_lines (lines_of texts) ++ (close ++ rest)) line)
    ∙ rw
        (
          is_open (closes (ended text)) other,
          front_matter-lines texts close rest lines others closed ends,
        )
        refl
  where
    is_open : (c : Bool) → not c ≡ true → c ≡ false
    is_open c k = ground arith

drop-append : (pre rest : List ℕ) → drop (length pre) (pre ++ rest) ≡ rest
drop-append [] rest = refl
drop-append (p ∷ pre) rest = drop-append pre rest

drop-three :
    (a b c rest : List ℕ) → drop (length a + length b + length c) (a ++ (b ++ (c ++ rest))) ≡ rest
drop-three a b c rest =
    ap (λ k. drop k (a ++ (b ++ (c ++ rest)))) sizes
    ∙ ap (drop (length ((a ++ b) ++ c)))
        (sym (append_assoc a b (c ++ rest)) ∙ sym (append_assoc (a ++ b) c rest))
    ∙ drop-append ((a ++ b) ++ c) rest
  where
    sizes : length a + length b + length c ≡ length ((a ++ b) ++ c)
    sizes = omega (arith, length-append a b, length-append (a ++ b) c)

-- The first line, with the end that its system gives to lines.
abbrev pub opener : Bool → List ℕ
opener true = dashes ++ b'\r' ∷ b'\n' ∷ []
opener false = dashes ++ b'\n' ∷ []

-- A text with front matter: the lines between the opening dashes and the closing line, and the body.
abbrev pub fronted : Bool → List (List ℕ) → List ℕ → List ℕ → List ℕ
fronted crlf texts close body = opener crlf ++ (flat_lines (lines_of texts) ++ (close ++ body))

at_front-made :
    (hash : List ℕ → String) (parse_metadata : List ℕ → Result Value) (text : List ℕ) (start : ℕ)
    (front close : List ℕ) (document : Document)
    → at_front hash parse_metadata text start (some (front, close)) ≡ ok document
    → (document.original ≡ text)
      × (document.body_start ≡ start + length front + length close)
      × ((metadata : Value) × (parse_metadata front ≡ ok metadata)
          × (document.metadata ≡ null_to_empty metadata))
at_front-made hash parse_metadata text start front close document h =
    let (metadata, parsed, h2) = bind_ok (parse_metadata front) _ document h in
    let (_, h3) = passed (not (is_object (null_to_empty metadata))) _ _ document h2 in
    let same : made metadata ≡ document = cc h3 in
    (
      sym (ap (λ d. d.original) same),
      sym (ap (λ d. d.body_start) same),
      (metadata, parsed, sym (ap (λ d. d.metadata) same)),
    )
  where
    made : Value → Document
    made metadata = record {
      original = text;
      metadata = null_to_empty metadata;
      body_start = start + length front + length close;
      hash = hash text;
    }

-- `parse` of such a text is the reading of its front matter, behind the opening line.
parse-at_front :
    (hash : List ℕ → String) (parse_metadata : List ℕ → Result Value) (crlf : Bool) (rest : List ℕ)
    (document : Document)
    → parse hash parse_metadata (opener crlf ++ rest) ≡ ok document
    → at_front hash parse_metadata
        (opener crlf ++ rest)
        (length (opener crlf))
        (front_matter (split_inclusive rest))
      ≡ ok document
unfolding parse
parse-at_front hash parse_metadata true rest document h =
    (passed (not (valid (opener true ++ rest))) _ _ document h).1
parse-at_front hash parse_metadata false rest document h =
    (passed (not (valid (opener false ++ rest))) _ _ document h).1

-- A text has front matter where its first line is "---", ended by a line feed or by a carriage return and a
-- line feed, some lines follow that do not close it, and then a line that does: with a line feed at its end
-- and any body behind, or as the end of the text. A document that `parse` makes of such a text keeps the
-- text as it is; behind its `body_start` is the body, and its metadata is what `parse_metadata` makes of the
-- lines between, where null stands for no entry.
pub parse-fronted :
    (hash : List ℕ → String) (parse_metadata : List ℕ → Result Value) (crlf : Bool)
    (texts : List (List ℕ)) (close body : List ℕ) (document : Document)
    → all has_no_feed texts ≡ true
    → all (λ t. not (closes (ended t))) texts ≡ true
    → IsClosing close body
    → closes close ≡ true
    → parse hash parse_metadata (fronted crlf texts close body) ≡ ok document
    → (document.original ≡ fronted crlf texts close body)
      × (drop document.body_start document.original ≡ body)
      × ((metadata : Value) × (parse_metadata (flat_lines (lines_of texts)) ≡ ok metadata)
          × (document.metadata ≡ null_to_empty metadata))
parse-fronted hash parse_metadata crlf texts close body document lined none_closes closed ends h =
    let front = flat_lines (lines_of texts) in
    let text = fronted crlf texts close body in
    let read = parse-at_front hash parse_metadata crlf (front ++ (close ++ body)) document h in
    let (original, start, metadata) =
      at_front-made hash parse_metadata text (length (opener crlf)) front close document
        (rw (front_matter-lines texts close body lined none_closes closed ends) at read) in
    (
      original,
      ap (λ k. drop k document.original) start
          ∙ ap (drop (length (opener crlf) + length front + length close)) original
          ∙ drop-three (opener crlf) front close body,
      metadata,
    )
