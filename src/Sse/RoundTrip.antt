-- ===== src/Sse/RoundTrip.antt =====
-- A printer of event streams, and that the decoder of crates/llmbase-model/src/sse.rs reads it back.
use mathlib.Core.Bool.{false≢true}
use llmbase.Prelude.{
  ltb, leb, if-same, length, is_empty, length-append, All, bytes_PartialEq, ℕ, ◌+◌, ◌≤◌, ◌≡◌, refl,
  sym, ap, ◌∙◌, inr, Bool, true, false, none, some, List, [], ◌∷◌, ◌++◌, map, append-nil,
  append_assoc, arith,
}
use llmbase.Utf8.{valid, pop-concat}
use llmbase.Sse.{
  Decoder, Outcome, done, ◌>>=◌, new, usize_max, add_field, close_line, end_line, newline,
  take_byte, push_byte, events_of, push,
}
use llmbase.Sse.Chunks.{bind-nil}
use llmbase.Sse.Newlines.{events, prepend, events-bind, push-nil}

-- "data: " before each line of the event, LF behind it.
abbrev pub print_lines : List (List ℕ) → List ℕ
print_lines [] = []
print_lines (l ∷ ls) = b'd' ∷ b'a' ∷ b't' ∷ b'a' ∷ b':' ∷ b' ' ∷ (l ++ (b'\n' ∷ print_lines ls))

-- A blank line closes the event.
abbrev pub print_events : List (List (List ℕ)) → List ℕ
print_events [] = []
print_events (e ∷ es) = print_lines e ++ (b'\n' ∷ print_events es)

-- The lines of an event joined by LF.
abbrev pub joined : List (List ℕ) → List ℕ
joined [] = []
joined (l ∷ []) = l
joined (l ∷ ls) = l ++ (b'\n' ∷ joined ls)

abbrev data_space : List ℕ
data_space = b'd' ∷ b'a' ∷ b't' ∷ b'a' ∷ b':' ∷ b' ' ∷ []

abbrev collected : List (List ℕ) → List ℕ
collected [] = []
collected (l ∷ ls) = l ++ (b'\n' ∷ collected ls)

data_space_plain : All (λ b. newline b ≡ false) data_space
data_space_plain = (refl, (refl, (refl, (refl, (refl, (refl, tt))))))

length-print_lines :
    (l : List ℕ) (ls : List (List ℕ))
    → length (print_lines (l ∷ ls)) ≡ length (print_lines (l ∷ [])) + length (print_lines ls)
length-print_lines l ls =
    omega (arith, length-append l (b'\n' ∷ print_lines ls), length-append l (b'\n' ∷ []))

collected-joined :
    (l : List ℕ) (ls : List (List ℕ)) → collected (l ∷ ls) ≡ joined (l ∷ ls) ++ b'\n' ∷ []
collected-joined l [] = refl
collected-joined l (m ∷ ls) =
    ap (λ t. l ++ (b'\n' ∷ t)) (collected-joined m ls)
    ∙ sym (append_assoc l (b'\n' ∷ joined (m ∷ ls)) (b'\n' ∷ []))

abbrev at : Bool → List ℕ → List ℕ → ℕ → ℕ → Decoder
at first line text n limit = record {
  line = line;
  text = text;
  frame_bytes = n;
  limit = limit;
  skip_lf = false;
  first_line = first;
}

close_line-blank :
    (t : List ℕ) (n limit : ℕ)
    → close_line [] (at false [] (t ++ b'\n' ∷ []) n limit) ≡ done (some t) (at false [] [] 0 limit)
unfolding close_line
close_line-blank [] n limit = rw (pop-concat [] b'\n' (omega arith))
close_line-blank (b ∷ t) n limit = rw (pop-concat (b ∷ t) b'\n' (omega arith))

-- A line that can be sent: UTF-8 with no line end in it.
abbrev pub IsLine : List ℕ → Type 0
IsLine l = (valid l ≡ true) × All (λ b. newline b ≡ false) l

-- An event that can be sent under the limit: at least one line.
abbrev pub IsSendable : ℕ → List (List ℕ) → Type 0
IsSendable limit e = (is_empty e ≡ false) × All IsLine e × (length (print_lines e) + 1 ≤ limit)

-- An event that is not finished yet leaves nothing to prepend.
rest-none : (o : Outcome (List (List ℕ))) → (o >>= λ es d. done (events_of none ++ es) d) ≡ o
rest-none = bind-nil

add_field-data :
    (text l : List ℕ)
    → add_field text (b'd' ∷ b'a' ∷ b't' ∷ b'a' ∷ b':' ∷ b' ' ∷ l) ≡ text ++ (l ++ b'\n' ∷ [])
unfolding add_field
add_field-data text l = refl

valid-data :
    (l : List ℕ) → valid l ≡ true → valid (b'd' ∷ b'a' ∷ b't' ∷ b'a' ∷ b':' ∷ b' ' ∷ l) ≡ true
unfolding valid
valid-data l h = h

module _ (limit : ℕ) (fits : limit ≤ usize_max) where
  push-char :
      (b : ℕ) (rest : List ℕ) (first : Bool) (line text : List ℕ) (n : ℕ)
      → newline b ≡ false
      → n + 1 ≤ limit
      → push (at first line text n limit) (b ∷ rest)
        ≡ push (at first (line ++ b ∷ []) text (n + 1) limit) rest
  unfolding push push_byte take_byte
  push-char b rest first line text n h k =
      let room : leb usize_max n ≡ false = ground arith in
      let below : ltb limit (n + 1) ≡ false = ground arith in rw (room, below, h) (rest-none _)

  push-body :
      (l rest : List ℕ) (first : Bool) (line text : List ℕ) (n : ℕ)
      → All (λ b. newline b ≡ false) l
      → n + length l ≤ limit
      → push (at first line text n limit) (l ++ rest)
        ≡ push (at first (line ++ l) text (n + length l) limit) rest
  push-body [] rest first line text n h k =
      let same : n ≡ n + 0 = omega arith in
      ap (λ m. push (at first line text m limit) rest) same ∙ rw append-nil
  push-body (b ∷ l) rest first line text n h k =
      let same : n + 1 + length l ≡ n + length (b ∷ l) = omega arith in
      push-char b (l ++ rest) first line text n h.0 (omega arith)
      ∙ push-body l rest first (line ++ b ∷ []) text (n + 1) h.1 (omega arith)
      ∙ ap (λ m. push (at first ((line ++ b ∷ []) ++ l) text m limit) rest) same
      ∙ ap (λ l'. push (at first l' text (n + length (b ∷ l)) limit) rest)
          (append_assoc line (b ∷ []) l)

  -- LF behind a line that holds data.
  push-data_end :
      (l rest : List ℕ) (first : Bool) (text : List ℕ) (n : ℕ)
      → valid l ≡ true
      → n + 1 ≤ limit
      → push (at first (b'd' ∷ b'a' ∷ b't' ∷ b'a' ∷ b':' ∷ b' ' ∷ l) text n limit) (b'\n' ∷ rest)
        ≡ push (at false [] (text ++ (l ++ b'\n' ∷ [])) (n + 1) limit) rest
  unfolding push push_byte take_byte end_line close_line
  push-data_end l rest first text n v k =
      let room : leb usize_max n ≡ false = ground arith in
      let below : ltb limit (n + 1) ≡ false = ground arith in
      rw (room, below, valid-data l v)
        (rw (if-same first (b'd' ∷ b'a' ∷ b't' ∷ b'a' ∷ b':' ∷ b' ' ∷ l))
          (rw add_field-data (rest-none _)))

  -- A whole line.
  push-line :
      (l rest : List ℕ) (first : Bool) (text : List ℕ) (n : ℕ)
      → IsLine l
      → n + length (print_lines (l ∷ [])) ≤ limit
      → push
          (at first [] text n limit)
          (b'd' ∷ b'a' ∷ b't' ∷ b'a' ∷ b':' ∷ b' ' ∷ (l ++ (b'\n' ∷ rest)))
        ≡ push
            (at false [] (text ++ (l ++ b'\n' ∷ [])) (n + length (print_lines (l ∷ []))) limit)
            rest
  push-line l rest first text n h k =
      let size = length-append l (b'\n' ∷ []) in
      let whole : n + length data_space + length l + 1 ≡ n + length (print_lines (l ∷ [])) =
        omega arith in
      push-body data_space (l ++ (b'\n' ∷ rest)) first [] text n data_space_plain (omega arith)
      ∙ push-body l (b'\n' ∷ rest) first data_space text (n + length data_space) h.1 (omega arith)
      ∙ push-data_end l rest first text (n + length data_space + length l) h.0 (omega arith)
      ∙ ap (λ m. push (at false [] (text ++ (l ++ b'\n' ∷ [])) m limit) rest) whole

  push-lines :
      (ls : List (List ℕ)) (rest text : List ℕ) (n : ℕ)
      → All IsLine ls
      → n + length (print_lines ls) ≤ limit
      → push (at false [] text n limit) (print_lines ls ++ rest)
        ≡ push (at false [] (text ++ collected ls) (n + length (print_lines ls)) limit) rest
  push-lines [] rest text n h k =
      let same : n ≡ n + 0 = omega arith in
      rw append-nil (ap (λ m. push (at false [] text m limit) rest) same)
  push-lines (l ∷ ls) rest text n h k =
      let size = length-print_lines l ls in
      let whole : n + length (print_lines (l ∷ [])) + length (print_lines ls)
          ≡ n + length (print_lines (l ∷ ls)) =
        omega arith in
      ap (λ t. push (at false [] text n limit) (data_space ++ t))
        (append_assoc l (b'\n' ∷ print_lines ls) rest)
      ∙ push-line l (print_lines ls ++ rest) false text n h.0 (omega arith)
      ∙ push-lines ls rest (text ++ (l ++ b'\n' ∷ [])) (n + length (print_lines (l ∷ []))) h.1
          (omega arith)
      ∙ ap (λ m. push (at false [] ((text ++ (l ++ b'\n' ∷ [])) ++ collected ls) m limit) rest)
          whole
      ∙ ap (λ t. push (at false [] t (n + length (print_lines (l ∷ ls))) limit) rest)
          (append_assoc text (l ++ b'\n' ∷ []) (collected ls)
            ∙ ap (λ t. text ++ t) (append_assoc l (b'\n' ∷ []) (collected ls)))

  push-blank :
      (t rest : List ℕ) (n : ℕ)
      → n + 1 ≤ limit
      → push (at false [] (t ++ b'\n' ∷ []) n limit) (b'\n' ∷ rest)
        ≡ (push (at false [] [] 0 limit) rest >>= λ es d. done (t ∷ es) d)
  unfolding push push_byte take_byte end_line valid
  push-blank t rest n k =
      let room : leb usize_max n ≡ false = ground arith in
      let below : ltb limit (n + 1) ≡ false = ground arith in
      rw (room, below, close_line-blank t (n + 1) limit)

  push-event :
      (l : List ℕ) (ls : List (List ℕ)) (rest : List ℕ) (first : Bool)
      → All IsLine (l ∷ ls)
      → length (print_lines (l ∷ ls)) + 1 ≤ limit
      → push (at first [] [] 0 limit) (print_lines (l ∷ ls) ++ (b'\n' ∷ rest))
        ≡ (push (at false [] [] 0 limit) rest >>= λ es d. done (joined (l ∷ ls) ∷ es) d)
  push-event l ls rest first h k =
      let size = length-print_lines l ls in
      let sum = length (print_lines (l ∷ [])) + length (print_lines ls) in
      ap (λ t. push (at first [] [] 0 limit) (data_space ++ t))
        (append_assoc l (b'\n' ∷ print_lines ls) (b'\n' ∷ rest))
      ∙ push-line l (print_lines ls ++ (b'\n' ∷ rest)) first [] 0 h.0 (omega arith)
      ∙ push-lines ls (b'\n' ∷ rest) (l ++ b'\n' ∷ []) (0 + length (print_lines (l ∷ []))) h.1
          (omega arith)
      ∙ ap
          (λ t.
            push (at false [] t (0 + length (print_lines (l ∷ [])) + length (print_lines ls)) limit)
              (b'\n' ∷ rest))
          (append_assoc l (b'\n' ∷ []) (collected ls) ∙ collected-joined l ls)
      ∙ push-blank (joined (l ∷ ls)) rest
          (0 + length (print_lines (l ∷ [])) + length (print_lines ls)) (omega arith)

  push-print_events :
      (es : List (List (List ℕ))) (first : Bool)
      → All (IsSendable limit) es
      → events (push (at first [] [] 0 limit) (print_events es)) ≡ inr (map joined es)
  push-print_events [] first h = rw push-nil
  push-print_events ([] ∷ es) first h = absurd (false≢true (sym h.0.0))
  push-print_events ((l ∷ ls) ∷ es) first h =
      ap events (push-event l ls (print_events es) first h.0.1 h.0.2)
      ∙ events-bind (joined (l ∷ ls) ∷ []) (push (at false [] [] 0 limit) (print_events es))
      ∙ ap (prepend (joined (l ∷ ls) ∷ [])) (push-print_events es false h.1)

-- A new decoder reads back every printed stream: events of at least one line each, every line UTF-8
-- with no line end in it and each printed event no longer than the limit (a `usize`), come out in
-- order, their lines joined by LF, and nothing else comes out.
pub new-print_events :
    (limit : ℕ) (es : List (List (List ℕ)))
    → limit ≤ usize_max
    → All (IsSendable limit) es
    → events (push (new limit) (print_events es)) ≡ inr (map joined es)
unfolding new
new-print_events limit es fits h = push-print_events limit fits es true h
