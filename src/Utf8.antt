-- ===== src/Utf8.antt =====
-- The standard library's view of bytes as text: `str::from_utf8`'s test (RFC 3629), and the
-- operations on `str` that the program applies to bytes.
use mathlib.Core.List.{foldl, foldl-append, reverse, reverse-append, reverse-reverse}
use llmbase.Prelude.{
  leb, nat_eqb, if◌then◌else◌, within, Bool-cases, ℕ, ◌<◌, ◌≡◌, inl, inr, Bool, true, false, ◌&&◌,
  Option, none, some, List, [], ◌∷◌, ◌++◌, arith,
}

-- What may follow the bytes read so far: `lead` a new scalar, `tail n` exactly n continuation
-- bytes, the others one continuation byte in a narrower range and then one or two more.
pub data Expect : Type 0 where
  lead tail1 tail2 tail3 : Expect
  after_e0 after_ed after_f0 after_f4 : Expect
  bad : Expect

abbrev pub continuation : ℕ → Bool
continuation b = within 0x80 0xBF b

abbrev first_byte : ℕ → Expect
first_byte b =
    if leb b 0x7F
    then lead
    else if within 0xC2 0xDF b
    then tail1
    else if nat_eqb b 0xE0
    then after_e0
    else if nat_eqb b 0xED
    then after_ed
    else if within 0xE1 0xEF b
    then tail2
    else if nat_eqb b 0xF0
    then after_f0
    else if within 0xF1 0xF3 b
    then tail3
    else if nat_eqb b 0xF4
    then after_f4
    else bad

unfoldable pub scan : Expect → ℕ → Expect
scan lead b = first_byte b
scan tail1 b = if continuation b then lead else bad
scan tail2 b = if continuation b then tail1 else bad
scan tail3 b = if continuation b then tail2 else bad
scan after_e0 b = if within 0xA0 0xBF b then tail1 else bad
scan after_ed b = if within 0x80 0x9F b then tail1 else bad
scan after_f0 b = if within 0x90 0xBF b then tail2 else bad
scan after_f4 b = if within 0x80 0x8F b then tail2 else bad
scan bad b = bad

abbrev pub is_lead : Expect → Bool
is_lead lead = true
is_lead _ = false

abbrev pub scan_all : Expect → List ℕ → Expect
scan_all = foldl scan

-- `str::from_utf8(bytes).is_ok()`
unfoldable pub valid : List ℕ → Bool
unfolding scan
valid bytes = is_lead (scan_all lead bytes)

is_lead-eq : (e : Expect) → is_lead e ≡ true → e ≡ lead
is_lead-eq e h = ground arith

pub valid-append : (a b : List ℕ) → valid a ≡ true → valid (a ++ b) ≡ valid b
unfolding valid
valid-append a b h = rw (foldl-append, is_lead-eq (scan_all lead a) h)

pub valid-ascii : (c : ℕ) (b : List ℕ) → c < 0x80 → valid (c ∷ b) ≡ valid b
unfolding valid
valid-ascii c b h = elim (Bool-cases (leb c 0x7F)) [
  | inl small ↦ rw small
  | inr large ↦ absurd (ground arith)
]

-- `str::strip_prefix`
abbrev pub strip_prefix : List ℕ → List ℕ → Option (List ℕ)
strip_prefix [] bytes = some bytes
strip_prefix (p ∷ ps) [] = none
strip_prefix (p ∷ ps) (b ∷ bs) = if nat_eqb p b then strip_prefix ps bs else none

-- `line.trim_start_matches('\u{feff}')`, on the three bytes of that scalar
abbrev pub trim_bom : List ℕ → List ℕ
trim_bom (a ∷ b ∷ c ∷ rest) =
    let trimmed = trim_bom rest in
    if nat_eqb a 0xEF && nat_eqb b 0xBB && nat_eqb c 0xBF then trimmed else a ∷ b ∷ c ∷ rest
trim_bom bytes = bytes

unfoldable pub pop_reversed : List ℕ → List ℕ
pop_reversed [] = []
pop_reversed (b ∷ rest) =
    let shorter = pop_reversed rest in if continuation b then shorter else rest

-- `String::pop` drops the last scalar: its continuation bytes and the byte before them.
unfoldable pub pop : List ℕ → List ℕ
unfolding pop_reversed
pop bytes = reverse (pop_reversed (reverse bytes))

-- An ASCII character that was pushed last is what `pop` takes off.
pub pop-concat : (bytes : List ℕ) (b : ℕ) → b < 0x80 → pop (bytes ++ b ∷ []) ≡ bytes
unfolding pop
pop-concat bytes b h =
    rw (reverse-append bytes (b ∷ []))
      (let no_tail : continuation b ≡ false = ground arith in rw no_tail (reverse-reverse bytes))

abbrev pub push_char : ℕ → List (List ℕ) → List (List ℕ)
push_char c [] = (c ∷ []) ∷ []
push_char c (part ∷ parts) = (c ∷ part) ∷ parts

-- `text.split(separator)`, for a separator of one character.
unfoldable pub split : ℕ → List ℕ → List (List ℕ)
split separator [] = [] ∷ []
split separator (c ∷ cs) =
    let rest = split separator cs in if nat_eqb c separator then [] ∷ rest else push_char c rest

-- A line feed makes no text of what is none, and none of what is one.
pub valid-feed : (bytes : List ℕ) → valid (bytes ++ b'\n' ∷ []) ≡ valid bytes
unfolding valid scan
valid-feed bytes = rw (foldl-append) (stays (scan_all lead bytes))
  where
    stays : (e : Expect) → is_lead (scan e b'\n') ≡ is_lead e
    stays e = ground arith
