-- ===== src/Sse.antt =====
-- crates/llmbase-model/src/sse.rs: incremental framing of a `text/event-stream` body. Bytes are
-- numbers below 256, texts are their UTF-8 bytes, and `usize` has 64 bits.
mod Chunks
mod Bounds
mod Newlines
mod RoundTrip
mod Tests
use llmbase.Prelude.{
  ltb, leb, if◌then◌else◌, unwrap_or, ◌==◌, nat_PartialEq, bytes_PartialEq, ℕ, ◌+◌, ◌-◌, ◌^◌, Bool,
  true, false, ◌&&◌, ◌||◌, Option, none, some, List, [], ◌∷◌, ◌++◌,
}
use llmbase.Utf8.{valid, strip_prefix, trim_bom, pop}
use llmbase.Errors.{ModelError, protocol, response_too_large}

pub record Decoder : Type 0 where
  pub line : List ℕ
  pub text : List ℕ
  pub frame_bytes : ℕ
  pub limit : ℕ
  pub skip_lf : Bool
  pub first_line : Bool

-- The caller, `consume_stream`, ends the stream at an error and drops the decoder.
pub data Outcome {ℓ} (A : Type ℓ) : Type ℓ where
  done : A → Decoder → Outcome A
  failed : ModelError → Outcome A

infixl 5 ◌>>=◌
abbrev pub ◌>>=◌ {ℓ κ} :
    {A : Type ℓ} {B : Type κ} → Outcome A → (A → Decoder → Outcome B) → Outcome B
done a d >>= f = f a d
failed e >>= f = failed e

unfoldable pub new : ℕ → Decoder
new limit = record {
  line = [];
  text = [];
  frame_bytes = 0;
  limit = limit;
  skip_lf = false;
  first_line = true;
}

abbrev pub usize_max : ℕ
usize_max = 2 ^ 64 - 1

abbrev pub data_colon : List ℕ
data_colon = b'd' ∷ b'a' ∷ b't' ∷ b'a' ∷ b':' ∷ []

abbrev pub data_name : List ℕ
data_name = b'd' ∷ b'a' ∷ b't' ∷ b'a' ∷ []

-- The value behind "data:", less one space.
abbrev pub field_value : List ℕ → List ℕ
field_value value = unwrap_or (strip_prefix (b' ' ∷ []) value) value

-- What a line that is not empty does to the collected text.
unfoldable pub add_field : List ℕ → List ℕ → List ℕ
add_field text line = elim (strip_prefix data_colon line) [
  | some value ↦ text ++ (field_value value ++ b'\n' ∷ [])
  | none ↦ if line == data_name then text ++ b'\n' ∷ [] else text
]

-- The end of a line that decodes: the event that a blank line closes, and the next state.
unfoldable pub close_line : List ℕ → Decoder → Outcome (Option (List ℕ))
unfolding pop
close_line [] d = elim d.text [
  | [] ↦ done none (record d { line = []; frame_bytes = 0 })
  | b ∷ bs ↦ done (some (pop d.text)) (record d { line = []; text = []; frame_bytes = 0 })
]
close_line line d = done none (record d { line = []; text = add_field d.text line })

unfoldable pub end_line : Decoder → Outcome (Option (List ℕ))
end_line d =
    if valid d.line
    then close_line (if d.first_line then trim_bom d.line else d.line)
        (record d { first_line = false })
    else failed (protocol "SSE contains invalid UTF-8")

abbrev pub newline : ℕ → Bool
newline b = b == b'\r' || b == b'\n'

-- The loop body of `push` behind the test of `skip_lf`.
unfoldable pub take_byte : Decoder → ℕ → Outcome (Option (List ℕ))
take_byte d b =
    if leb usize_max d.frame_bytes
    then failed response_too_large
    else if ltb d.limit (d.frame_bytes + 1)
    then failed response_too_large
    else if newline b
    then end_line (record d { frame_bytes = d.frame_bytes + 1; skip_lf = b == b'\r' })
    else done none (record d { frame_bytes = d.frame_bytes + 1; line = d.line ++ b ∷ [] })

unfoldable pub push_byte : Decoder → ℕ → Outcome (Option (List ℕ))
unfolding take_byte
push_byte d b =
    if d.skip_lf && b == b'\n'
    then done none (record d { skip_lf = false })
    else take_byte (record d { skip_lf = false }) b

abbrev pub events_of : Option (List ℕ) → List (List ℕ)
events_of none = []
events_of (some e) = e ∷ []

-- `Decoder::push`: the events that the bytes complete, in order, or the first error.
unfoldable pub push : Decoder → List ℕ → Outcome (List (List ℕ))
unfolding push_byte
push d [] = done [] d
push d (b ∷ bs) = push_byte d b >>= λ e d'. push d' bs >>= λ es d''. done (events_of e ++ es) d''
