-- ===== src/Sse/Bounds.antt =====
-- What the decoder of crates/llmbase-model/src/sse.rs holds at a time.
use mathlib.Core.Path.{subst}
use llmbase.Prelude.{
  nat_eqb, Bool-cases, Option-cases, length, length-append, ◌==◌, bytes_eqb_iff, bytes_PartialEq, ℕ,
  ◌+◌, ◌≤◌, ◌≡◌, refl, ap, inl, inr, false, Option, some, List, [], ◌∷◌, ◌++◌, arith,
}
use llmbase.Utf8.{valid, strip_prefix, trim_bom}
use llmbase.Sse.{
  Decoder, Outcome, done, failed, ◌>>=◌, data_colon, data_name, field_value, add_field, close_line,
  end_line, push_byte, events_of, push,
}

length-strip_prefix :
    (p l : List ℕ) {v : List ℕ} → strip_prefix p l ≡ some v → length l ≡ length p + length v
length-strip_prefix [] l h = ground arith
length-strip_prefix (a ∷ p) [] h = cc
length-strip_prefix (a ∷ p) (b ∷ l) {v} h = ground (arith, length-strip_prefix p l {v = v})

length-trim_bom : (l : List ℕ) → length (trim_bom l) ≤ length l
length-trim_bom (a ∷ b ∷ c ∷ l) = ground (arith, length-trim_bom l)
length-trim_bom [] = omega arith
length-trim_bom (a ∷ []) = omega arith
length-trim_bom (a ∷ b ∷ []) = omega arith

length-field_value : (v : List ℕ) → length (field_value v) ≤ length v
length-field_value v = elim (Option-cases (strip_prefix (b' ' ∷ []) v)) [
  | inl n ↦ rw n (omega arith)
  | inr (w, e) ↦ rw e (omega (arith, length-strip_prefix (b' ' ∷ []) v e))
]

length-add_field_data :
    (text l v : List ℕ)
    → strip_prefix data_colon l ≡ some v
    → length (add_field text l) ≤ length text + length l
unfolding add_field
length-add_field_data text l v e =
    rw (e, add_field)
      (omega (
        arith,
        length-append text (field_value v ++ b'\n' ∷ []),
        length-append (field_value v) (b'\n' ∷ []),
        length-field_value v,
        length-strip_prefix data_colon l e,
      ))

length-add_field : (text l : List ℕ) → length (add_field text l) ≤ length text + length l
unfolding add_field
length-add_field text l = elim (Option-cases (strip_prefix data_colon l)) [
  | inr (v, e) ↦ length-add_field_data text l v e
  | inl n ↦
      rw (n, add_field)
        (elim (Bool-cases (l == data_name)) [
          | inr no_name ↦ rw no_name (omega arith)
          | inl name ↦ rw name (
              omega (
                arith,
                length-append text (b'\n' ∷ []),
                ap length ((bytes_eqb_iff l data_name).0 name),
              ))
        ])
]

-- The line and the text read so far fit into the bytes counted for the event, and the count into
-- the limit.
pub record IsBounded (d : Decoder) : Type 0 where
  pub held : length d.line + length d.text ≤ d.frame_bytes
  pub counted : d.frame_bytes ≤ d.limit

abbrev pub Keeps {ℓ} : {A : Type ℓ} → ℕ → Outcome A → Type 0
Keeps limit (done a d) = IsBounded d × (d.limit ≡ limit)
Keeps limit (failed e) = Unit

-- The line that closes is shorter than the count, which has the line end too.
close_line-Keeps :
    (l : List ℕ) (d : Decoder)
    → length l + length d.text ≤ d.frame_bytes
    → d.frame_bytes ≤ d.limit
    → Keeps d.limit (close_line l d)
unfolding close_line
close_line-Keeps [] d h k = ground arith
close_line-Keeps (b ∷ l) d h k =
    (record { held = omega (arith, length-add_field d.text (b ∷ l)); counted = k }, refl)

end_line-Keeps : (d : Decoder) → IsBounded d → Keeps d.limit (end_line d)
unfolding end_line
end_line-Keeps d h = elim (Bool-cases (valid d.line)) [
  | inr refused ↦ rw refused tt
  | inl good ↦ rw good (elim (Bool-cases d.first_line) [
    | inr later ↦
        rw later (close_line-Keeps d.line (record d { first_line = false }) h.held h.counted)
    | inl first ↦ rw first (
        close_line-Keeps (trim_bom d.line) (record d { first_line = false })
          (omega (arith, length-trim_bom d.line)) h.counted)
  ])
]

push_byte-Keeps : (d : Decoder) (b : ℕ) → IsBounded d → Keeps d.limit (push_byte d b)
unfolding push_byte
push_byte-Keeps d b h = ground (
  arith,
  length-append d.line (b ∷ []),
  λ (k : d.frame_bytes + 1 ≤ d.limit).
      end_line-Keeps (record d { frame_bytes = d.frame_bytes + 1; skip_lf = nat_eqb b b'\r' })
        (record { held = omega arith; counted = k }),
)

push_behind-Keeps :
    (bs : List ℕ) (limit : ℕ) (o : Outcome (Option (List ℕ)))
    → Keeps limit o
    → ((d : Decoder) → IsBounded d → Keeps d.limit (push d bs))
    → Keeps limit (o >>= λ e d. push d bs >>= λ es d'. done (events_of e ++ es) d')
push_behind-Keeps bs limit (failed e) k rest = tt
push_behind-Keeps bs limit (done e d) (h, same) rest =
    last (push d bs) (subst (λ n. Keeps n (push d bs)) same (rest d h))
  where
    last :
        (r : Outcome (List (List ℕ)))
        → Keeps limit r
        → Keeps limit (r >>= λ es d'. done (events_of e ++ es) d')
    last (done es d') k = k
    last (failed e) k = tt

-- From a decoder that holds no more than it has counted, and has counted no more than its limit: whatever
-- bytes arrive, a push that returns events leaves a decoder whose unfinished line and
-- collected text are together no longer than the limit, which it does not change.
pub push-Keeps : (bs : List ℕ) (d : Decoder) → IsBounded d → Keeps d.limit (push d bs)
unfolding push
push-Keeps [] d h = (h, refl)
push-Keeps (b ∷ bs) d h =
    push_behind-Keeps bs d.limit (push_byte d b) (push_byte-Keeps d b h) (push-Keeps bs)
