-- ===== src/Sse/Newlines.antt =====
-- The three line ends of an event stream, for crates/llmbase-model/src/sse.rs.
use llmbase.Prelude.{
  nat_eqb, if◌then◌else◌, nat_eqb_iff, Bool-cases, &&-eq-true, ℕ, ◌+◌, ◌≡◌, refl, sym, ap, ◌∙◌, ◌⊎◌,
  inl, inr, Bool, true, false, ◌&&◌, Option, none, List, [], ◌∷◌, ◌++◌, arith,
}
use llmbase.Errors.{ModelError}
use llmbase.Utf8.{trim_bom}
use llmbase.Sse.{
  Decoder, Outcome, done, failed, ◌>>=◌, close_line, end_line, take_byte, push_byte, events_of,
  push,
}

-- CR LF and a bare CR become LF; the flag is set behind a CR.
abbrev pub to_lf : Bool → List ℕ → List ℕ
to_lf after_cr [] = []
to_lf after_cr (b ∷ bs) =
    let skipped = to_lf false bs in
    let ended = to_lf true bs in
    if after_cr && nat_eqb b b'\n'
    then skipped
    else if nat_eqb b b'\r'
    then b'\n' ∷ ended
    else b ∷ skipped

-- The error or the events of a push, without the state.
abbrev pub events : Outcome (List (List ℕ)) → ModelError ⊎ List (List ℕ)
events (done es d) = inr es
events (failed e) = inl e

abbrev pub prepend : List (List ℕ) → ModelError ⊎ List (List ℕ) → ModelError ⊎ List (List ℕ)
prepend es (inl e) = inl e
prepend es (inr fs) = inr (es ++ fs)

pub events-bind :
    (es : List (List ℕ)) (r : Outcome (List (List ℕ)))
    → events (r >>= λ fs d. done (es ++ fs) d) ≡ prepend es (events r)
events-bind es (done fs d) = refl
events-bind es (failed e) = refl

abbrev with_skip {ℓ} : {A : Type ℓ} → Bool → Outcome A → Outcome A
with_skip s (done a d) = done a (record d { skip_lf = s })
with_skip s (failed e) = failed e

close_line-with_skip :
    (l : List ℕ) (d : Decoder) (s : Bool)
    → close_line l (record d { skip_lf = s }) ≡ with_skip s (close_line l d)
unfolding close_line
close_line-with_skip [] d s = ground arith
close_line-with_skip (b ∷ l) d s = refl

end_line-with_skip :
    (d : Decoder) (s : Bool) → end_line (record d { skip_lf = s }) ≡ with_skip s (end_line d)
unfolding end_line
end_line-with_skip d s = ground (
  arith,
  close_line-with_skip (trim_bom d.line) (record d { first_line = false }) s,
  close_line-with_skip d.line (record d { first_line = false }) s,
)

-- A byte that ends no line with CR leaves the flag off.
take_byte-with_skip :
    (d : Decoder) (b : ℕ)
    → nat_eqb b b'\r' ≡ false
    → take_byte (record d { skip_lf = false }) b
      ≡ with_skip false (take_byte (record d { skip_lf = false }) b)
unfolding take_byte
take_byte-with_skip d b h =
    ground (arith, end_line-with_skip (record d { frame_bytes = d.frame_bytes + 1 }) false)

take_byte-cr :
    (d : Decoder)
    → take_byte (record d { skip_lf = false }) b'\r'
      ≡ with_skip true (take_byte (record d { skip_lf = false }) b'\n')
unfolding take_byte
take_byte-cr d = ground (
  arith,
  end_line-with_skip (record d { frame_bytes = d.frame_bytes + 1 }) false,
  end_line-with_skip (record d { frame_bytes = d.frame_bytes + 1 }) true,
)

abbrev rest : List ℕ → Option (List ℕ) → Decoder → Outcome (List (List ℕ))
rest bs e d = push d bs >>= λ es d'. done (events_of e ++ es) d'

events-rest :
    (bs : List ℕ) (e : Option (List ℕ)) (d : Decoder)
    → events (rest bs e d) ≡ prepend (events_of e) (events (push d bs))
events-rest bs e d = events-bind (events_of e) (push d bs)

-- What is pushed behind a byte may be replaced where that gives the same events.
events-behind :
    (bs cs : List ℕ) (s : Bool) (o : Outcome (Option (List ℕ)))
    → ((d : Decoder)
        → events (push (record d { skip_lf = s }) bs)
          ≡ events (push (record d { skip_lf = false }) cs))
    → events (with_skip s o >>= rest bs) ≡ events (with_skip false o >>= rest cs)
events-behind bs cs s (done e d) same =
    events-rest bs e (record d { skip_lf = s })
    ∙ ap (prepend (events_of e)) (same d)
    ∙ sym (events-rest cs e (record d { skip_lf = false }))
events-behind bs cs s (failed e) same = refl

prepend-nil : (r : ModelError ⊎ List (List ℕ)) → prepend [] r ≡ r
prepend-nil (inl e) = refl
prepend-nil (inr es) = refl

-- LF behind CR is skipped.
events-skipped :
    (d : Decoder) (bs : List ℕ)
    → d.skip_lf ≡ true
    → events (push d (b'\n' ∷ bs)) ≡ events (push (record d { skip_lf = false }) bs)
unfolding push push_byte
events-skipped d bs h =
    rw (h, push, push_byte) (events-rest bs none (record d { skip_lf = false }) ∙ prepend-nil _)

push-taken :
    (d : Decoder) (b : ℕ) (bs : List ℕ)
    → (d.skip_lf && nat_eqb b b'\n') ≡ false
    → push d (b ∷ bs) ≡ (take_byte (record d { skip_lf = false }) b >>= rest bs)
unfolding push push_byte
push-taken d b bs h = rw (h, push, push_byte)

-- The same bytes with every line end made LF.
abbrev SameEvents : List ℕ → Type 0
SameEvents bs =
    (d : Decoder)
    → events (push d bs) ≡ events (push (record d { skip_lf = false }) (to_lf d.skip_lf bs))

events-cr :
    (bs : List ℕ) (d : Decoder)
    → SameEvents bs
    → events (push d (b'\r' ∷ bs))
      ≡ events (push (record d { skip_lf = false }) (b'\n' ∷ to_lf true bs))
events-cr bs d same =
    ap events (push-taken d b'\r' bs (ground arith) ∙ ap (λ o. o >>= rest bs) (take_byte-cr d))
    ∙ events-behind bs (to_lf true bs) true (take_byte (record d { skip_lf = false }) b'\n')
        (λ d'. same (record d' { skip_lf = true }))
    ∙ ap events (
        ap (λ o. o >>= rest (to_lf true bs)) (sym (take_byte-with_skip d b'\n' refl))
        ∙ sym (push-taken (record d { skip_lf = false }) b'\n' (to_lf true bs) refl))

events-other :
    (b : ℕ) (bs : List ℕ) (d : Decoder)
    → (d.skip_lf && nat_eqb b b'\n') ≡ false
    → nat_eqb b b'\r' ≡ false
    → SameEvents bs
    → events (push d (b ∷ bs)) ≡ events (push (record d { skip_lf = false }) (b ∷ to_lf false bs))
events-other b bs d kept other same =
    ap events (push-taken d b bs kept ∙ ap (λ o. o >>= rest bs) (take_byte-with_skip d b other))
    ∙ events-behind bs (to_lf false bs) false (take_byte (record d { skip_lf = false }) b)
        (λ d'. same (record d' { skip_lf = false }))
    ∙ ap events (
        ap (λ o. o >>= rest (to_lf false bs)) (sym (take_byte-with_skip d b other))
        ∙ sym (push-taken (record d { skip_lf = false }) b (to_lf false bs) refl))

pub push-nil : (d : Decoder) → push d [] ≡ done [] d
unfolding push
push-nil d = refl

push_cases :
    (b : ℕ) (bs : List ℕ) (d : Decoder)
    → SameEvents bs
    → (to_lf d.skip_lf (b ∷ bs) ≡ (
        if d.skip_lf && nat_eqb b b'\n'
        then to_lf false bs
        else if nat_eqb b b'\r'
        then b'\n' ∷ to_lf true bs
        else b ∷ to_lf false bs))
    → events (push d (b ∷ bs))
      ≡ events (push (record d { skip_lf = false }) (to_lf d.skip_lf (b ∷ bs)))
push_cases b bs d same shape = elim (Bool-cases (d.skip_lf && nat_eqb b b'\n')) [
  | inl skipped ↦
      let (flag, lf) = &&-eq-true d.skip_lf (nat_eqb b b'\n') skipped in
      ap (λ c. events (push d (c ∷ bs))) ((nat_eqb_iff b b'\n').0 lf)
      ∙ events-skipped d bs flag
      ∙ same (record d { skip_lf = false })
      ∙ ap (λ l. events (push (record d { skip_lf = false }) l)) (sym (shape ∙ rw skipped))
  | inr kept ↦ elim (Bool-cases (nat_eqb b b'\r')) [
    | inl cr ↦
        ap (λ c. events (push d (c ∷ bs))) ((nat_eqb_iff b b'\r').0 cr)
        ∙ events-cr bs d same
        ∙ ap (λ l. events (push (record d { skip_lf = false }) l)) (sym (shape ∙ rw (kept, cr)))
    | inr other ↦
        events-other b bs d kept other same
        ∙ ap (λ l. events (push (record d { skip_lf = false }) l)) (sym (shape ∙ rw (kept, other)))
  ]
]

-- CR LF, CR and LF end a line alike: with every CR LF and every other CR replaced by LF, the bytes
-- give the same events or the same error, also where a CR was the last byte of the push before.
pub push-to_lf :
    (bs : List ℕ) (d : Decoder)
    → events (push d bs) ≡ events (push (record d { skip_lf = false }) (to_lf d.skip_lf bs))
push-to_lf [] d =
    ap events (push-nil d ∙ refl) ∙ ap events (sym (push-nil (record d { skip_lf = false })))
push-to_lf (b ∷ bs) d = push_cases b bs d (push-to_lf bs) refl
