-- ===== src/Errors.antt =====
-- `Error` and `Result` of crates/llmbase-core/src/lib.rs, and `ModelError` of
-- crates/llmbase-model/src/types.rs. What a library puts into `Io`, `Sql`, `Json` and `Yaml` is
-- left out: no code reads it.
use llmbase.Prelude.{
  within, nat_PartialEq, one_of, ℕ, String, ◌≡◌, refl, Bool, true, false, ◌||◌, [], ◌∷◌,
}

pub data ModelError : Type 0 where
  invalid_config : String → ModelError
  invalid_request : String → ModelError
  cancelled : ModelError
  timeout : ModelError
  transport : ModelError
  http : ℕ → ℕ → ModelError
  protocol : String → ModelError
  response_too_large : ModelError
  stream_interrupted : ModelError
  streaming_unsupported : ModelError

unfoldable pub retryable : ModelError → Bool
retryable transport = true
retryable (http status attempts) = one_of status (408 ∷ 409 ∷ 429 ∷ []) || within 500 599 status
retryable _ = false

pub data Error : Type 0 where
  invalid : String → Error
  not_found : String → Error
  conflict : String → Error
  scope : Error
  busy : Error
  capability : String → Error
  visibility_limit : String → ℕ → ℕ → Error
  visibility_config : String → Error
  io : Error
  sql : Error
  json : Error
  yaml : Error
  model : ModelError → Error

pub data Result {ℓ} (A : Type ℓ) : Type ℓ where
  ok : A → Result A
  err : Error → Result A

-- `?`
infixl 5 ◌>>=◌
abbrev pub ◌>>=◌ {ℓ} : {A B : Type ℓ} → Result A → (A → Result B) → Result B
err failure >>= next = err failure
ok value >>= next = next value

infixl 5 ◌>>◌
abbrev pub ◌>>◌ {ℓ} : {B : Type ℓ} → Result (Unit {ℓ}) → Result B → Result B
first >> second = first >>= λ _. second

-- `if bad { return Err(e) }`
abbrev pub reject_if : Bool → Error → Result (Unit {0})
reject_if true e = err e
reject_if false e = ok tt

abbrev pub is_ok {ℓ} : {A : Type ℓ} → Result A → Bool
is_ok (ok a) = true
is_ok (err e) = false

-- What comes after a step that may fail.
pub bind_ok :
    {A B : Type 0} (m : Result A) (f : A → Result B) (b : B)
    → (m >>= f) ≡ ok b
    → (a : A) × (m ≡ ok a) × (f a ≡ ok b)
bind_ok (ok a) f b h = (a, refl, h)
bind_ok (err e) f b h = cc h

-- A check that is passed, and what comes after it.
pub passed :
    {A : Type 0} (b : Bool) (e : Error) (next : Result A) (a : A)
    → (reject_if b e >>= λ _. next) ≡ ok a
    → (b ≡ false) × (next ≡ ok a)
passed true e next a h = cc h
passed false e next a h = (refl, h)
