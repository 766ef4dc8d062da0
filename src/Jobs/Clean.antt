-- ===== src/Jobs/Clean.antt =====
-- The search for credentials of crates/llmbase-core/src/jobs.rs decides whether a value is clean.
use llmbase.Prelude.{
  nat_eqb, within, &&-eq-true, all, All, ◌==◌, nat_PartialEq, bytes_PartialEq, codes, ℕ, ◌+◌,
  String, ◌≡◌, refl, sym, ◌∙◌, ◌↔◌, Bool, true, false, not, ◌&&◌, ◌||◌, List, [], ◌∷◌, ◌++◌, map,
  arith,
}
use llmbase.Json.{
  Value, null, bool, number, string, array, object, Items, nil, item, Fields, end, field,
}
use llmbase.Errors.{Error, Result, ok, err, ◌>>◌, reject_if}
use llmbase.Jobs.Credentials.{
  ascii_lower, credential_key, credentials_stored, reject_credentials, reject_items, reject_fields,
}

both_ok : (m k : Result (Unit {0})) → ((m >> k) ≡ ok tt) ↔ ((m ≡ ok tt) × (k ≡ ok tt))
both_ok (ok u) k = ((λ h. (refl, h)), λ h. h.1)
both_ok (err e) k = ((λ h. cc h), λ h. cc h.0)

passes : (b : Bool) (e : Error) → (reject_if b e ≡ ok tt) ↔ (b ≡ false)
passes b e = ground arith

-- The keys of all objects inside a value, at any depth.
unfoldable mutual
  pub keys_of : Value → List String
  keys_of null = []
  keys_of (bool b) = []
  keys_of (number n) = []
  keys_of (string s) = []
  keys_of (array values) = keys_of_items values
  keys_of (object fields) = keys_of_fields fields

  pub keys_of_items : Items → List String
  keys_of_items nil = []
  keys_of_items (item v rest) = keys_of v ++ keys_of_items rest

  pub keys_of_fields : Fields → List String
  keys_of_fields end = []
  keys_of_fields (field key v rest) = (key ∷ []) ++ (keys_of v ++ keys_of_fields rest)

-- A letter of a key against one of a name: the same, or the name's small letter as a capital.
abbrev pub same_letter : ℕ → ℕ → Bool
same_letter a b = nat_eqb a b || (within b'a' b'z' b && nat_eqb (a + 32) b)

abbrev pub same_letters : List ℕ → List ℕ → Bool
same_letters [] [] = true
same_letters [] (b ∷ bs) = false
same_letters (a ∷ as_key) [] = false
same_letters (a ∷ as_key) (b ∷ bs) = same_letter a b && same_letters as_key bs

-- The key is one of the five names, in whatever case its letters are.
unfoldable pub spells_credential : String → Bool
spells_credential key =
    same_letters (codes key) (codes "api_key")
    || (same_letters (codes key) (codes "authorization")
        || (same_letters (codes key) (codes "secret")
            || (same_letters (codes key) (codes "password")
                || (same_letters (codes key) (codes "access_token") || false))))

abbrev pub IsOpen : String → Type 0
IsOpen key = spells_credential key ≡ false

letter_lem : (a b : ℕ) → within b'A' b'Z' b ≡ false → nat_eqb (ascii_lower a) b ≡ same_letter a b
letter_lem a b h = ground arith

letters_lem :
    (key name : List ℕ)
    → all (λ b. not (within b'A' b'Z' b)) name ≡ true
    → (map ascii_lower key == name) ≡ same_letters key name
letters_lem [] [] h = refl
letters_lem [] (b ∷ bs) h = refl
letters_lem (a ∷ key) [] h = refl
letters_lem (a ∷ key) (b ∷ bs) h =
    let (one, others) =
      &&-eq-true (not (within b'A' b'Z' b)) (all (λ c. not (within b'A' b'Z' c)) bs) h in
    rw (letter_lem a b (negated (within b'A' b'Z' b) one), letters_lem key bs others) refl
  where
    negated : (c : Bool) → not c ≡ true → c ≡ false
    negated c k = ground arith

credential_key-spells : (key : String) → credential_key key ≡ spells_credential key
unfolding credential_key spells_credential
credential_key-spells key =
    rw
      (
        letters_lem (codes key) (codes "api_key") refl,
        letters_lem (codes key) (codes "authorization") refl,
        letters_lem (codes key) (codes "secret") refl,
        letters_lem (codes key) (codes "password") refl,
        letters_lem (codes key) (codes "access_token") refl,
      )
      refl

All-both : (P : String → Type 0) (xs ys : List String) → All P (xs ++ ys) ↔ (All P xs × All P ys)
All-both P [] ys = ((λ h. (tt, h)), λ h. h.1)
All-both P (x ∷ xs) ys =
    let rest = All-both P xs ys in
    ((λ h. ((h.0, (rest.0 h.1).0), (rest.0 h.1).1)), λ h. (h.0.0, rest.1 (h.0.1, h.1)))

mutual
  unfolding reject_credentials keys_of

  value_decides : (v : Value) → (reject_credentials v ≡ ok tt) ↔ All IsOpen (keys_of v)
  value_decides null = ((λ _. tt), λ _. refl)
  value_decides (bool b) = ((λ _. tt), λ _. refl)
  value_decides (number n) = ((λ _. tt), λ _. refl)
  value_decides (string s) = ((λ _. tt), λ _. refl)
  value_decides (array values) = items_decide values
  value_decides (object fields) = fields_decide fields

  items_decide : (vs : Items) → (reject_items vs ≡ ok tt) ↔ All IsOpen (keys_of_items vs)
  items_decide nil = ((λ _. tt), λ _. refl)
  items_decide (item v rest) =
      let two = both_ok (reject_credentials v) (reject_items rest) in
      let one = value_decides v in
      let others = items_decide rest in
      let keys = All-both IsOpen (keys_of v) (keys_of_items rest) in
      (
        (λ h. keys.1 (one.0 (two.0 h).0, others.0 (two.0 h).1)),
        λ h. two.1 (one.1 (keys.0 h).0, others.1 (keys.0 h).1),
      )

  fields_decide : (m : Fields) → (reject_fields m ≡ ok tt) ↔ All IsOpen (keys_of_fields m)
  fields_decide end = ((λ _. tt), λ _. refl)
  fields_decide (field key v rest) =
      let key_ok = passes (credential_key key) credentials_stored in
      let three =
        both_ok (reject_if (credential_key key) credentials_stored)
          (reject_credentials v >> reject_fields rest) in
      let two = both_ok (reject_credentials v) (reject_fields rest) in
      let one = value_decides v in
      let others = fields_decide rest in
      let keys = All-both IsOpen (keys_of v) (keys_of_fields rest) in
      (
        (λ h.
            let (k, below) = three.0 h in
            (
              sym (credential_key-spells key) ∙ key_ok.0 k,
              keys.1 (one.0 (two.0 below).0, others.0 (two.0 below).1),
            )),
        λ h. three.1 (
          key_ok.1 (credential_key-spells key ∙ h.0),
          two.1 (one.1 (keys.0 h.1).0, others.1 (keys.0 h.1).1),
        ),
      )

-- A job's arguments are accepted if and only if no key of an object inside them, at any depth, spells
-- "api_key", "authorization", "secret", "password" or "access_token", with each letter small or capital.
pub reject_credentials-Clean :
    (v : Value)
    → (reject_credentials v ≡ ok tt) ↔ All (λ key. spells_credential key ≡ false) (keys_of v)
reject_credentials-Clean v = value_decides v
