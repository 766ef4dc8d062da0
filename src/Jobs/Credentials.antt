-- ===== src/Jobs/Credentials.antt =====
-- `reject_credentials` of crates/llmbase-core/src/jobs.rs: no key of a job's arguments, at any
-- depth, names a credential.
use llmbase.Prelude.{
  if◌then◌else◌, within, nat_PartialEq, bytes_PartialEq, codes, one_of, ℕ, ◌+◌, String, Bool, [],
  ◌∷◌, map,
}
use llmbase.Json.{
  Value, null, bool, number, string, array, object, Items, nil, item, Fields, end, field,
}
use llmbase.Errors.{Error, invalid, Result, ok, ◌>>◌, reject_if}

-- `to_ascii_lowercase` on code points
abbrev pub ascii_lower : ℕ → ℕ
ascii_lower c = if within b'A' b'Z' c then c + 32 else c

unfoldable pub credential_key : String → Bool
credential_key key = one_of (map ascii_lower (codes key)) (
    codes "api_key"
    ∷ codes "authorization"
    ∷ codes "secret"
    ∷ codes "password"
    ∷ codes "access_token"
    ∷ [])

abbrev pub credentials_stored : Error
credentials_stored = invalid "credentials must be supplied at execution time, never stored in jobs"

unfoldable mutual
  pub reject_credentials : Value → Result (Unit {0})
  reject_credentials null = ok tt
  reject_credentials (bool b) = ok tt
  reject_credentials (number n) = ok tt
  reject_credentials (string s) = ok tt
  reject_credentials (array values) = reject_items values
  reject_credentials (object map) = reject_fields map

  pub reject_items : Items → Result (Unit {0})
  reject_items nil = ok tt
  reject_items (item v rest) = reject_credentials v >> reject_items rest

  pub reject_fields : Fields → Result (Unit {0})
  reject_fields end = ok tt
  reject_fields (field key v rest) =
      reject_if (credential_key key) credentials_stored
      >> (reject_credentials v >> reject_fields rest)
