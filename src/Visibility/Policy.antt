-- ===== src/Visibility/Policy.antt =====
-- What the visibility policy of crates/llmbase-core/src/visibility.rs lets through.
use llmbase.Prelude.{str_eq_iff, ◌≡◌, refl, ◌↔◌, ◌⊎◌, inl, true, false, Option, none, some, arith}
use llmbase.Json.{Value, null, bool, string, get}
use llmbase.Visibility.{granted, public, visibility_word, is_public}

abbrev pub FlagIsClear : Option Value → Type 0
FlagIsClear o = (o ≡ none) ⊎ (o ≡ some null) ⊎ (o ≡ some (bool false))

abbrev pub WordIsPublic : Option Value → Type 0
WordIsPublic o = (o ≡ none) ⊎ (o ≡ some (string "public"))

granted_iff : (o : Option Value) → (granted o ≡ true) ↔ FlagIsClear o
unfolding granted
granted_iff none = (λ _. inl refl, λ _. refl)
granted_iff (some null) = ground arith
granted_iff (some v) = ground arith

-- The text that the policy settles on is "public" only for these values.
visibility_word_iff : (o : Option Value) → (visibility_word o ≡ public) ↔ WordIsPublic o
unfolding visibility_word
visibility_word_iff none = (λ _. inl refl, λ _. refl)
visibility_word_iff (some (string v)) =
    ground (arith, str_eq_iff v "public", str_eq_iff v "internal")
visibility_word_iff (some v) = ground arith

-- Metadata is public exactly when its `private` flag is absent, null or false and its `visibility`
-- is absent or the text "public"; every other value, malformed ones included, is not public.
pub is_public_iff :
    (m : Value)
    → (is_public m ≡ true) ↔ (FlagIsClear (get m "private") × WordIsPublic (get m "visibility"))
unfolding is_public
is_public_iff m =
    ground (arith, granted_iff (get m "private"), visibility_word_iff (get m "visibility"))
