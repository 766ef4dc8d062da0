-- ===== src/Visibility.antt =====
-- crates/llmbase-core/src/visibility.rs: one fail-closed policy for metadata.
mod Policy
mod Tests
use llmbase.Prelude.{
  if◌then◌else◌, ◌==◌, string_PartialEq, String, Bool, true, false, not, Option, none, some,
}
use llmbase.Json.{Value, null, bool, string, get}

unfoldable pub granted : Option Value → Bool
granted none = true
granted (some null) = true
granted (some (bool b)) = not b
granted (some _) = false

-- Only an absent, null or false flag permits public access.
unfoldable pub private_flag : Value → Bool
unfolding granted
private_flag metadata = not (granted (get metadata "private"))

-- The three texts that the source returns.
pub data Level : Type 0 where
  public internal private : Level

unfoldable pub visibility_word : Option Value → Level
visibility_word none = public
visibility_word (some (string v)) =
    if v == "public" then public else if v == "internal" then internal else private
visibility_word (some _) = private

unfoldable pub visibility : Value → Level
unfolding private_flag visibility_word
visibility metadata =
    if private_flag metadata then private else visibility_word (get metadata "visibility")

abbrev is_public_level : Level → Bool
is_public_level public = true
is_public_level _ = false

unfoldable pub is_public : Value → Bool
unfolding visibility
is_public metadata = is_public_level (visibility metadata)
