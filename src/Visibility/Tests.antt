-- ===== src/Visibility/Tests.antt =====
-- The theorem on crates/llmbase-core/src/visibility.rs at concrete metadata.
use llmbase.Prelude.{◌≡◌, ◌↔◌, true}
use llmbase.Json.{Value, string, object, end, field, get}
use llmbase.Visibility.{is_public}
use llmbase.Visibility.Policy.{FlagIsClear, WordIsPublic, is_public_iff}

abbrev flagged : Value
flagged = object (field "visibility" (string "public") (field "private" (string "no") end))

is_public_iff_example :
    (is_public flagged ≡ true)
    ↔ (FlagIsClear (get flagged "private") × WordIsPublic (get flagged "visibility"))
is_public_iff_example = is_public_iff flagged
