-- ===== src/Paths/Tests.antt =====
-- The theorem on crates/llmbase-core/src/config.rs at a concrete path.
use llmbase.Prelude.{is_empty, All, ℕ, ◌≡◌, refl, Bool, false, List, [], ◌∷◌, ◌++◌}
use llmbase.Errors.{ok}
use llmbase.Paths.{scoped_path}
use llmbase.Paths.Scope.{IsName, below, NoLinks, scoped_path-below}

abbrev no_links : List ℕ → Bool
no_links _ = false

abbrev data_root : List ℕ
data_root = b'/' ∷ b'd' ∷ []

abbrev note_path : List ℕ
note_path = data_root ++ b'/' ∷ b'a' ∷ b'/' ∷ b'b' ∷ []

note_found : scoped_path no_links data_root "a//b" ≡ ok note_path
unfolding scoped_path
note_found = refl

scoped_path-below_example :
    (parts : List (List ℕ)) × (note_path ≡ below data_root parts)
    × All IsName parts
    × NoLinks no_links data_root parts
    × (is_empty parts ≡ false)
scoped_path-below_example = scoped_path-below no_links data_root note_path "a//b" note_found
