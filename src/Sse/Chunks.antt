-- ===== src/Sse/Chunks.antt =====
-- The events of `push` of crates/llmbase-model/src/sse.rs behind those there were.
use llmbase.Prelude.{ℕ, ◌≡◌, refl, List, [], ◌++◌}
use llmbase.Sse.{Decoder, Outcome, done, failed, ◌>>=◌}

abbrev pub join_events : List (List ℕ) → List (List ℕ) → Decoder → Outcome (List (List ℕ))
join_events es fs d = done (es ++ fs) d

pub bind-nil : (r : Outcome (List (List ℕ))) → (r >>= join_events []) ≡ r
bind-nil (done es d) = refl
bind-nil (failed e) = refl
