-- ===== src/Sse/Tests.antt =====
-- The theorems on crates/llmbase-model/src/sse.rs at concrete bytes.
use llmbase.Prelude.{All, ℕ, ◌≡◌, refl, inr, false, List, [], ◌∷◌, ◌++◌, map, arith}
use llmbase.Sse.{new, data_colon, push}
use llmbase.Utf8.{valid}
use llmbase.Sse.Bounds.{IsBounded, Keeps, push-Keeps}
use llmbase.Sse.Newlines.{to_lf, events, push-to_lf}
use llmbase.Sse.RoundTrip.{print_events, joined, IsSendable, new-print_events}

abbrev hello : List ℕ
hello = data_colon ++ b' ' ∷ b'h' ∷ b'i' ∷ b'\r' ∷ b'\n' ∷ b'\r' ∷ []

new-IsBounded : IsBounded (new 64)
unfolding new
new-IsBounded = omega arith

push-Keeps_example : Keeps (new 64).limit (push (new 64) hello)
push-Keeps_example = push-Keeps hello (new 64) new-IsBounded

push-to_lf_example :
    events (push (new 64) hello)
    ≡ events (push (record (new 64) { skip_lf = false }) (to_lf (new 64).skip_lf hello))
push-to_lf_example = push-to_lf hello (new 64)

abbrev two_events : List (List (List ℕ))
two_events = ((b'h' ∷ b'i' ∷ []) ∷ (b'!' ∷ []) ∷ []) ∷ (([]) ∷ []) ∷ []

two_events-IsSendable : All (IsSendable 64) two_events
unfolding valid
two_events-IsSendable = (
  (refl, ((refl, (refl, (refl, tt))), ((refl, (refl, tt)), tt)), omega arith),
  ((refl, ((refl, tt), tt), omega arith), tt),
)

new-print_events_example :
    events (push (new 64) (print_events two_events)) ≡ inr (map joined two_events)
new-print_events_example = new-print_events 64 two_events (omega arith) two_events-IsSendable
