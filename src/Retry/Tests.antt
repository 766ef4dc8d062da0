-- ===== src/Retry/Tests.antt =====
-- The theorem on the retries of crates/llmbase-model/src/lib.rs at a concrete provider.
use llmbase.Prelude.{
  ltb, if◌then◌else◌, length, ◌+◌, ◌*◌, String, ◌≡◌, refl, Option, none, some, [], ◌∷◌,
}
use llmbase.Errors.{ModelError, http}
use llmbase.Retry.{RetryPolicy, answered, failed, backoff, Post, complete_inner}
use llmbase.Retry.Posts.{Tried}
use llmbase.Retry.Bounds.{Modest, complete_inner-Modest}

abbrev three_tries : RetryPolicy
three_tries = record {
  max_attempts = 3;
  fallback_attempts = 1;
  initial_backoff = 100;
  max_backoff = 150;
}

-- A provider that is busy twice and then answers.
abbrev busy_twice : Post
busy_twice name n = if ltb n 3 then (failed (http 503 n), some 120) else (answered "hello", none)

abbrev no_body_error : String → Option ModelError
no_body_error name = none

answers_third : complete_inner three_tries no_body_error busy_twice ("big" ∷ "small" ∷ []) ≡ (
  answered "hello",
  record {
    attempts = 3;
    last = answered "hello";
    sleeps = 120 ∷ 120 ∷ [];
    posts = "big" ∷ "big" ∷ "big" ∷ [];
  },
)
unfolding complete_inner backoff
answers_third = refl

complete_inner-Modest_example :
    (let done = (complete_inner three_tries no_body_error busy_twice ("big" ∷ "small" ∷ [])).1 in
      Tried three_tries 3 ("big" ∷ "small" ∷ []) done.posts
      × (done.attempts ≡ length done.posts)
      × Modest three_tries (3 + 1 * length {A = String} ("small" ∷ [])) done)
complete_inner-Modest_example =
    complete_inner-Modest three_tries no_body_error busy_twice "big" ("small" ∷ [])
