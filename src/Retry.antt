-- ===== src/Retry.antt =====
-- The retries of crates/llmbase-model/src/lib.rs: `complete_inner` and `backoff`. What one attempt gives,
-- the post with the reading of its response, is a parameter. Durations are nanoseconds.
mod Posts
mod Bounds
mod Tests
use llmbase.Prelude.{
  ltb, if◌then◌else◌, unwrap_or, ◌==◌, string_PartialEq, ℕ, zero, suc, ◌+◌, ◌-◌, ◌*◌, ◌^◌, min,
  String, Bool, true, false, Option, none, some, List, [], ◌∷◌, ◌++◌,
}
use llmbase.Errors.{ModelError, cancelled, timeout, protocol, retryable}

pub record RetryPolicy : Type 0 where
  pub max_attempts : ℕ
  pub fallback_attempts : ℕ
  pub initial_backoff : ℕ
  pub max_backoff : ℕ

-- A response by its content, or an error.
pub data Attempt : Type 0 where
  answered : String → Attempt
  failed : ModelError → Attempt

-- What a request has done: the attempts that it has counted, the pauses that it has made, and the models that
-- it has posted to, in order.
pub record Progress : Type 0 where
  pub attempts : ℕ
  pub last : Attempt
  pub sleeps : List ℕ
  pub posts : List String

-- `Duration::MAX`
abbrev pub duration_max : ℕ
duration_max = (2 ^ 64 - 1) * 1000000000 + 999999999

-- `1u32.checked_shl(attempt.saturating_sub(1)).unwrap_or(u32::MAX)`
unfoldable pub multiplier : ℕ → ℕ
multiplier attempt = if ltb (attempt - 1) 32 then 2 ^ (attempt - 1) else 2 ^ 32 - 1

unfoldable pub backoff : RetryPolicy → ℕ → Option ℕ → ℕ
unfolding multiplier
backoff config attempt retry_after =
    let exponential =
      min (min (config.initial_backoff * multiplier attempt) duration_max) config.max_backoff in
    min (unwrap_or retry_after exponential) config.max_backoff

pub data Verdict : Type 0 where
  give again stop : Verdict

abbrev pub of_retryable : Bool → Verdict
of_retryable true = again
of_retryable false = stop

-- The match on an attempt's result.
unfoldable pub verdict : Attempt → Verdict
unfolding retryable
verdict (answered content) = if content == "" then again else give
verdict (failed timeout) = give
verdict (failed cancelled) = give
verdict (failed e) = of_retryable (retryable e)

pub data Round : Type 0 where
  finished : Attempt → Progress → Round
  exhausted : Progress → Round

-- An attempt that was posted to the model.
abbrev pub counted : String → Attempt → Progress → Progress
counted name result p = record p {
  attempts = p.attempts + 1;
  last = result;
  posts = p.posts ++ name ∷ [];
}

-- No sleep behind the last attempt at a model.
abbrev pub slept : RetryPolicy → ℕ → ℕ → Option ℕ → Progress → Progress
slept config attempt limit retry_after p = record p {
  sleeps =
      if ltb attempt limit then p.sleeps ++ backoff config attempt retry_after ∷ [] else p.sleeps;
}

-- `post` tells what the attempt with this number gives, and the delay that the provider asks for.
-- The inner loop, with `left` attempts to come.
unfoldable pub try_model :
    RetryPolicy → String → (ℕ → Attempt × Option ℕ) → ℕ → ℕ → ℕ → Progress → Round
unfolding verdict
try_model config name post limit zero attempt p = exhausted p
try_model config name post limit (suc left) attempt p =
    let result = (post (p.attempts + 1)).0 in
    let retry_after = (post (p.attempts + 1)).1 in
    elim (verdict result) [
      | give ↦ finished result (counted name result p)
      | stop ↦ exhausted (counted name result p)
      | again ↦
          try_model config name post limit left (attempt + 1)
            (slept config attempt limit retry_after (counted name result p))
    ]

-- `chat_body` may refuse the request for a model, which ends all.
abbrev pub Post : Type 0
Post = String → ℕ → Attempt × Option ℕ

abbrev pub after_round : Round → (Progress → Attempt × Progress) → Attempt × Progress
after_round (finished result p) next = (result, p)
after_round (exhausted p) next = next p

abbrev pub with_body :
    Option ModelError → Progress → (Progress → Attempt × Progress) → Attempt × Progress
with_body (some e) p next = (failed e, p)
with_body none p next = next p

unfoldable pub try_models :
    RetryPolicy
    → (String → Option ModelError)
    → Post
    → ℕ
    → List String
    → Progress
    → Attempt × Progress
unfolding try_model
try_models config body_error post limit [] p = (p.last, p)
try_models config body_error post limit (m ∷ ms) p = with_body (body_error m) p λ p.
    after_round (try_model config m (post m) limit limit 1 p)
      λ p. try_models config body_error post config.fallback_attempts ms p

-- `complete_inner`: the first model has the attempts of the configuration, the others those of fallbacks.
unfoldable pub complete_inner :
    RetryPolicy → (String → Option ModelError) → Post → List String → Attempt × Progress
unfolding try_models
complete_inner config body_error post models =
    try_models config body_error post config.max_attempts models (record {
      attempts = 0;
      last = failed (protocol "no response received");
      sleeps = [];
      posts = [];
    })
