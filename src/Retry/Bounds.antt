-- ===== src/Retry/Bounds.antt =====
-- How often, and with which pauses, crates/llmbase-model/src/lib.rs tries.
use llmbase.Prelude.{
  ltb, Bool-cases, Option-cases, length, All, All-append, ◌==◌, string_PartialEq, ℕ, zero, suc, ◌+◌,
  ◌*◌, ◌≤◌, String, ◌≡◌, refl, ◌⊎◌, inl, inr, false, Option, List, [], ◌∷◌, arith,
}
use llmbase.Retry.Posts.{Tried, try_models-Tried}
use llmbase.Errors.{ModelError, cancelled, timeout, protocol}
use llmbase.Retry.{
  RetryPolicy, Attempt, answered, failed, Progress, backoff, Verdict, give, again, stop, verdict,
  Round, finished, exhausted, counted, slept, try_model, Post, after_round, try_models,
  complete_inner,
}

-- At most so many attempts, and no pause longer than the configured one.
abbrev pub Modest : RetryPolicy → ℕ → Progress → Type 0
Modest config n p = (p.attempts ≤ n) × All (λ pause. pause ≤ config.max_backoff) p.sleeps

-- What ends the request at once: a content that is not empty, a timeout, a cancellation.
abbrev pub Final : Attempt → Type 0
Final (answered content) = (content == "") ≡ false
Final (failed e) = (e ≡ timeout) ⊎ (e ≡ cancelled)

abbrev ModestRound : RetryPolicy → ℕ → Round → Type 0
ModestRound config n (finished result p) = Final result × Modest config n p
ModestRound config n (exhausted p) = Modest config n p

backoff-bound :
    (config : RetryPolicy) (attempt : ℕ) (after : Option ℕ)
    → backoff config attempt after ≤ config.max_backoff
unfolding backoff
backoff-bound config attempt after = ground arith

verdict-Final : (result : Attempt) → verdict result ≡ give → Final result
unfolding verdict
verdict-Final (answered content) h = elim (Bool-cases (content == "")) [
  | inl none_given ↦ cc (rw none_given at h)
  | inr given ↦ given
]
verdict-Final (failed e) h = ground arith

slept-Modest :
    (config : RetryPolicy) (attempt limit n : ℕ) (after : Option ℕ) (p : Progress)
    → Modest config n p
    → Modest config n (slept config attempt limit after p)
slept-Modest config attempt limit n after p h = elim (Bool-cases (ltb attempt limit)) [
  | inr last_one ↦ rw last_one h
  | inl more ↦ rw more (
    h.0,
    All-append (λ pause. pause ≤ config.max_backoff) p.sleeps _ h.1
        (backoff-bound config attempt after, tt),
  )
]

Verdict-cases : (v : Verdict) → (v ≡ give) ⊎ (v ≡ again) ⊎ (v ≡ stop)
Verdict-cases give = inl refl
Verdict-cases again = inr (inl refl)
Verdict-cases stop = inr (inr refl)

looser :
    (config : RetryPolicy) (a b : ℕ) (r : Round)
    → a ≤ b
    → ModestRound config a r
    → ModestRound config b r
looser config a b (finished result p) h k = (k.0, (omega (arith, h, k.1.0), k.1.1))
looser config a b (exhausted p) h k = (omega (arith, h, k.0), k.1)

try_model-Modest :
    (config : RetryPolicy) (name : String) (post : ℕ → Attempt × Option ℕ)
    (limit left attempt n : ℕ) (p : Progress)
    → Modest config n p
    → ModestRound config (n + left) (try_model config name post limit left attempt p)
unfolding try_model
try_model-Modest config name post limit zero attempt n p h = (omega (arith, h.0), h.1)
try_model-Modest config name post limit (suc left) attempt n p h =
    let result = (post (p.attempts + 1)).0 in
    elim (Verdict-cases (verdict result)) [
      | inl done ↦ rw (ModestRound, done) (verdict-Final result done, (omega (arith, h.0), h.1))
      | inr (inr broken) ↦ rw (ModestRound, broken) (omega (arith, h.0), h.1)
      | inr (inl more) ↦
          rw (ModestRound, more)
            (looser config (n + 1 + left) (n + suc left) _ (omega arith) (
              try_model-Modest config name post limit left (attempt + 1) (n + 1) _ (
                slept-Modest config attempt limit (n + 1) (post (p.attempts + 1)).1
                  (counted name result p) (omega (arith, h.0), h.1))))
    ]

-- The attempts that a list of models may have, the first of them `limit`.
abbrev pub budget : RetryPolicy → ℕ → List String → ℕ
budget config limit [] = 0
budget config limit (m ∷ ms) = limit + config.fallback_attempts * length ms

budget-rest :
    (config : RetryPolicy) (limit : ℕ) (m : String) (ms : List String)
    → limit + budget config config.fallback_attempts ms ≤ budget config limit (m ∷ ms)
budget-rest config limit m [] = omega arith
budget-rest config limit m (x ∷ xs) = grind arith

behind_round :
    (config : RetryPolicy) (a b : ℕ) (r : Round) (next : Progress → Attempt × Progress)
    → a ≤ b
    → ModestRound config a r
    → ((p : Progress) → Modest config a p → Modest config b (next p).1)
    → Modest config b (after_round r next).1
behind_round config a b (finished result p) next h k rest = (omega (arith, h, k.1.0), k.1.1)
behind_round config a b (exhausted p) next h k rest = rest p k

try_models-Modest :
    (config : RetryPolicy) (body_error : String → Option ModelError) (post : Post) (limit : ℕ)
    (models : List String) (n : ℕ) (p : Progress)
    → Modest config n p
    → Modest config
        (n + budget config limit models)
        (try_models config body_error post limit models p).1
unfolding try_models
try_models-Modest config body_error post limit [] n p h = (omega (arith, h.0), h.1)
try_models-Modest config body_error post limit (m ∷ ms) n p h =
    let room = budget-rest config limit m ms in
    elim (Option-cases (body_error m)) [
      | inr (e, bad) ↦ rw bad (omega (arith, h.0), h.1)
      | inl fine ↦ rw fine (
          behind_round config (n + limit) (n + budget config limit (m ∷ ms)) _ _ (omega arith)
            (try_model-Modest config m (post m) limit limit 1 n p h)
            (λ q k.
              let (few, short) =
                try_models-Modest config body_error post config.fallback_attempts ms (n + limit) q
                  k in
              (omega (arith, few, room), short)))
    ]

-- Whatever the provider answers, a request posts to its models in their order, at most `max_attempts` times to
-- the first and at most `fallback_attempts` times to each of the others, and to no other; it counts these
-- posts as its attempts; and no pause between two attempts is longer than `max_backoff`, a delay that the
-- provider asks for included.
pub complete_inner-Modest :
    (config : RetryPolicy) (body_error : String → Option ModelError) (post : Post) (first : String)
    (fallbacks : List String)
    → (let done = (complete_inner config body_error post (first ∷ fallbacks)).1 in
        Tried config config.max_attempts (first ∷ fallbacks) done.posts
        × (done.attempts ≡ length done.posts)
        × Modest config (config.max_attempts + config.fallback_attempts * length fallbacks) done)
unfolding complete_inner
complete_inner-Modest config body_error post first fallbacks =
    let (few, short) =
      try_models-Modest config body_error post config.max_attempts (first ∷ fallbacks) 0
        (record {
          attempts = 0;
          last = failed (protocol "no response received");
          sleeps = [];
          posts = [];
        })
        (omega arith, tt) in
    let (tried, count) =
      try_models-Tried config body_error post config.max_attempts (first ∷ fallbacks)
        (failed (protocol "no response received")) in
    (tried, count, (omega (arith, few), short))
