-- ===== src/Retry/Posts.antt =====
-- To which models, and how often, a request of crates/llmbase-model/src/lib.rs is posted.
use mathlib.Core.Path.{subst}
use llmbase.Prelude.{
  Option-cases, length, length-append, ℕ, zero, suc, ◌+◌, ◌≤◌, String, ◌≡◌, refl, sym, ap, ◌∙◌, ◌⊎◌,
  inl, inr, Option, List, [], ◌∷◌, ◌++◌, append_assoc, arith,
}
use llmbase.Errors.{ModelError}
use llmbase.Retry.{
  RetryPolicy, Attempt, Progress, Verdict, give, again, stop, verdict, Round, finished, exhausted,
  counted, slept, try_model, Post, after_round, try_models,
}

abbrev pub repeat : ℕ → String → List String
repeat zero name = []
repeat (suc n) name = name ∷ repeat n name

-- Posts to the models in their order: at most `limit` to the first, at most those of a fallback to each other.
abbrev pub Tried : RetryPolicy → ℕ → List String → List String → Type 0
Tried config limit [] posts = posts ≡ []
Tried config limit (m ∷ ms) posts =
    (n : ℕ) × (rest : List String) × (n ≤ limit)
    × (posts ≡ repeat n m ++ rest)
    × Tried config config.fallback_attempts ms rest

Tried-none :
    (config : RetryPolicy) (limit : ℕ) (models : List String) → Tried config limit models []
Tried-none config limit [] = refl
Tried-none config limit (m ∷ ms) =
    (0, [], omega arith, refl, Tried-none config config.fallback_attempts ms)

-- The new posts, behind those there were, and as many attempts.
abbrev Posted : (List String → Type 0) → Progress → Progress → Type 0
Posted P p q =
    (more : List String) × (q.posts ≡ p.posts ++ more)
    × (q.attempts ≡ p.attempts + length more)
    × P more

abbrev progress_of : Round → Progress
progress_of (finished result p) = p
progress_of (exhausted p) = p

abbrev FewAt : String → ℕ → List String → Type 0
FewAt name left more = (k : ℕ) × (k ≤ left) × (more ≡ repeat k name)

append_nil : (xs : List String) → xs ++ [] ≡ xs
append_nil [] = refl
append_nil (x ∷ xs) = ap (λ l. x ∷ l) (append_nil xs)

nothing_new : (P : List String → Type 0) (p : Progress) → P [] → Posted P p p
nothing_new P p h = ([], sym (append_nil p.posts), omega arith, h)

Verdict-cases : (v : Verdict) → (v ≡ give) ⊎ (v ≡ again) ⊎ (v ≡ stop)
Verdict-cases give = inl refl
Verdict-cases again = inr (inl refl)
Verdict-cases stop = inr (inr refl)

try_model-FewAt :
    (config : RetryPolicy) (name : String) (post : ℕ → Attempt × Option ℕ) (limit left attempt : ℕ)
    (p : Progress)
    → Posted (FewAt name left) p (progress_of (try_model config name post limit left attempt p))
unfolding try_model
try_model-FewAt config name post limit zero attempt p =
    nothing_new (FewAt name 0) p (0, omega arith, refl)
try_model-FewAt config name post limit (suc left) attempt p =
    let result = (post (p.attempts + 1)).0 in
    let one : Posted (FewAt name (suc left)) p (counted name result p) =
      (name ∷ [], refl, omega arith, (1, omega arith, refl)) in
    elim (Verdict-cases (verdict result)) [
      | inl done ↦ rw (progress_of, done) one
      | inr (inr broken) ↦ rw (progress_of, broken) one
      | inr (inl more) ↦
          let next = slept config attempt limit (post (p.attempts + 1)).1 (counted name result p) in
          let (later, posts, count, (k, few, same)) =
            try_model-FewAt config name post limit left (attempt + 1) next in
          rw (progress_of, more)
            (
              name ∷ later,
              posts ∙ append_assoc p.posts (name ∷ []) later,
              omega (arith, count),
              (suc k, omega (arith, few), ap (λ l. name ∷ l) same),
            )
    ]

behind_round :
    (config : RetryPolicy) (m : String) (ms : List String) (limit : ℕ) (p : Progress) (r : Round)
    (next : Progress → Attempt × Progress)
    → Posted (FewAt m limit) p (progress_of r)
    → ((q : Progress) → Posted (Tried config config.fallback_attempts ms) q (next q).1)
    → Posted (Tried config limit (m ∷ ms)) p (after_round r next).1
behind_round config m ms limit p (finished result q) next (more, posts, count, (k, few, same))
      rest =
    (
      more,
      posts,
      count,
      (
        k,
        [],
        few,
        same ∙ sym (append_nil (repeat k m)),
        Tried-none config config.fallback_attempts ms,
      ),
    )
behind_round config m ms limit p (exhausted q) next (more, posts, count, (k, few, same)) rest =
    let (later, posts', count', tried) = rest q in
    (
      more ++ later,
      posts' ∙ ap (λ l. l ++ later) posts ∙ append_assoc p.posts more later,
      omega (arith, count, count', length-append more later),
      (k, later, few, ap (λ l. l ++ later) same, tried),
    )

try_models-Posted :
    (config : RetryPolicy) (body_error : String → Option ModelError) (post : Post) (limit : ℕ)
    (models : List String) (p : Progress)
    → Posted (Tried config limit models) p (try_models config body_error post limit models p).1
unfolding try_models
try_models-Posted config body_error post limit [] p = nothing_new (Tried config limit []) p refl
try_models-Posted config body_error post limit (m ∷ ms) p = elim (Option-cases (body_error m)) [
  | inr (e, bad) ↦
      rw bad (nothing_new (Tried config limit (m ∷ ms)) p (Tried-none config limit (m ∷ ms)))
  | inl fine ↦ rw fine (
      behind_round config m ms limit p (try_model config m (post m) limit limit 1 p)
        (λ q. try_models config body_error post config.fallback_attempts ms q)
        (try_model-FewAt config m (post m) limit limit 1 p)
        (try_models-Posted config body_error post config.fallback_attempts ms))
]

-- From no posts and no attempts.
pub try_models-Tried :
    (config : RetryPolicy) (body_error : String → Option ModelError) (post : Post) (limit : ℕ)
    (models : List String) (last : Attempt)
    → (let start : Progress = record { attempts = 0; last = last; sleeps = []; posts = [] } in
        let done = (try_models config body_error post limit models start).1 in
        Tried config limit models done.posts × (done.attempts ≡ length done.posts))
try_models-Tried config body_error post limit models last =
    let (more, posts, count, tried) =
      try_models-Posted config body_error post limit models
        (record { attempts = 0; last = last; sleeps = []; posts = [] }) in
    (subst (Tried config limit models) (sym posts) tried, omega (arith, count, ap length posts))
