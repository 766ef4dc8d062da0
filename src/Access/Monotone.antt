-- ===== src/Access/Monotone.antt =====
-- More capabilities never take an operation away in crates/llmbase-core/src/application.rs.
use llmbase.Errors.{Error, scope, model, Result, ok, ◌>>=◌, ◌>>◌, reject_if, bind_ok, passed}
use llmbase.Prelude.{
  unwrap_or, any, all, ◌==◌, string_PartialEq, one_of, String, ◌≡◌, refl, Bool, true, false, not,
  ◌&&◌, ◌||◌, Option, none, some, List, [], ◌∷◌, arith,
}
use llmbase.Json.{Value, get_str}
use llmbase.Access.Operations.{
  Capability, read, write, model, private, Capabilities, contains, ingests, merges, writing_merges,
  reading_calls,
}
use llmbase.Access.{
  Principal, Request, Extension, Application, find_extension, extension_authorize, starts_with,
  is_set, required_capability, ingest_guard, repair_guard, merge_guard, reading_guard,
  bad_query_mode, query_write_guard, web_write_guard, job_guard, compat_guard, guards,
  authorize_builtin, authorize,
}

-- The second set has all that the first has.
pub record Extends (cs ds : Capabilities) : Type 0 where
  pub reads : cs.may_read ≡ true → ds.may_read ≡ true
  pub writes : cs.may_write ≡ true → ds.may_write ≡ true
  pub models : cs.may_model ≡ true → ds.may_model ≡ true
  pub privates : cs.may_private ≡ true → ds.may_private ≡ true

-- A test that asks for one thing, for two, or for three, is passed by whoever has more.
one_guard : (b r r' : Bool) → (r ≡ true → r' ≡ true) → (b && not r) ≡ false → (b && not r') ≡ false
one_guard b r r' more h = ground arith

two_guard :
    (b r r' p p' : Bool)
    → (r ≡ true → r' ≡ true)
    → (p ≡ true → p' ≡ true)
    → (b && (not r || not p)) ≡ false
    → (b && (not r' || not p')) ≡ false
two_guard b r r' p p' more_r more_p h = ground arith

three_guard :
    (b c d r r' p p' q q' : Bool)
    → (r ≡ true → r' ≡ true)
    → (p ≡ true → p' ≡ true)
    → (q ≡ true → q' ≡ true)
    → (b && (not r || (c && not p) || (d && not q))) ≡ false
    → (b && (not r' || (c && not p') || (d && not q'))) ≡ false
three_guard b c d r r' p p' q q' more_r more_p more_q h = ground arith

merge_rule :
    (b c r r' p p' q q' : Bool)
    → (r ≡ true → r' ≡ true)
    → (p ≡ true → p' ≡ true)
    → (q ≡ true → q' ≡ true)
    → (b && (not r || not p || (c && not q))) ≡ false
    → (b && (not r' || not p' || (c && not q'))) ≡ false
merge_rule b c r r' p p' q q' more_r more_p more_q h = ground arith

query_rule :
    (b a r r' p p' : Bool)
    → (r ≡ true → r' ≡ true)
    → (p ≡ true → p' ≡ true)
    → (b && a && (not r || not p)) ≡ false
    → (b && a && (not r' || not p')) ≡ false
query_rule b a r r' p p' more_r more_p h = ground arith

step :
    (a b : Bool) (e : Error) (m n : Result (Unit {0}))
    → (a ≡ false → b ≡ false)
    → (m ≡ ok tt → n ≡ ok tt)
    → (reject_if a e >>= λ _. m) ≡ ok tt
    → (reject_if b e >>= λ _. n) ≡ ok tt
step a b e m n weaker later h = let (low, rest) = passed a e m tt h in rw (weaker low) (later rest)

last :
    (a b : Bool) (e : Error)
    → (a ≡ false → b ≡ false)
    → reject_if a e ≡ ok tt
    → reject_if b e ≡ ok tt
last true b e weaker h = cc h
last false b e weaker h = rw (weaker refl)

holds_mono :
    (cs ds : Capabilities)
    → Extends cs ds
    → (c : Capability) → contains cs c ≡ true
    → contains ds c ≡ true
holds_mono cs ds more read = more.reads
holds_mono cs ds more write = more.writes
holds_mono cs ds more model = more.models
holds_mono cs ds more private = more.privates

module _ (cs ds : Capabilities) (more : Extends cs ds) (operation : String) (args : Value) where
  ingest_mono : ingest_guard cs operation args ≡ false → ingest_guard ds operation args ≡ false
  unfolding ingest_guard
  ingest_mono =
      two_guard (one_of operation ingests) cs.may_read ds.may_read cs.may_private ds.may_private
        more.reads more.privates

  repair_mono : repair_guard cs operation args ≡ false → repair_guard ds operation args ≡ false
  unfolding repair_guard
  repair_mono =
      three_guard (operation == "maintenance_repair")
        (not (one_of (unwrap_or (get_str args "mode") "auto_fix") ("clean" ∷ "heal_slugs" ∷ [])))
        (is_set args "private_inputs") cs.may_read ds.may_read cs.may_model ds.may_model
        cs.may_private ds.may_private more.reads more.models more.privates

  merge_mono : merge_guard cs operation args ≡ false → merge_guard ds operation args ≡ false
  unfolding merge_guard
  merge_mono =
      merge_rule (one_of operation merges) (one_of operation writing_merges) cs.may_read ds.may_read
        cs.may_private ds.may_private cs.may_write ds.may_write more.reads more.privates more.writes

  reading_mono : reading_guard cs operation args ≡ false → reading_guard ds operation args ≡ false
  unfolding reading_guard
  reading_mono = one_guard (one_of operation reading_calls) cs.may_read ds.may_read more.reads

  mode_mono : bad_query_mode cs operation args ≡ false → bad_query_mode ds operation args ≡ false
  unfolding bad_query_mode
  mode_mono h = h

  query_mono :
      query_write_guard cs operation args ≡ false → query_write_guard ds operation args ≡ false
  unfolding query_write_guard
  query_mono =
      query_rule (operation == "legacy_query") (any (is_set args) ("file_back" ∷ "promote" ∷ []))
        cs.may_write ds.may_write cs.may_private ds.may_private more.writes more.privates

  web_mono : web_write_guard cs operation args ≡ false → web_write_guard ds operation args ≡ false
  unfolding web_write_guard
  web_mono = one_guard (starts_with operation "web_write_") cs.may_read ds.may_read more.reads

  job_mono : job_guard cs operation args ≡ false → job_guard ds operation args ≡ false
  unfolding job_guard
  job_mono = one_guard (starts_with operation "job_") cs.may_private ds.may_private more.privates

  compat_mono : compat_guard cs operation args ≡ false → compat_guard ds operation args ≡ false
  unfolding compat_guard
  compat_mono = one_guard _ cs.may_private ds.may_private more.privates

  guards_mono : guards cs operation args ≡ ok tt → guards ds operation args ≡ ok tt
  unfolding guards
  guards_mono = step _ _ scope _ _ ingest_mono (
      step _ _ scope _ _ repair_mono (
        step _ _ scope _ _ merge_mono (
          step _ _ scope _ _ reading_mono (
            step _ _ _ _ _ mode_mono (
              step _ _ scope _ _ query_mono (
                step _ _ scope _ _ web_mono
                  (step _ _ scope _ _ job_mono (last _ _ scope compat_mono))))))))

authorize_builtin_mono :
    (cs ds : Capabilities)
    → Extends cs ds
    → (operation : String) (args : Value) → authorize_builtin cs operation args ≡ ok tt
    → authorize_builtin ds operation args ≡ ok tt
unfolding authorize_builtin
authorize_builtin_mono cs ds more operation args h =
    let (c, found, rest) =
      bind_ok (required_capability operation args)
        (λ c. reject_if (not (contains cs c)) scope >> guards cs operation args) tt h in
    rw found (step _ _ scope _ _ (less c) (guards_mono cs ds more operation args) rest)
  where
    negated : (a b : Bool) → (a ≡ true → b ≡ true) → not a ≡ false → not b ≡ false
    negated a b f h = ground arith

    less : (c : Capability) → not (contains cs c) ≡ false → not (contains ds c) ≡ false
    less c = negated (contains cs c) (contains ds c) (holds_mono cs ds more c)

all_mono :
    (cs ds : Capabilities)
    → Extends cs ds
    → (needed : List Capability) → all (contains cs) needed ≡ true
    → all (contains ds) needed ≡ true
all_mono cs ds more [] h = refl
all_mono cs ds more (c ∷ needed) h =
    let (held, rest) = both (contains cs c) (all (contains cs) needed) h in
    rw (holds_mono cs ds more c held, all_mono cs ds more needed rest)
  where
    both : (a b : Bool) → (a && b) ≡ true → (a ≡ true) × (b ≡ true)
    both a b h = ground arith

-- A principal who has all the libraries and all the capabilities of another one is authorized for every
-- request that the other one is authorized for, whether an extension or the engine serves it.
pub authorize_mono :
    (app : Application) (principal other : Principal) (request : Request)
    → Extends principal.capabilities other.capabilities
    → ((library : String)
        → one_of library principal.libraries ≡ true
        → one_of library other.libraries ≡ true)
    → authorize app principal request ≡ ok tt
    → authorize app other request ≡ ok tt
unfolding authorize extension_authorize
authorize_mono app principal other request more wider =
    step _ _ scope _ _
      (scoped _ _ (one_of request.library_id app.libraries) (wider request.library_id))
      (step _ _ _ _ _ (λ h. h) (served (find_extension request.operation app.extensions)))
  where
    scoped :
        (a b c : Bool) → (a ≡ true → b ≡ true) → (not a || not c) ≡ false → (not b || not c) ≡ false
    scoped a b c f h = ground arith

    extended :
        (l c d : Bool) → (c ≡ true → d ≡ true) → (not l || not c) ≡ false → (not l || not d) ≡ false
    extended l c d f h = ground arith

    at_extension :
        (e : Extension)
        → extension_authorize e principal request.library_id ≡ ok tt
        → extension_authorize e other request.library_id ≡ ok tt
    at_extension e = last _ _ scope (
        extended _ _ _
          (all_mono principal.capabilities other.capabilities more e.required_capabilities))

    served :
        (found : Option Extension)
        → elim found [
          | some extension ↦ extension_authorize extension principal request.library_id
          | none ↦ authorize_builtin principal.capabilities request.operation request.args
        ]
          ≡ ok tt
        → elim found [
          | some extension ↦ extension_authorize extension other request.library_id
          | none ↦ authorize_builtin other.capabilities request.operation request.args
        ]
          ≡ ok tt
    served (some e) = at_extension e
    served none =
        authorize_builtin_mono principal.capabilities other.capabilities more request.operation
          request.args
