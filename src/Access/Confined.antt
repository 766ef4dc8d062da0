-- ===== src/Access/Confined.antt =====
-- What the handler of an extension may call through its context, in crates/llmbase-core/src/extensions.rs.
use llmbase.Errors.{scope, capability, model, ok, err, reject_if, bind_ok, passed}
use mathlib.Core.Path.{subst}
use llmbase.Prelude.{
  Bool-cases, &&-eq-true, all, ◌==◌, string_PartialEq, str_eq_iff, one_of, String, ◌≡◌, refl, sym,
  ap, ◌∙◌, inl, inr, Bool, true, false, not, ◌||◌, Option, none, some, List, [], ◌∷◌, arith,
}
use llmbase.Json.{Value, is_object}
use llmbase.Access.{
  Principal, Request, Extension, Application, find_extension, extension_authorize,
  authorize_builtin, authorize,
}
use llmbase.Access.Operations.{Capability, read, write, model, private, Capabilities, contains}
use llmbase.Access.Extensions.{
  same_capability, includes, capabilities_of, ExtensionContext, context_of, exposed,
  context_execute,
}
use llmbase.Access.Monotone.{Extends, authorize_mono}

held_by_all :
    (cs : Capabilities) (needed : List Capability) (c : Capability)
    → all (contains cs) needed ≡ true
    → includes needed c ≡ true
    → contains cs c ≡ true
held_by_all cs [] c h k = cc k
held_by_all cs (d ∷ needed) c h k =
    let (first, rest) = &&-eq-true (contains cs d) (all (contains cs) needed) h in
    elim (Bool-cases (same_capability c d)) [
      | inl same ↦ subst (λ x. contains cs x ≡ true) (sym (same_eq c d same)) first
      | inr other ↦ held_by_all cs needed c rest (rw other at k)
    ]
  where
    same_eq : (a b : Capability) → same_capability a b ≡ true → a ≡ b
    same_eq a b e = ground arith

capabilities_of-Extends :
    (cs : Capabilities) (needed : List Capability)
    → all (contains cs) needed ≡ true
    → Extends (capabilities_of needed) cs
capabilities_of-Extends cs needed h = record {
  reads = held_by_all cs needed read h;
  writes = held_by_all cs needed write h;
  models = held_by_all cs needed model h;
  privates = held_by_all cs needed private h;
}

positive : (b : Bool) → not b ≡ false → b ≡ true
positive b h = ground arith

-- What authorization by an extension shows.
extension_authorize-held :
    (e : Extension) (principal : Principal) (library : String)
    → extension_authorize e principal library ≡ ok tt
    → all (contains principal.capabilities) e.required_capabilities ≡ true
unfolding extension_authorize
extension_authorize-held e principal library =
    go (one_of library e.libraries) (all (contains principal.capabilities) e.required_capabilities)
  where
    go : (a b : Bool) → reject_if (not a || not b) scope ≡ ok tt → b ≡ true
    go a true h = refl
    go true false h = cc h
    go false false h = cc h

abbrev narrowed : Principal → Request → Extension → ExtensionContext
narrowed principal request e = record {
  library_id = request.library_id;
  principal = record {
    id = principal.id;
    libraries = request.library_id ∷ [];
    capabilities = capabilities_of e.required_capabilities;
  };
}

-- The context is the caller's principal with fewer libraries and capabilities.
context_of-narrowed :
    (app : Application) (principal : Principal) (context : ExtensionContext) (request : Request)
    → context_of app principal request ≡ ok context
    → (e : Extension) × (context ≡ narrowed principal request e)
      × Extends context.principal.capabilities principal.capabilities
      × (one_of request.library_id principal.libraries ≡ true)
unfolding context_of authorize
context_of-narrowed app principal context request h =
    let (_, allowed, rest) = bind_ok (authorize app principal request) _ context h in
    let (scoped, later) =
      passed
        (not (one_of request.library_id principal.libraries)
          || not (one_of request.library_id app.libraries))
        scope _ tt allowed in
    let (_, last) = passed (not (is_object request.args)) _ _ tt later in
    go (first (one_of request.library_id principal.libraries) _ scoped)
      (find_extension request.operation app.extensions) last rest
  where
    first : (a b : Bool) → (not a || not b) ≡ false → a ≡ true
    first a b k = ground arith

    go :
        one_of request.library_id principal.libraries ≡ true
        → (found : Option Extension)
        → elim found [
          | some e ↦ extension_authorize e principal request.library_id
          | none ↦ authorize_builtin principal.capabilities request.operation request.args
        ]
          ≡ ok tt
        → elim found [
          | none ↦ err (capability "not a registered extension")
          | some e ↦ ok (narrowed principal request e)
        ]
          ≡ ok context
        → (e : Extension) × (context ≡ narrowed principal request e)
          × Extends context.principal.capabilities principal.capabilities
          × (one_of request.library_id principal.libraries ≡ true)
    go mine none a b = cc b
    go mine (some e) a b =
        let same : context ≡ narrowed principal request e = cc b in
        (
          e,
          same,
          subst (λ x. Extends x.principal.capabilities principal.capabilities) (sym same)
              (capabilities_of-Extends principal.capabilities e.required_capabilities
                (extension_authorize-held e principal request.library_id a)),
          mine,
        )

-- A request that an extension's handler executes through its context is one of the exposed operations,
-- stays in the library of the request that called the extension, and is one that the caller of the
-- extension is authorized to make himself.
pub context_execute-Confined :
    (app : Application) (principal : Principal) (context : ExtensionContext)
    (request inner : Request) (operation : String) (args : Value)
    → context_of app principal request ≡ ok context
    → context_execute app context operation args ≡ ok inner
    → (one_of inner.operation exposed ≡ true)
      × (inner.library_id ≡ request.library_id)
      × (authorize app principal inner ≡ ok tt)
unfolding context_of context_execute
context_execute-Confined app principal context request inner operation args h k =
    let (e, same, more, mine) = context_of-narrowed app principal context request h in
    let (listed, k1) = passed (not (one_of operation exposed)) _ _ inner k in
    let (_, allowed, k2) = bind_ok (authorize app context.principal asked) _ inner k1 in
    let made : asked ≡ inner = cc k2 in
    subst
      (λ r.
        (one_of r.operation exposed ≡ true)
        × (r.library_id ≡ request.library_id)
        × (authorize app principal r ≡ ok tt))
      made
      (
        positive (one_of operation exposed) listed,
        ap (λ (x : ExtensionContext). x.library_id) same,
        authorize_mono app context.principal principal asked more (wider e same mine) allowed,
      )
  where
    asked : Request
    asked = record { library_id = context.library_id; operation = operation; args = args }

    only :
        (a b : String) (ls : List String)
        → one_of b ls ≡ true
        → (a == b || false) ≡ true
        → one_of a ls ≡ true
    only a b ls m e = subst (λ x. one_of x ls ≡ true) (sym ((str_eq_iff a b).0 (left (a == b) e))) m
      where
        left : (c : Bool) → (c || false) ≡ true → c ≡ true
        left c f = ground arith

    wider :
        (e : Extension)
        → context ≡ narrowed principal request e
        → one_of request.library_id principal.libraries ≡ true
        → (library : String) → one_of library context.principal.libraries ≡ true
        → one_of library principal.libraries ≡ true
    wider e same mine library held =
        only library request.library_id principal.libraries mine
          (ap (λ x. one_of library x.principal.libraries) (sym same) ∙ held)
