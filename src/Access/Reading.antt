-- ===== src/Access/Reading.antt =====
-- What a principal who may only read reaches through crates/llmbase-core/src/application.rs.
use llmbase.Errors.{scope, model, Result, ok, err, ◌>>◌, reject_if, is_ok, bind_ok, passed}
use llmbase.Json.{Value, is_object, get_str}
use llmbase.Prelude.{
  if◌then◌else◌, some_and, Bool-cases, &&-eq-true, all, ◌==◌, string_PartialEq, str_eq_iff, one_of,
  String, ◌≡◌, refl, ap, ◌∙◌, ◌↔◌, inl, inr, Bool, true, false, not, ◌&&◌, ◌||◌, Option, none, some,
  List, [], ◌∷◌, ◌++◌, arith,
}
use llmbase.Access.Operations.{
  Capability, read, write, model, private, Capabilities, contains, only_read, arms, arm_of,
}
use llmbase.Access.{
  public, Request, Application, find_extension, capability_of, required_capability, guards,
  authorize_builtin, authorize,
}

-- The operations that are open to the public.
abbrev pub public_operations : List String
public_operations =
    "transcription_prepare" ∷ "web_config" ∷ "web_articles" ∷ "web_article" ∷ "web_aliases"
    ∷ "web_collections" ∷ "web_sources" ∷ "web_source" ∷ "web_stats" ∷ "web_health"
    ∷ "web_wiki_export" ∷ "web_taxonomy" ∷ "web_xici" ∷ "web_entities" ∷ "web_export_article"
    ∷ "web_export_tag" ∷ "web_export_graph" ∷ "web_trails" ∷ "web_search" ∷ "web_lint" ∷ "web_tones"
    ∷ "web_refs_plugins" ∷ "kb_search" ∷ "kb_search_raw" ∷ "search" ∷ "kb_get" ∷ "get" ∷ "kb_list"
    ∷ "list" ∷ "kb_stats" ∷ "evidence" ∷ "answer_get" ∷ "hybrid_search" ∷ "aliases" ∷ "backlinks"
    ∷ "backlinks_compat" ∷ "graph" ∷ "taxonomy" ∷ "entities" ∷ "doctor" ∷ "export_article"
    ∷ "export_tag" ∷ "export_graph" ∷ "lint" ∷ "xici" ∷ []

-- A test that holds of each name of a list holds of every text that the list contains.
pub one_of-all :
    (p : String → Bool) (operation : String) (names : List String)
    → all p names ≡ true
    → one_of operation names ≡ true
    → p operation ≡ true
one_of-all p operation [] h m = cc m
one_of-all p operation (n ∷ ns) h m = elim (Bool-cases (operation == n)) [
  | inl same ↦ ap p ((str_eq_iff operation n).0 same) ∙ (&&-eq-true (p n) (all p ns) h).0
  | inr other ↦ one_of-all p operation ns (&&-eq-true (p n) (all p ns) h).1 (rw other at m)
]

-- The names in the arms for reading.
abbrev names_if : Capability → List String → List String → List String
names_if read names rest = names ++ rest
names_if _ names rest = rest

abbrev read_names : List (List String × Capability) → List String
read_names [] = []
read_names ((names, c) ∷ rest) = names_if c names (read_names rest)

pub one_of-left :
    (a : String) (xs ys : List String) → one_of a xs ≡ true → one_of a (xs ++ ys) ≡ true
one_of-left a [] ys h = cc h
one_of-left a (x ∷ xs) ys h = elim (Bool-cases (a == x)) [
  | inl same ↦ rw same
  | inr other ↦ rw other (one_of-left a xs ys (rw other at h))
]

pub one_of-right :
    (a : String) (xs ys : List String) → one_of a ys ≡ true → one_of a (xs ++ ys) ≡ true
one_of-right a [] ys h = h
one_of-right a (x ∷ xs) ys h = rw (one_of-right a xs ys h) (absorbed (a == x))
  where
    absorbed : (b : Bool) → (b || true) ≡ true
    absorbed b = ground arith

in_later :
    (c : Capability) (a : String) (names rest : List String)
    → one_of a rest ≡ true
    → one_of a (names_if c names rest) ≡ true
in_later read a names rest h = one_of-right a names rest h
in_later write a names rest h = h
in_later model a names rest h = h
in_later private a names rest h = h

arm_of-read :
    (a : String) (table : List (List String × Capability))
    → arm_of a table ≡ some read
    → one_of a (read_names table) ≡ true
unfolding arm_of
arm_of-read a [] h = cc
arm_of-read a ((names, c) ∷ rest) h = elim (Bool-cases (one_of a names)) [
  | inr other ↦ in_later c a names (read_names rest) (arm_of-read a rest (rw other at h))
  | inl here ↦ found here c (rw here at h)
]
  where
    found :
        one_of a names ≡ true
        → (d : Capability) → some d ≡ some read
        → one_of a (names_if d names (read_names rest)) ≡ true
    found here read e = one_of-left a names (read_names rest) here
    found here write e = cc e
    found here model e = cc e
    found here private e = cc e

unfoldable pub is_admitted : Capabilities → Value → String → Bool
is_admitted cs args operation = is_ok (authorize_builtin cs operation args)

public_operations-admitted :
    (args : Value) → all (is_admitted only_read args) public_operations ≡ true
unfolding is_admitted authorize_builtin
public_operations-admitted args = refl

-- A name in an arm for reading that is admitted is one of the public operations.
abbrev public_or_refused : Value → String → Bool
public_or_refused args operation =
    one_of operation public_operations || not (is_admitted only_read args operation)

others_refused : (args : Value) → all (public_or_refused args) (read_names arms) ≡ true
unfolding is_admitted authorize_builtin
others_refused args = refl

only_reading : (c : Capability) → contains only_read c ≡ true → c ≡ read
only_reading c h = ground arith

capability_of-read :
    (operation : String) (o : Option Capability)
    → capability_of operation o ≡ ok read
    → o ≡ some read
capability_of-read operation none h = cc h
capability_of-read operation (some c) h = cc h

required_capability-read :
    (operation : String) (args : Value)
    → required_capability operation args ≡ ok read
    → arm_of operation arms ≡ some read
unfolding required_capability
required_capability-read operation args h =
    go (operation == "maintenance_repair" && some_and (get_str args "mode") (λ m. m == "deep_lint"))
      h
  where
    go :
        (b : Bool)
        → (if b then ok model else capability_of operation (arm_of operation arms)) ≡ ok read
        → arm_of operation arms ≡ some read
    go true e = cc e
    go false e = capability_of-read operation (arm_of operation arms) e

required_read :
    (operation : String) (args : Value)
    → authorize_builtin only_read operation args ≡ ok tt
    → required_capability operation args ≡ ok read
unfolding authorize_builtin
required_read operation args h =
    let (c, found, rest) =
      bind_ok (required_capability operation args)
        (λ c. reject_if (not (contains only_read c)) scope >> guards only_read operation args) tt
        h in
    let (held, _) =
      passed (not (contains only_read c)) scope (guards only_read operation args) tt rest in
    found ∙ ap ok (only_reading c (is_positive (contains only_read c) held))
  where
    is_positive : (b : Bool) → not b ≡ false → b ≡ true
    is_positive b e = ground arith

open_to_public :
    (operation : String) (args : Value)
    → authorize_builtin only_read operation args ≡ ok tt
    → one_of operation public_operations ≡ true
unfolding is_admitted
open_to_public operation args h =
    left (one_of operation public_operations) (is_admitted only_read args operation)
      (one_of-all (public_or_refused args) operation (read_names arms) (others_refused args) (
        arm_of-read operation arms
          (required_capability-read operation args (required_read operation args h))))
      (ap is_ok h)
  where
    left : (a b : Bool) → (a || not b) ≡ true → b ≡ true → a ≡ true
    left a b e k = ground arith

admitted_ok : (r : Result (Unit {0})) → is_ok r ≡ true → r ≡ ok tt
admitted_ok (ok u) h = refl
admitted_ok (err e) h = cc h

-- A principal who may only read, of the library that it was made for, is authorized to call a built-in
-- operation if and only if the request is for that library, the application has it, the arguments are an
-- object and the operation is one of the public ones.
pub public-reads :
    (app : Application) (library : String) (request : Request)
    → find_extension request.operation app.extensions ≡ none
    → (authorize app (public library) request ≡ ok tt) ↔ (
        (request.library_id ≡ library)
        × (one_of request.library_id app.libraries ≡ true)
        × (is_object request.args ≡ true)
        × (one_of request.operation public_operations ≡ true))
unfolding authorize is_admitted
public-reads app library request builtin = (forth, back)
  where
    op : String
    op = request.operation

    mine : Bool
    mine = request.library_id == library || false

    served : Bool
    served = one_of request.library_id app.libraries

    Permitted : Type 0
    Permitted =
        (request.library_id ≡ library)
        × (served ≡ true)
        × (is_object request.args ≡ true)
        × (one_of op public_operations ≡ true)

    both : (a b : Bool) → (not (a || false) || not b) ≡ false → (a ≡ true) × (b ≡ true)
    both a b h = ground arith

    positive : (b : Bool) → not b ≡ false → b ≡ true
    positive b h = ground arith

    forth : authorize app (public library) request ≡ ok tt → Permitted
    forth h =
        let (scoped, h1) = passed (not mine || not served) scope _ tt h in
        let (same, known) = both (request.library_id == library) served scoped in
        let (shaped, h2) = passed (not (is_object request.args)) _ _ tt h1 in
        (
          (str_eq_iff request.library_id library).0 same,
          known,
          positive (is_object request.args) shaped,
          open_to_public op request.args (rw builtin at h2),
        )

    back : Permitted → authorize app (public library) request ≡ ok tt
    back (same, known, shaped, listed) =
        rw ((str_eq_iff request.library_id library).1 same, known, shaped, builtin)
          (admitted_ok _ (
            one_of-all (is_admitted only_read request.args) op public_operations
              (public_operations-admitted request.args) listed))
