-- ===== src/Prelude/Equality.antt =====
-- `==` as an interface, with its instances at numbers, texts and lists of bytes.
use Prim.Native.Char.{code}
use Prim.Native.Nat.{ℕ}
use Prim.Native.String.{String, ◌++◌ as str_append}
use text.Mathlib.Text.{◌==◌ as str_eq}
use text.Mathlib.TextEquality.{eq_iff}
use mathlib.Core.Path.{◌≡◌}
use mathlib.Core.Logic.{◌↔◌}
use mathlib.Core.Bool.{Bool, true, false, ◌&&◌, ◌||◌}
use mathlib.Core.List.{List, [], ◌∷◌}
use native.Mathlib.Omega.{arith}
use llmbase.Prelude.Tests.{nat_eqb, nat_eqb_iff}

pub record PartialEq {ℓ} (A : Type ℓ) : Type ℓ where
  pub same : A → A → Bool
  pub same_iff : (a b : A) → (same a b ≡ true) ↔ (a ≡ b)

infix 50 ◌==◌
abbrev pub ◌==◌ {ℓ} : {A : Type ℓ} ⦃e : PartialEq A⦄ → A → A → Bool
◌==◌ ⦃e⦄ = e.same

instance abbrev pub nat_PartialEq : PartialEq ℕ
nat_PartialEq = record { same = nat_eqb; same_iff = nat_eqb_iff }

instance abbrev pub string_PartialEq : PartialEq String
string_PartialEq = record { same = str_eq; same_iff = eq_iff }

abbrev pub bytes_eqb : List ℕ → List ℕ → Bool
bytes_eqb [] [] = true
bytes_eqb (x ∷ xs) (y ∷ ys) = nat_eqb x y && bytes_eqb xs ys
bytes_eqb _ _ = false

pub bytes_eqb_iff : (a b : List ℕ) → (bytes_eqb a b ≡ true) ↔ (a ≡ b)
bytes_eqb_iff (x ∷ a) (y ∷ b) = ground (arith, bytes_eqb_iff a b)
bytes_eqb_iff _ _ = ground arith

instance abbrev pub bytes_PartialEq : PartialEq (List ℕ)
bytes_PartialEq = record { same = bytes_eqb; same_iff = bytes_eqb_iff }

pub str_eq_iff : (s t : String) → (str_eq s t ≡ true) ↔ (s ≡ t)
str_eq_iff = eq_iff

-- `format!("{}{}", s, t)`
abbrev pub concat : String → String → String
concat s t = str_append s t

-- Code points of a text: its bytes, where it is ASCII.
abbrev pub codes : String → List ℕ
codes String.[] = []
codes (String.◌∷◌ c s) = code c ∷ codes s

module _ {ℓ} {A : Type ℓ} ⦃e : PartialEq A⦄ where
  -- `[..].contains(&a)`, `matches!(a, x | y | ..)`
  abbrev pub one_of : A → List A → Bool
  one_of a [] = false
  one_of a (x ∷ xs) = a == x || one_of a xs
