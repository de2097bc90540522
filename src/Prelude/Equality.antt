-- ===== src/Prelude/Equality.antt =====
-- Decidable equality as an interface, one `==` for every type of key.
use Prim.Native.Nat.{ℕ}
use Prim.Native.String.{String}
use mathlib.Core.Path.{◌≡◌, refl}
use mathlib.Core.Logic.{◌↔◌, ◌≢◌}
use mathlib.Core.Bool.{Bool, true, false, ◌||◌}
use mathlib.Core.List.{List, [], ◌∷◌}
use mathlib.Core.Option.{Option, none, some}
use native.Mathlib.Omega.{arith}
use text.Mathlib.Text.{◌==◌ as str_eq}
use text.Mathlib.TextEquality.{eq_iff}
use microtak_server.Prelude.Tests.{nat_eqb, nat_eqb_iff, if◌then◌else◌}

-- A test of a type, and that it decides equality.
pub record Eq {ℓ} (K : Type ℓ) : Type ℓ where
  pub beq : (x y : K) → Bool
  pub beq_iff : (x y : K) → (beq x y ≡ true) ↔ (x ≡ y)

infix 50 ◌==◌
abbrev pub ◌==◌ {ℓ} : {K : Type ℓ} ⦃eq : Eq K⦄ → (x y : K) → Bool
◌==◌ ⦃eq⦄ x y = eq.beq x y

instance abbrev pub nat_eq : Eq ℕ
nat_eq = record { beq = nat_eqb; beq_iff = nat_eqb_iff }

instance abbrev pub string_eq : Eq String
string_eq = record { beq = str_eq; beq_iff = eq_iff }

module _ {ℓ} {A : Type ℓ} ⦃e : Eq A⦄ where
  pub eq_refl : (k : A) → (k == k) ≡ true
  eq_refl k = (e.beq_iff k k).1 refl

  pub eq_ne : (k j : A) → k ≢ j → (k == j) ≡ false
  eq_ne k j h = ground (arith, e.beq_iff k j)

  abbrev pub option_eqb : Option A → Option A → Bool
  option_eqb none none = true
  option_eqb (some a) (some b) = a == b
  option_eqb _ _ = false

  pub option_eqb_iff : (a b : Option A) → (option_eqb a b ≡ true) ↔ (a ≡ b)
  option_eqb_iff none none = ground arith
  option_eqb_iff (some a) (some b) = ground (arith, e.beq_iff a b)
  option_eqb_iff none (some b) = ground arith
  option_eqb_iff (some a) none = ground arith

  instance abbrev pub option_eq : Eq (Option A)
  option_eq = record { beq = option_eqb; beq_iff = option_eqb_iff }

  -- `contains` of a slice.
  abbrev pub mem : A → List A → Bool
  mem a [] = false
  mem a (x ∷ xs) = x == a || mem a xs

  abbrev pub list_eqb : List A → List A → Bool
  list_eqb [] [] = true
  list_eqb (a ∷ xs) (b ∷ ys) = let rest = list_eqb xs ys in if a == b then rest else false
  list_eqb _ _ = false

  pub list_eqb_iff : (a b : List A) → (list_eqb a b ≡ true) ↔ (a ≡ b)
  list_eqb_iff [] [] = ground arith
  list_eqb_iff (a ∷ xs) (b ∷ ys) = ground (arith, e.beq_iff a b, list_eqb_iff xs ys)
  list_eqb_iff [] (b ∷ ys) = ground arith
  list_eqb_iff (a ∷ xs) [] = ground arith

  instance abbrev pub list_eq : Eq (List A)
  list_eq = record { beq = list_eqb; beq_iff = list_eqb_iff }

-- `derive(PartialEq)` of an enumeration.
abbrev pub discrete_beq {ℓ} : {A : Type ℓ} → Discrete A → A → A → Bool
discrete_beq d x y = elim (d x y) [ yes p ↦ true | no p ↦ false ]

pub discrete_beq_iff {ℓ} :
    {A : Type ℓ} (d : Discrete A) (x y : A) → (discrete_beq d x y ≡ true) ↔ (x ≡ y)
discrete_beq_iff d x y =
    elim (d x y) as (λ e. (elim e [ yes p ↦ true | no p ↦ false ] ≡ true) ↔ (x ≡ y)) [
      | yes p ↦ (λ h. p, λ h. refl)
      | no p ↦ (λ h. cc, λ h. absurd (p h))
    ]

abbrev pub discrete_eq {ℓ} : {A : Type ℓ} → Discrete A → Eq A
discrete_eq d = record { beq = discrete_beq d; beq_iff = discrete_beq_iff d }
