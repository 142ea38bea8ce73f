-- ===== src/Base/Text.antt =====
-- Tests: the conditional, comparisons of numbers, equality of texts as a decision.
use Prim.Native.Nat.{ℕ, compare, Ordering}
use Prim.Native.String.{String}
use mathlib.Core.Path.{◌≡◌, refl}
use mathlib.Core.Logic.{◌⊎◌, inl, inr, ite}
use mathlib.Core.Bool.{Bool, true, false}
use mathlib.Core.Option.{Option, none, some}
use native.Mathlib.Omega.{arith}
use text.Mathlib.Text.{◌==◌ as str_eq}
use text.Mathlib.TextEquality.{eq_iff}

abbrev pub ltb : ℕ → ℕ → Bool
ltb a b = elim (compare a b) [ Ordering.lt ↦ true | _ ↦ false ]

abbrev pub leb : ℕ → ℕ → Bool
leb a b = elim (compare a b) [ Ordering.gt ↦ false | _ ↦ true ]

infix 1 if◌then◌else◌
abbrev pub if◌then◌else◌ {ℓ} : {A : Type ℓ} → Bool → A → A → A
if true then x else y = x
if false then x else y = y

-- To split on a computed value and keep the equation.
abbrev pub Bool-cases : (b : Bool) → (b ≡ true) ⊎ (b ≡ false)
Bool-cases true = inl refl
Bool-cases false = inr refl

pub Option-cases {ℓ} : {A : Type ℓ} (o : Option A) → (o ≡ none) ⊎ ((a : A) × (o ≡ some a))
Option-cases none = inl refl
Option-cases (some a) = inr (a, refl)

eq_of_test : (a b : String) → str_eq a b ≡ true → a ≡ b
eq_of_test a b = (eq_iff a b).0

ne_of_test : (a b : String) → str_eq a b ≡ false → ¬ (a ≡ b)
ne_of_test a b h p = ground (arith, (eq_iff a b).1 p)

decide_text : (a b : String) → (str_eq a b ≡ true) ⊎ (str_eq a b ≡ false) → Dec (a ≡ b)
decide_text a b (inl e) = yes (eq_of_test a b e)
decide_text a b (inr e) = no (ne_of_test a b e)

-- `==` of two Go strings.
unfoldable pub dec_str : Discrete String
unfolding decide_text eq_of_test ne_of_test
dec_str a b = decide_text a b (Bool-cases (str_eq a b))

-- A property of the branches is one of the conditional.
pub ite_cases {ℓ} :
    {A : Type 0} {Q : Type 0} (P : A → Type ℓ) (x : Dec Q) {a b : A}
    → (Q → P a)
    → (¬ Q → P b)
    → P (ite x a b)
ite_cases P (yes q) h k = h q
ite_cases P (no q) h k = k q

pub if_cases {ℓ} :
    {A : Type 0} (P : A → Type ℓ) (x : Bool) {a b : A}
    → (x ≡ true → P a)
    → (x ≡ false → P b)
    → P (if x then a else b)
if_cases P true h k = h refl
if_cases P false h k = k refl
