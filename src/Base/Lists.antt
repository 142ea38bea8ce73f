-- ===== src/Base/Lists.antt =====
-- Lists measured and indexed by native numbers, and the counts of their members.
use Prim.Native.Nat.{ℕ, zero, suc, ◌+◌, ◌-◌, ◌≤◌, ◌<◌}
use mathlib.Core.Path.{◌≡◌, refl, ap}
use mathlib.Core.Logic.{ite, if_pos, if_neg, inl, inr}
use mathlib.Core.List.{List, [], ◌∷◌, ◌++◌, map}
use mathlib.Core.Option.{Option, none, some}
use native.Mathlib.Omega.{arith}
use torrcli.Base.Text.{Option-cases}

module _ {ℓ} {A : Type ℓ} where
  abbrev pub length : List A → ℕ
  length [] = 0
  length (x ∷ xs) = suc (length xs)

  abbrev pub get_elem? : List A → ℕ → Option A
  get_elem? [] i = none
  get_elem? (x ∷ xs) zero = some x
  get_elem? (x ∷ xs) (suc i) = get_elem? xs i

  abbrev pub set : List A → ℕ → A → List A
  set [] i v = []
  set (x ∷ xs) zero v = v ∷ xs
  set (x ∷ xs) (suc i) v = x ∷ set xs i v

  pub length-append : (xs ys : List A) → length (xs ++ ys) ≡ length xs + length ys
  length-append [] ys = omega arith
  length-append (x ∷ xs) ys = omega (arith, length-append xs ys)

  pub length-set : (xs : List A) (i : ℕ) (v : A) → length (set xs i v) ≡ length xs
  length-set [] i v = refl
  length-set (x ∷ xs) zero v = refl
  length-set (x ∷ xs) (suc i) v = ap suc (length-set xs i v)

  -- `l[i], l[j] = l[j], l[i]`, for two indices in range.
  unfoldable pub swap : List A → ℕ → ℕ → List A
  swap l i j = elim (get_elem? l i) [
    | none ↦ l
    | some a ↦ elim (get_elem? l j) [ none ↦ l | some b ↦ set (set l i b) j a ]
  ]

module _ {ℓ} {A : Type ℓ} where
  pub length-map {κ} : {B : Type κ} (xs : List A) (f : A → B) → length (map f xs) ≡ length xs
  length-map [] f = refl
  length-map (x ∷ xs) f = ap suc (length-map xs f)

module _ {ℓ} {A : Type ℓ} (dec : Discrete A) where
  -- 1 if the two are equal, and 0 if not.
  abbrev pub hit : A → A → ℕ
  hit x a = ite (dec x a) 1 0

  abbrev pub count : A → List A → ℕ
  count a [] = 0
  count a (x ∷ xs) = hit x a + count a xs

  -- `append(l[:i], l[i+1:]...)` at the first `i` with `l[i] == a`.
  unfoldable pub erase : A → List A → List A
  erase a [] = []
  erase a (x ∷ xs) = ite (dec x a) xs (x ∷ erase a xs)

  -- The loop `for i, current := range l { if current == a { index = i; break } }`.
  unfoldable pub index_of : A → List A → Option ℕ
  index_of a [] = none
  index_of a (x ∷ xs) =
      ite (dec x a) (some 0) (elim (index_of a xs) [ none ↦ none | some i ↦ some (suc i) ])

  pub count-append : (a : A) (xs ys : List A) → count a (xs ++ ys) ≡ count a xs + count a ys
  count-append a [] ys = omega arith
  count-append a (x ∷ xs) ys = omega (arith, count-append a xs ys)

  pub hit_self : (a : A) → hit a a ≡ 1
  hit_self a = ground arith

  -- What differs from `a` and equals `b` does not lie on the pair.
  hit_apart : (a b x : A) → ¬ (x ≡ a) → hit x b + hit a b ≤ 1
  hit_apart a b x p = elim (dec x b) [
    | yes q ↦ elim (dec a b) [
      | yes r ↦ absurd (p (cc))
      | no r ↦ rw (if_pos _ q, if_neg _ r) (omega arith)
    ]
    | no q ↦ ground arith
  ]

  pub hit_ne : (x a : A) → ¬ (x ≡ a) → hit x a ≡ 0
  hit_ne x a p = if_neg (dec x a) p _ _

  pub count-erase : (b a : A) (xs : List A) → count b (erase a xs) ≡ count b xs - hit a b
  unfolding erase
  count-erase b a [] = ground arith
  count-erase b a (x ∷ xs) = elim (dec x a) [
    | yes p ↦ rw (if_pos _ p, p) (omega arith)
    | no p ↦ rw (if_neg _ p) (omega (arith, count-erase b a xs, hit_apart a b x p))
  ]

  pub length-erase : (a : A) (xs : List A) → 0 < count a xs → suc (length (erase a xs)) ≡ length xs
  unfolding erase
  length-erase a [] h = absurd (omega arith)
  length-erase a (x ∷ xs) h = elim (dec x a) [
    | yes p ↦ rw (if_pos _ p) refl
    | no p ↦ rw (if_neg _ p) (ap suc (length-erase a xs (omega (arith, hit_ne x a p))))
  ]

  pub index_of-none : (a : A) (xs : List A) → index_of a xs ≡ none → count a xs ≡ 0
  unfolding index_of
  index_of-none a [] h = refl
  index_of-none a (x ∷ xs) h = ground (arith, index_of-none a xs)

  pub index_of-count : (a : A) (xs : List A) (i : ℕ) → index_of a xs ≡ some i → 0 < count a xs
  unfolding index_of
  index_of-count a [] i h = absurd (ground arith)
  index_of-count a (x ∷ xs) i h = elim (dec x a) [
    | yes p ↦ ground arith
    | no p ↦ elim (Option-cases (index_of a xs)) [
      | inl e ↦ absurd (ground arith)
      | inr (j, e) ↦ ground (arith, index_of-count a xs j e)
    ]
  ]

  pub index_of-some :
      (a : A) (xs : List A) (i : ℕ) → index_of a xs ≡ some i → get_elem? xs i ≡ some a
  unfolding index_of
  index_of-some a [] i h = ground arith
  index_of-some a (x ∷ xs) zero h = ground arith
  index_of-some a (x ∷ xs) (suc i) h = ground (arith, index_of-some a xs i)

  pub count-set :
      (x : A) (xs : List A) (i : ℕ) (a v : A)
      → get_elem? xs i ≡ some a
      → count x (set xs i v) + hit a x ≡ count x xs + hit v x
  count-set x [] i a v h = ground arith
  count-set x (y ∷ ys) zero a v h = ground arith
  count-set x (y ∷ ys) (suc i) a v h = omega (arith, count-set x ys i a v h)

  -- Lists with the same counts are of one length.
  pub length-eq_of_counts :
      (xs ys : List A) → ((k : A) → count k xs ≡ count k ys) → length xs ≡ length ys
  length-eq_of_counts [] [] h = refl
  length-eq_of_counts [] (y ∷ ys) h = absurd (omega (arith, h y, hit_self y))
  length-eq_of_counts (x ∷ xs) ys h = omega (
    arith,
    length-eq_of_counts xs (erase x ys) (λ k. omega (arith, h k, count-erase k x ys)),
    length-erase x ys (omega (arith, h x, hit_self x)),
  )
