-- ===== src/Base/Members.antt =====
-- Lists whose members can be compared, and what all members of a list have.
use mathlib.Core.Path.{subst, ◌≡◌, refl, sym}
use mathlib.Core.Logic.{ite}
use mathlib.Core.Bool.{Bool, true, false}
use mathlib.Core.List.{List, [], ◌∷◌, ◌++◌, map, cons≢nil, head-eq_of_cons-eq, tail-eq_of_cons-eq}
use native.Mathlib.Omega.{arith}

module _ {ℓ} {A : Type ℓ} where
  unfoldable pub dec_list : Discrete A → Discrete (List A)
  dec_list dec [] [] = yes refl
  dec_list dec [] (y ∷ ys) = no (λ e. cons≢nil (sym e))
  dec_list dec (x ∷ xs) [] = no cons≢nil
  dec_list dec (x ∷ xs) (y ∷ ys) = both (dec x y) (dec_list dec xs ys)
    where
      both : Dec (x ≡ y) → Dec (xs ≡ ys) → Dec (x ∷ xs ≡ y ∷ ys)
      both (yes p) (yes q) = yes (λ i. p i ∷ q i)
      both (yes p) (no n) = no (λ e. n (tail-eq_of_cons-eq e))
      both (no n) q = no (λ e. n (head-eq_of_cons-eq e))

  -- Some entry of the list, as a place in it.
  pub data Among (a : A) : List A → Type ℓ where
    first : {xs : List A} → Among a (a ∷ xs)
    later : {x : A} {xs : List A} → Among a xs → Among a (x ∷ xs)

  abbrev pub All : (A → Type 0) → List A → Type 0
  All P [] = Unit {0}
  All P (x ∷ xs) = P x × All P xs

  pub All-append : (P : A → Type 0) (xs ys : List A) → All P xs → All P ys → All P (xs ++ ys)
  All-append P [] ys h k = k
  All-append P (x ∷ xs) ys (p, h) k = (p, All-append P xs ys h k)

  pub All-Among : (P : A → Type 0) {a : A} (xs : List A) → All P xs → Among a xs → P a
  All-Among P [] h m = elim m [ ]
  All-Among P (x ∷ xs) (p, h) first = p
  All-Among P (x ∷ xs) (p, h) (later m) = All-Among P xs h m

  -- Whether the list has the entry.
  unfoldable pub has_member : Discrete A → A → List A → Bool
  has_member dec a [] = false
  has_member dec a (x ∷ xs) = ite (dec x a) true (has_member dec a xs)

  pub has_member_of_Among :
      (dec : Discrete A) {a : A} (xs : List A) → Among a xs → has_member dec a xs ≡ true
  unfolding has_member
  has_member_of_Among dec [] m = elim m [ ]
  has_member_of_Among dec (x ∷ xs) first = ground arith
  has_member_of_Among dec (x ∷ xs) (later m) = ground (arith, has_member_of_Among dec xs m)

pub Among-has_member {ℓ} :
    {A : Type ℓ} (dec : Discrete A) {a : A} (xs : List A) → has_member dec a xs ≡ true → Among a xs
unfolding has_member
Among-has_member dec [] e = absurd (ground arith)
Among-has_member dec {a = a} (x ∷ xs) e = elim (dec x a) [
  | yes p ↦ subst (λ y. Among y (x ∷ xs)) p first
  | no n ↦ later (Among-has_member dec xs (ground arith))
]

pub Among-map {ℓ} :
    {A B : Type ℓ} (f : A → B) {a : A} (xs : List A) → Among a xs → Among (f a) (map f xs)
Among-map f [] m = elim m [ ]
Among-map f (x ∷ xs) first = first
Among-map f (x ∷ xs) (later m) = later (Among-map f xs m)
