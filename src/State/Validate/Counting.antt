-- ===== src/State/Validate/Counting.antt =====
-- Finite counting behind validateSession: a list of ids against the keys of a map.
use torrcli.Base.{
  ◌≤◌, ◌≡◌, List, [], ◌∷◌, arith, length, count, hit_self, present, remove, present-remove,
  length-remove, ℕ_discrete, present-le_one, map,
}

module _ {K V : Type 0} where
  abbrev pub keys : List (K × V) → List K
  keys = map (λ e. e.0)

module _ {K V : Type 0} (dec : Discrete K) where
  -- Each key of the map stands in the list exactly once, and nothing else does.
  abbrev pub Agrees : List K → List (K × V) → Type 0
  Agrees order m = (k : K) → count dec k order ≡ present dec k m

  rest_covered :
      (x : K) (xs : List K) (m : List (K × V))
      → ((k : K) → count dec k (x ∷ xs) ≤ present dec k m)
      → (k : K) → count dec k xs ≤ present dec k (remove dec x m)
  rest_covered x xs m h k = elim (dec x k) [
    | yes p ↦ ground (arith, h k, present-remove dec k x m, present-le_one dec k m)
    | no p ↦ ground (arith, h k, present-remove dec k x m)
  ]

  pub length-le_of_covered :
      (order : List K) (m : List (K × V))
      → ((k : K) → count dec k order ≤ present dec k m)
      → length order ≤ length m
  length-le_of_covered [] m h = omega arith
  length-le_of_covered (x ∷ xs) m h = omega (
    arith,
    length-le_of_covered xs (remove dec x m) (rest_covered x xs m h),
    length-remove dec x m,
    h x,
    hit_self dec x,
  )

  without_covered :
      (order : List K) (m : List (K × V)) (x : K)
      → ((k : K) → count dec k order ≤ present dec k m)
      → count dec x order ≡ 0
      → (k : K) → count dec k order ≤ present dec k (remove dec x m)
  without_covered order m x h z k = ground (arith, h k, present-remove dec k x m)

  -- With as many ids as entries, no key is left out.
  pub Agrees-of_covered :
      (order : List K) (m : List (K × V))
      → ((k : K) → count dec k order ≤ present dec k m)
      → length order ≡ length m
      → Agrees order m
  Agrees-of_covered order m h same k = elim (ℕ_discrete (count dec k order) 0) [
    | yes z ↦ omega (
      arith,
      length-remove dec k m,
      length-le_of_covered order (remove dec k m) (without_covered order m k h z),
    )
    | no n ↦ omega (arith, h k, present-le_one dec k m)
  ]
