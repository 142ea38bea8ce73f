-- ===== src/Base/Assoc.antt =====
-- Go's maps as association lists.
use Prim.Native.Nat.{ℕ, suc, ◌+◌, ◌≤◌, ◌<◌}
use mathlib.Core.Path.{◌≡◌, refl}
use mathlib.Core.Logic.{ite, ◌≢◌, inl, inr}
use mathlib.Core.List.{List, [], ◌∷◌}
use mathlib.Core.Option.{Option, none, some}
use native.Mathlib.Omega.{arith}
use torrcli.Base.Text.{Option-cases}
use torrcli.Base.Lists.{length}

module _ {K V : Type 0} (dec : Discrete K) where
  -- `v, ok := m[k]`.
  unfoldable pub lookup : K → List (K × V) → Option V
  lookup k [] = none
  lookup k ((j, v) ∷ m) = ite (dec j k) (some v) (lookup k m)

  -- `m[k] = v`.
  unfoldable pub put : K → V → List (K × V) → List (K × V)
  put k v [] = (k, v) ∷ []
  put k v ((j, w) ∷ m) = ite (dec j k) ((k, v) ∷ m) ((j, w) ∷ put k v m)

  -- `delete(m, k)`.
  unfoldable pub remove : K → List (K × V) → List (K × V)
  remove k [] = []
  remove k ((j, v) ∷ m) = ite (dec j k) (remove k m) ((j, v) ∷ remove k m)

  -- 1 if the key has a value, and 0 if not.
  unfoldable pub present : K → List (K × V) → ℕ
  present k m = elim (lookup k m) [ none ↦ 0 | some v ↦ 1 ]

  pub lookup-put :
      (j k : K) (v : V) (m : List (K × V))
      → lookup j (put k v m) ≡ ite (dec k j) (some v) (lookup j m)
  unfolding lookup put
  lookup-put j k v [] = refl
  lookup-put j k v ((i, w) ∷ m) = ground (arith, lookup-put j k v m)

  pub lookup-put_self : (k : K) (v : V) (m : List (K × V)) → lookup k (put k v m) ≡ some v
  lookup-put_self k v m = ground (arith, lookup-put k k v m)

  pub lookup-put_ne :
      (j k : K) (v : V) (m : List (K × V)) → k ≢ j → lookup j (put k v m) ≡ lookup j m
  lookup-put_ne j k v m h = ground (arith, lookup-put j k v m)

  pub lookup-remove :
      (j k : K) (m : List (K × V)) → lookup j (remove k m) ≡ ite (dec k j) none (lookup j m)
  unfolding lookup remove
  lookup-remove j k [] = ground arith
  lookup-remove j k ((i, w) ∷ m) = ground (arith, lookup-remove j k m)

  pub present_of_some : (k : K) (m : List (K × V)) {v : V} → lookup k m ≡ some v → present k m ≡ 1
  unfolding present
  present_of_some k m h = ground arith

  pub present_of_none : (k : K) (m : List (K × V)) → lookup k m ≡ none → present k m ≡ 0
  unfolding present
  present_of_none k m h = ground arith

  pub present-le_one : (k : K) (m : List (K × V)) → present k m ≤ 1
  unfolding present
  present-le_one k m = ground arith

  pub present-put :
      (j k : K) (v : V) (m : List (K × V)) → present j (put k v m) ≡ ite (dec k j) 1 (present j m)
  unfolding present
  present-put j k v m = ground (arith, lookup-put j k v m)

  pub present-remove :
      (j k : K) (m : List (K × V)) → present j (remove k m) ≡ ite (dec k j) 0 (present j m)
  unfolding present
  present-remove j k m = ground (arith, lookup-remove j k m)

  -- A key that has a value takes at least one entry.
  pub length-remove : (k : K) (m : List (K × V)) → length (remove k m) + present k m ≤ length m
  unfolding remove present lookup
  length-remove k [] = omega arith
  length-remove k ((j, v) ∷ m) = ground (arith, length-remove k m)

  pub length-put_new :
      (k : K) (v : V) (m : List (K × V)) → lookup k m ≡ none → length (put k v m) ≡ suc (length m)
  unfolding lookup put
  length-put_new k v [] h = refl
  length-put_new k v ((j, w) ∷ m) h = ground (arith, length-put_new k v m)

  pub lookup_of_present :
      (k : K) (m : List (K × V)) → 0 < present k m → (v : V) × (lookup k m ≡ some v)
  unfolding present
  lookup_of_present k m h = elim (Option-cases (lookup k m)) [
    | inl e ↦ absurd (ground arith)
    | inr found ↦ found
  ]
