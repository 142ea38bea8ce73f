-- ===== src/Base/Outcome.antt =====
-- A Go call that returns a value and an `error`, and methods on a state that do so. What a method
-- wrote before it failed stays written, so the state comes back beside the error too.
pub mod Triple
use Prim.Native.Nat.{ℕ}
use Prim.Native.String.{String}

-- The errors that the program makes itself, and `other` for those that the libraries report. An
-- error keeps its parts and not its text; `wrap` is `fmt.Errorf("prefix: %w", err)`.
pub data Error : Type 0 where
  not_found : String → Error
  canceled : Error
  not_exist : Error
  plain : String → Error
  about : String → String → Error
  wrap : String → Error → Error
  other : ℕ → Error

pub data Result {ℓ} (A : Type ℓ) : Type ℓ where
  ok : A → Result A
  err : Error → Result A

-- `err == nil`.
pub data IsOk {ℓ} {A : Type ℓ} : Result A → Type ℓ where
  is_ok : (a : A) → IsOk (ok a)

abbrev pub Exec : Type 0 → Type 0 → Type 0
Exec S A = S → S × Result A

module _ {S A : Type 0} where
  abbrev pub pure : A → Exec S A
  pure a s = (s, ok a)

  abbrev pub fail : Error → Exec S A
  fail e s = (s, err e)

  -- A call whose result is not looked at: `_ = f()`.
  abbrev pub ignore : Exec S A → Exec S (Unit {0})
  ignore m s = ((m s).0, ok tt)

  -- `if err != nil { return err }` behind a call of another type.
  abbrev pub lift : Result A → Exec S A
  lift r s = (s, r)

module _ {S A B : Type 0} where
  abbrev pub continue : S → Result A → (A → Exec S B) → S × Result B
  continue s (ok a) f = f a s
  continue s (err e) f = (s, err e)

  infixl 5 ◌>>=◌
  abbrev pub ◌>>=◌ : Exec S A → (A → Exec S B) → Exec S B
  ◌>>=◌ m f s = continue (m s).0 (m s).1 f

  abbrev pub after_failure : S → Result A → Exec S B → S × Result A
  after_failure s (ok a) undo = (s, ok a)
  after_failure s (err e) undo = ((undo s).0, err e)

  -- `if err := m(); err != nil { _ = undo(); return err }`.
  abbrev pub or_undo : Exec S A → Exec S B → Exec S A
  or_undo m undo s = after_failure (m s).0 (m s).1 undo

infixl 5 ◌>>◌
abbrev pub ◌>>◌ : {S B : Type 0} → Exec S (Unit {0}) → Exec S B → Exec S B
m >> k = m >>= λ _. k
