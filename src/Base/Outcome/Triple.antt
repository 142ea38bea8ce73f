-- ===== src/Base/Outcome/Triple.antt =====
-- What an action does to a property of the state: `Triple P m Q R` says that from a state with `P`
-- it succeeds with a result and a state that have `Q`, or fails in a state that has `R`.
use torrcli.Base.Outcome.{
  Error, Result, ok, err, Exec, pure, fail, ignore, continue, after_failure, or_undo, ◌>>=◌, ◌>>◌,
}

module _ {S A : Type 0} where
  abbrev pub Post : (A → S → Type 0) → (S → Type 0) → S → Result A → Type 0
  Post Q R s (ok a) = Q a s
  Post Q R s (err e) = R s

  pub record Triple (P : S → Type 0) (m : Exec S A) (Q : A → S → Type 0) (R : S → Type 0)
      : Type 0 where
    pub at : (s : S) → P s → Post Q R (m s).0 (m s).1

  -- An action that keeps a property, whether it succeeds or fails.
  abbrev pub Keeps : (S → Type 0) → Exec S A → Type 0
  Keeps P m = Triple P m (λ a s. P s) P

module _ {S A : Type 0} {P : S → Type 0} {R : S → Type 0} where
  pub triple_pure : {Q : A → S → Type 0} (a : A) → ((s : S) → P s → Q a s) → Triple P (pure a) Q R
  triple_pure a k = record { at = k }

  pub triple_fail : {Q : A → S → Type 0} (e : Error) → ((s : S) → P s → R s) → Triple P (fail e) Q R
  triple_fail e k = record { at = k }

module _ {S A B : Type 0} (Q : A → S → Type 0) (R : S → Type 0) where
  Post-continue :
      (Q' : B → S → Type 0) (s : S) (r : Result A) (f : A → Exec S B)
      → Post Q R s r
      → ((a : A) → Triple (Q a) (f a) Q' R)
      → Post Q' R (continue s r f).0 (continue s r f).1
  Post-continue Q' s (ok a) f h k = (k a).at s h
  Post-continue Q' s (err e) f h k = h

  post_undone : (s : S) (r : Result B) → Post (λ b s'. R s') R s r → R s
  post_undone s (ok b) h = h
  post_undone s (err e) h = h

  Post-after_failure :
      (R' : S → Type 0) (s : S) (r : Result A) (undo : Exec S B)
      → Post Q R' s r
      → Triple R' undo (λ b s'. R s') R
      → Post Q R (after_failure s r undo).0 (after_failure s r undo).1
  Post-after_failure R' s (ok a) undo h k = h
  Post-after_failure R' s (err e) undo h k = post_undone (undo s).0 (undo s).1 (k.at s h)

module _ {S A B : Type 0} {P R : S → Type 0} {Q : A → S → Type 0} where
  pub triple_bind :
      {m : Exec S A} {f : A → Exec S B} {Q' : B → S → Type 0}
      → Triple P m Q R
      → ((a : A) → Triple (Q a) (f a) Q' R)
      → Triple P (m >>= f) Q' R
  triple_bind {m} {f} {Q'} t k = record {
    at = λ s h. Post-continue Q R Q' (m s).0 (m s).1 f (t.at s h) k;
  }

  pub triple_or_undo :
      {m : Exec S A} {undo : Exec S B} {R' : S → Type 0}
      → Triple P m Q R'
      → Triple R' undo (λ b s. R s) R
      → Triple P (or_undo m undo) Q R
  triple_or_undo {m} {undo} {R'} t k = record {
    at = λ s h. Post-after_failure Q R R' (m s).0 (m s).1 undo (t.at s h) k;
  }

module _ {S A : Type 0} (Q Q' : A → S → Type 0) (R R' : S → Type 0) where
  Post-weaken :
      (s : S) (r : Result A)
      → ((a : A) (s : S) → Q a s → Q' a s)
      → ((s : S) → R s → R' s)
      → Post Q R s r
      → Post Q' R' s r
  Post-weaken s (ok a) k l h = k a s h
  Post-weaken s (err e) k l h = l s h

module _ {S A : Type 0} {P : S → Type 0} where
  -- A result that is not looked at.
  pub triple_ignore :
      {m : Exec S A} {Q R : S → Type 0}
      → Triple P m (λ a s. Q s) Q
      → Triple P (ignore m) (λ a s. Q s) R
  triple_ignore {m} {Q} {R} t = record {
    at = λ s h. post_undone {A = A} (λ a s'. Q s') Q (m s).0 (m s).1 (t.at s h);
  }

  pub triple_weaken :
      {m : Exec S A} {P' : S → Type 0} {Q Q' : A → S → Type 0} {R R' : S → Type 0}
      → ((s : S) → P' s → P s)
      → ((a : A) (s : S) → Q a s → Q' a s)
      → ((s : S) → R s → R' s)
      → Triple P m Q R
      → Triple P' m Q' R'
  triple_weaken {m} {Q} {Q'} {R} {R'} j k l t = record {
    at = λ s h. Post-weaken Q Q' R R' (m s).0 (m s).1 k l (t.at s (j s h));
  }

module _ {S B : Type 0} {P Q R : S → Type 0} where
  pub triple_then :
      {m : Exec S (Unit {0})} {f : Exec S B} {Q' : B → S → Type 0}
      → Triple P m (λ u s. Q s) R
      → Triple Q f Q' R
      → Triple P (m >> f) Q' R
  triple_then t k = triple_bind t (λ u. k)
