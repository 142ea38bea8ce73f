-- ===== src/Torrents/Loop.antt =====
-- internal/daemon/session.go: `run`, which hands a command to the goroutine of newTorrentSession
-- and waits for its answer, while the daemon's context may end.
pub mod Serving
use torrcli.Base.{◌≡◌, refl, Bool, true, false, arith, Exec, Result, err, canceled, ◌∙◌}
use torrcli.Torrents.{SessionState}

-- How a call of `run` ends: it is served, or its context ends before the command is received, or
-- after that and before the answer is read.
pub data Delivery : Type 0 where
  delivered dropped abandoned : Delivery

unfoldable pub run : {A : Type 0} → Delivery → Exec SessionState A → Exec SessionState A
run delivered apply s = apply s
run dropped apply s = (s, err canceled)
run abandoned apply s = ((apply s).0, err canceled)

pub data Caller (A : Type 0) : Type 0 where
  sending : Caller A
  waiting : Result A → Caller A
  finished : Result A → Caller A

-- The goroutine and one caller. `detached` is a caller under `context.WithoutCancel`; any other
-- has the daemon's context, which is `done` from shutdown on.
pub record Point (A : Type 0) : Type 0 where
  pub done : Bool
  pub detached : Bool
  pub stopped : Bool
  pub state : SessionState
  pub caller : Caller A

abbrev pub start : {A : Type 0} → Bool → SessionState → Point A
start detached s = record {
  done = false;
  detached = detached;
  stopped = false;
  state = s;
  caller = sending;
}

module _ {A : Type 0} (apply : Exec SessionState A) where
  pub data Step (p q : Point A) : Type 0 where
    shut_down : q ≡ record p { done = true } → Step p q
    exit : p.done ≡ true → q ≡ record p { stopped = true } → Step p q
    receive :
        p.stopped ≡ false
        → p.caller ≡ sending
        → q ≡ record p { state = (apply p.state).0; caller = waiting (apply p.state).1 }
        → Step p q
    give_up_sending :
        p.done ≡ true
        → p.detached ≡ false
        → p.caller ≡ sending
        → q ≡ record p { caller = finished (err canceled) }
        → Step p q
    give_up_waiting :
        (r : Result A)
        → p.done ≡ true
        → p.detached ≡ false
        → p.caller ≡ waiting r
        → q ≡ record p { caller = finished (err canceled) }
        → Step p q
    answer : (r : Result A) → p.caller ≡ waiting r → q ≡ record p { caller = finished r } → Step p q

  pub data Reach (p : Point A) : Point A → Type 0 where
    here : Reach p p
    next : {q r : Point A} → Reach p q → Step q r → Reach p r

  -- What a point that is reached can look like: the command was applied at most once, and the
  -- caller has an answer that one of the three deliveries explains.
  pub data Explained (s : SessionState) (q : Point A) : Type 0 where
    not_yet : q.caller ≡ sending → q.state ≡ s → Explained s q
    received : q.caller ≡ waiting (apply s).1 → q.state ≡ (apply s).0 → Explained s q
    ended :
        (d : Delivery)
        → q.caller ≡ finished (run d apply s).1
        → q.state ≡ (run d apply s).0
        → Explained s q

  -- A step that leaves the caller and the state alone.
  same_Explained :
      (s : SessionState) {p q : Point A}
      → q.caller ≡ p.caller
      → q.state ≡ p.state
      → Explained s p
      → Explained s q
  same_Explained s e f (not_yet a b) = not_yet (e ∙ a) (f ∙ b)
  same_Explained s e f (received a b) = received (e ∙ a) (f ∙ b)
  same_Explained s e f (ended d a b) = ended d (e ∙ a) (f ∙ b)

  receive_Explained :
      (s : SessionState) {p q : Point A}
      → p.caller ≡ sending
      → q ≡ record p { state = (apply p.state).0; caller = waiting (apply p.state).1 }
      → Explained s p
      → Explained s q
  receive_Explained s c e (not_yet a b) = received (cc) (cc)
  receive_Explained s c e (received a b) = absurd (cc)
  receive_Explained s c e (ended d a b) = absurd (cc)

  drop_Explained :
      (s : SessionState) {p q : Point A}
      → p.caller ≡ sending
      → q ≡ record p { caller = finished (err canceled) }
      → Explained s p
      → Explained s q
  unfolding run
  drop_Explained s c e (not_yet a b) = ended dropped (cc) (cc)
  drop_Explained s c e (received a b) = absurd (cc)
  drop_Explained s c e (ended d a b) = absurd (cc)

  abandon_Explained :
      (s : SessionState) (r : Result A) {p q : Point A}
      → p.caller ≡ waiting r
      → q ≡ record p { caller = finished (err canceled) }
      → Explained s p
      → Explained s q
  unfolding run
  abandon_Explained s r c e (not_yet a b) = absurd (cc)
  abandon_Explained s r c e (received a b) = ended abandoned (cc) (cc)
  abandon_Explained s r c e (ended d a b) = absurd (cc)

  answer_Explained :
      (s : SessionState) (r : Result A) {p q : Point A}
      → p.caller ≡ waiting r
      → q ≡ record p { caller = finished r }
      → Explained s p
      → Explained s q
  unfolding run
  answer_Explained s r c e (not_yet a b) = absurd (cc)
  answer_Explained s r c e (received a b) = ended delivered (cc) (cc)
  answer_Explained s r c e (ended d a b) = absurd (cc)

  Step-Explained : (s : SessionState) {p q : Point A} → Step p q → Explained s p → Explained s q
  Step-Explained s (shut_down e) x = same_Explained s (cc) (cc) x
  Step-Explained s (exit h e) x = same_Explained s (cc) (cc) x
  Step-Explained s (receive h c e) x = receive_Explained s c e x
  Step-Explained s (give_up_sending h k c e) x = drop_Explained s c e x
  Step-Explained s (give_up_waiting r h k c e) x = abandon_Explained s r c e x
  Step-Explained s (answer r c e) x = answer_Explained s r c e x

  -- Whatever the goroutine, the caller and the shutdown do in turn, the command has been applied
  -- at most once, and an answer is one that `run` gives for some delivery, with its state.
  pub Reach-Explained :
      (detached : Bool) (s : SessionState) {q : Point A}
      → Reach (start detached s) q
      → Explained s q
  Reach-Explained detached s here = not_yet refl refl
  Reach-Explained detached s (next r st) = Step-Explained s st (Reach-Explained detached s r)

  -- A caller whose context cannot end, before a goroutine that has stopped.
  pub record IsStuck (p : Point A) : Type 0 where
    pub stopped : p.stopped ≡ true
    pub detached : p.detached ≡ true
    pub sending : p.caller ≡ sending

  Step-IsStuck : {p q : Point A} → IsStuck p → Step p q → IsStuck q
  Step-IsStuck h (shut_down e) = ground arith
  Step-IsStuck h (exit d e) = ground arith
  Step-IsStuck h (receive d c e) = absurd (ground arith)
  Step-IsStuck h (give_up_sending d k c e) = absurd (ground arith)
  Step-IsStuck h (give_up_waiting r d k c e) = absurd (ground arith)
  Step-IsStuck h (answer r c e) = absurd (ground arith)

  -- Once the goroutine has stopped, a call under `context.WithoutCancel` never gets an answer: in
  -- every point that can be reached the caller is still sending.
  pub Reach-IsStuck : {p q : Point A} → IsStuck p → Reach p q → IsStuck q
  Reach-IsStuck h here = h
  Reach-IsStuck h (next r st) = Step-IsStuck (Reach-IsStuck h r) st
