-- ===== src/Torrents/Loop/Serving.antt =====
-- internal/daemon/session.go: `run` before a shutdown.
use torrcli.Base.{◌≡◌, refl, Bool, false, arith, Exec, Result}
use torrcli.Torrents.{SessionState}
use torrcli.Torrents.Loop.{
  sending, waiting, finished, Point, start, Step, shut_down, exit, receive, give_up_sending,
  give_up_waiting, answer, Reach, here, next,
}

module _ {A : Type 0} (apply : Exec SessionState A) where
  -- Before the shutdown: the goroutine runs, and the caller is at one of the three places.
  data Live (s : SessionState) (q : Point A) : Type 0 where
    unsent : q.stopped ≡ false → q.caller ≡ sending → q.state ≡ s → Live s q
    unread : q.stopped ≡ false → q.caller ≡ waiting (apply s).1 → q.state ≡ (apply s).0 → Live s q
    read : q.stopped ≡ false → q.caller ≡ finished (apply s).1 → q.state ≡ (apply s).0 → Live s q

  Step-done : {p q : Point A} → Step apply p q → q.done ≡ false → p.done ≡ false
  Step-done (shut_down e) n = absurd (ground arith)
  Step-done (exit d e) n = absurd (ground arith)
  Step-done (receive h c e) n = ground arith
  Step-done (give_up_sending d k c e) n = absurd (ground arith)
  Step-done (give_up_waiting r d k c e) n = absurd (ground arith)
  Step-done (answer r c e) n = ground arith

  receive-Live :
      (s : SessionState) {p q : Point A}
      → p.caller ≡ sending
      → q ≡ record p { state = (apply p.state).0; caller = waiting (apply p.state).1 }
      → Live s p
      → Live s q
  receive-Live s c e (unsent a b f) = unread (cc) (cc) (cc)
  receive-Live s c e (unread a b f) = absurd (cc)
  receive-Live s c e (read a b f) = absurd (cc)

  answer-Live :
      (s : SessionState) (r : Result A) {p q : Point A}
      → p.caller ≡ waiting r
      → q ≡ record p { caller = finished r }
      → Live s p
      → Live s q
  answer-Live s r c e (unsent a b f) = absurd (cc)
  answer-Live s r c e (unread a b f) = read (cc) (cc) (cc)
  answer-Live s r c e (read a b f) = absurd (cc)

  Step-Live :
      (s : SessionState) {p q : Point A} → Step apply p q → q.done ≡ false → Live s p → Live s q
  Step-Live s (shut_down e) n l = absurd (ground arith)
  Step-Live s (exit d e) n l = absurd (ground arith)
  Step-Live s (receive h c e) n l = receive-Live s c e l
  Step-Live s (give_up_sending d k c e) n l = absurd (ground arith)
  Step-Live s (give_up_waiting r d k c e) n l = absurd (ground arith)
  Step-Live s (answer r c e) n l = answer-Live s r c e l

  Reach-Live :
      (detached : Bool) (s : SessionState) {q : Point A}
      → Reach apply (start detached s) q
      → q.done ≡ false
      → Live s q
  Reach-Live detached s here n = unsent refl refl refl
  Reach-Live detached s (next r st) n = Step-Live s st n (Reach-Live detached s r (Step-done st n))

  -- The answer of the command is read, with its state in place and no shutdown.
  pub record Served (s : SessionState) (p : Point A) : Type 0 where
    pub point : Point A
    pub reached : Reach apply p point
    pub running : point.done ≡ false
    pub has_answer : point.caller ≡ finished (apply s).1
    pub state : point.state ≡ (apply s).0

  Live-Served : (s : SessionState) (p : Point A) → p.done ≡ false → Live s p → Served s p
  Live-Served s p n (unsent a b f) =
      let q : Point A = record p {
        state = (apply p.state).0;
        caller = waiting (apply p.state).1;
      } in
      record {
        point = record q { caller = finished (apply p.state).1 };
        reached = next (next here (receive a b refl)) (answer (apply p.state).1 refl refl);
        running = n;
        has_answer = cc;
        state = cc;
      }
  Live-Served s p n (unread a b f) = record {
    point = record p { caller = finished (apply s).1 };
    reached = next here (answer (apply s).1 b refl);
    running = n;
    has_answer = refl;
    state = f;
  }
  Live-Served s p n (read a b f) = record {
    point = p;
    reached = here;
    running = n;
    has_answer = b;
    state = f;
  }

  -- As long as the daemon is not shut down, no call is stuck or given up: from every point that is
  -- reached there are steps, without a shutdown, to one where the caller has the answer of its own
  -- command, applied once to the state that was there when the call began.
  pub Reach-Served :
      (detached : Bool) (s : SessionState) (p : Point A)
      → Reach apply (start detached s) p
      → p.done ≡ false
      → Served s p
  Reach-Served detached s p r n = Live-Served s p n (Reach-Live detached s r n)
