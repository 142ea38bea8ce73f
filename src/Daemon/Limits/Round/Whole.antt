-- ===== src/Daemon/Limits/Round/Whole.antt =====
-- internal/daemon/scheduler.go: a whole round, over the torrents that the daemon shows.
use torrcli.Base.{
  ◌+◌, ◌≤◌, ◌≡◌, inl, inr, refl, sym, ◌∙◌, ap, subst, arith, Bool, true, false, ite, List, [], ◌∷◌,
  dec_str, lookup, Result, ok, err, Error, present-le_one, Option-cases, if◌then◌else◌, is_positive,
  All, to_ℕ,
}
use torrcli.Model.{Session, TorrentId, TorrentSnapshot, zero_snapshot, is_complete}
use torrcli.Model.States
use torrcli.Engine.{Engine, request}
use torrcli.Torrents
use torrcli.Torrents.{SessionState, list_from}
use torrcli.Torrents.Order.{IsOrdered}
use torrcli.Torrents.View.{IsKeyed, view}
use torrcli.Torrents.Loop.{run}
use torrcli.Daemon.{Daemon, items, rest, next_delivery, clone_session, run_torrents}
use torrcli.Daemon.Schedule.{
  Counts, active, limit, is_full, reconcile_one, reconcile_all, reconcile_schedule,
}
use torrcli.Daemon.Limits.Knowing.{Holds, reconcile_one-Kept}
use torrcli.Torrents.Distinct.{IsAbsent, IsDistinct, list_from-IsDistinct, run_listed}
use torrcli.Daemon.Limits.Round.{
  running_one, running, running_one_kept, Accounted, StaysBelow, hold-Accounted, start-Accounted,
}

active_none : (b : Bool) → active b (record { downloads = 0; seeds = 0 }) ≡ 0
active_none true = refl
active_none false = refl

module _ {E T : Type 0} (engine : Engine E) where
  Accounted-if :
      (session : Session) (t : TorrentSnapshot) (c : Counts) (d : Daemon E T) (x : Bool)
      (a b : Daemon E T × Result Counts)
      → (x ≡ true → Accounted engine session t c d a)
      → (x ≡ false → Accounted engine session t c d b)
      → Accounted engine session t c d (if x then a else b)
  Accounted-if session t c d true a b h k = h refl
  Accounted-if session t c d false a b h k = k refl

  Accounted-ite :
      {Q : Type 0} (session : Session) (t : TorrentSnapshot) (c : Counts) (d : Daemon E T)
      (x : Dec Q) (a b : Daemon E T × Result Counts)
      → Accounted engine session t c d a
      → Accounted engine session t c d b
      → Accounted engine session t c d (ite x a b)
  Accounted-ite session t c d (yes q) a b h k = h
  Accounted-ite session t c d (no q) a b h k = k

  reconcile_one-Accounted :
      (session : Session) (t : TorrentSnapshot) (c : Counts) (d : Daemon E T)
      → (engine.pause request t.id d.engine).1 ≡ ok tt
      → Accounted engine session t c d (reconcile_one engine session c t d)
  unfolding reconcile_one running_one
  reconcile_one-Accounted session t c d p =
      let b = is_complete t.progress in
      elim (Option-cases (lookup dec_str t.id (items session.torrents))) [
        | inl e ↦
            rw (e, reconcile_one)
              record {
                counts = c;
                result = refl;
                touches = record { config = refl; others = λ j n. refl };
                grows = λ b. ground arith;
                bounded = λ b q h. h;
              }
        | inr (r, e) ↦
            rw (e, reconcile_one)
              (Accounted-ite session t c d (dec_str r.desired_state States.paused) _ _
                (hold-Accounted engine session States.paused t c d p)
                (Accounted-if session t c d (is_full (limit b d.config) (active b c)) _ _
                  (λ f. hold-Accounted engine session States.queued t c d p)
                  (λ f. start-Accounted engine session t c d e f)))
      ]

  record Rounded (session : Session) (ts : List TorrentSnapshot) (c : Counts) (d : Daemon E T)
      (m : Daemon E T × Result Counts) : Type 0 where
    counts : Counts
    result : m.1 ≡ ok counts
    others :
        (j : TorrentId)
        → IsAbsent j ts
        → lookup dec_str j m.0.scheduled ≡ lookup dec_str j d.scheduled
    grows : (b : Bool) → active b counts ≡ active b c + running session b ts m.0.scheduled
    bounded : StaysBelow d.config c counts

  still_known :
      (Knows : E → TorrentId → Type 0)
      → Holds engine Knows
      → (session : Session) (c : Counts) (t : TorrentSnapshot) (d : Daemon E T)
        (ts : List TorrentSnapshot)
      → All (λ u. Knows d.engine u.id) ts
      → All (λ u. Knows (reconcile_one engine session c t d).0.engine u.id) ts
  still_known Knows p session c t d [] w = tt
  still_known Knows p session c t d (u ∷ ts) (v, w) = (
    reconcile_one-Kept engine Knows p session c t d u.id v,
    still_known Knows p session c t d ts w,
  )

  reconcile_all-Rounded :
      (Knows : E → TorrentId → Type 0) (session : Session) (ts : List TorrentSnapshot) (c : Counts)
      (d : Daemon E T)
      → Holds engine Knows
      → All (λ t. Knows d.engine t.id) ts
      → IsDistinct ts
      → Rounded session ts c d (reconcile_all engine session c ts d)
  unfolding reconcile_all running
  reconcile_all-Rounded Knows session [] c d p w n = record {
    counts = c;
    result = refl;
    others = λ j a. refl;
    grows = λ b. omega arith;
    bounded = λ b q h. h;
  }
  reconcile_all-Rounded Knows session (t ∷ ts) c d p (v, w) (a, n) =
      let m = reconcile_one engine session c t d in
      let h = reconcile_one-Accounted session t c d (p.pauses t.id d.engine v) in
      let w' = still_known Knows p session c t d ts w in
      let k = reconcile_all-Rounded Knows session ts h.counts m.0 p w' n in
      record {
        counts = k.counts;
        result = rw (h.result, reconcile_all) k.result;
        others = λ j (x, y). rw (h.result, reconcile_all) (k.others j y ∙ h.touches.others j x);
        grows = λ b.
            rw (h.result, reconcile_all)
              (omega (
                arith,
                k.grows b,
                h.grows b,
                running_one_kept session b t m.0.scheduled
                    (reconcile_all engine session h.counts ts m.0).0.scheduled (k.others t.id a),
              ));
        bounded = λ b q l.
            subst (λ g. StaysBelow g h.counts k.counts) h.touches.config k.bounded b q
              (h.bounded b q l);
      }

  begin : Daemon E T → Daemon E T
  begin d = record d { deliveries = rest d.deliveries }

  reconcile_schedule_listed :
      (d : Daemon E T)
      → run (next_delivery d.deliveries) (Torrents.list zero_snapshot) d.torrents
        ≡ (d.torrents, ok (view zero_snapshot d.torrents))
      → reconcile_schedule engine d
        ≡ reconcile_all engine
            (clone_session d.session)
            (record { downloads = 0; seeds = 0 })
            (view zero_snapshot d.torrents)
            (begin d)
  unfolding reconcile_schedule run_torrents begin
  reconcile_schedule_listed d g = rw (g, reconcile_schedule) refl

  reconcile_schedule_lost :
      (d : Daemon E T) {x : Error}
      → (run (next_delivery d.deliveries) (Torrents.list zero_snapshot) d.torrents).1 ≡ err x
      → (reconcile_schedule engine d).1 ≡ err x
  unfolding reconcile_schedule run_torrents
  reconcile_schedule_lost d g = rw (g, reconcile_schedule) refl

  -- After a round of the scheduler that was given the list of torrents, no more torrents run than
  -- the limit of their kind allows, where that limit is positive and the engine knows the torrents
  -- that the daemon shows, so that it can pause them. Counted
  -- are the torrents with a record that the daemon's schedule marks as running, as seeds if they
  -- were complete when the round began and as downloads if not; the counter that the code keeps is
  -- that number.
  pub reconcile_schedule_bound :
      (Knows : E → TorrentId → Type 0) (b : Bool) (d : Daemon E T) (c : Counts)
      → Holds engine Knows
      → All (λ t. Knows d.engine t.id) (view zero_snapshot d.torrents)
      → IsOrdered d.torrents
      → IsKeyed d.torrents.torrents
      → is_positive (limit b d.config) ≡ true
      → (reconcile_schedule engine d).1 ≡ ok c
      → let left =
          running
            (clone_session d.session)
            b
            (view zero_snapshot d.torrents)
            (reconcile_schedule engine d).0.scheduled in
        (active b c ≡ left) × (left ≤ to_ℕ (limit b d.config))
  unfolding begin
  reconcile_schedule_bound Knows b d c p w o k q e =
      elim (run_listed (next_delivery d.deliveries) d.torrents) [
        | inl g ↦
            let h =
              reconcile_all-Rounded Knows (clone_session d.session) (view zero_snapshot d.torrents)
                (record { downloads = 0; seeds = 0 }) (begin d) p w
                (list_from-IsDistinct d.torrents.torrents d.torrents.order k
                  (λ id n. omega (arith, o id))
                  (λ id. omega (arith, o id, present-le_one dec_str id d.torrents.torrents))) in
            let f = reconcile_schedule_listed d g in
            let same : h.counts ≡ c = ground (arith, sym h.result ∙ (sym (ap (λ m. m.1) f) ∙ e)) in
            let none_yet = active_none b in
            let counted = h.grows b in
            let bounded = h.bounded b q (omega arith) in
            let kept = ap (active b) same in rw f (omega arith, omega arith)
        | inr (x, g) ↦ absurd (ground (arith, reconcile_schedule_lost d g))
      ]
