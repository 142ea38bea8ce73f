-- ===== src/Daemon/Steady/Scheduling.antt =====
-- internal/daemon/scheduler.go: reconcileSchedule and the state that requests keep.
use torrcli.Base.{
  ◌≡◌, ◌<◌, inl, inr, refl, Bool, true, false, List, [], ◌∷◌, dec_str, ite, lookup, present, Result,
  ok, err, Option-cases, Bool-cases, ◌>>◌, ◌>>=◌, pure, if◌then◌else◌,
}
use torrcli.Base.Outcome.Triple.{
  Triple, Keeps, Post, triple_bind, triple_then, triple_pure, triple_ignore,
}
use torrcli.Model.{Session, TorrentId, TorrentState, TorrentSnapshot, zero_snapshot, is_complete}
use torrcli.Model.States
use torrcli.State.Files.{Codec}
use torrcli.Engine.{Engine, request}
use torrcli.Torrents
use torrcli.Torrents.{SessionState, list_from}
use torrcli.Daemon.{
  Daemon, items, next_delivery, clone_session, put_torrent, call_engine, run_torrents,
}
use torrcli.Daemon.Schedule.{
  Counts, active, limit, count_one, is_full, same, mark_scheduled, switch, set_scheduled, refreshed,
  hold, start, reconcile_one, reconcile_all, reconcile_schedule,
}
use torrcli.Daemon.Steady.Saving.{IsSteady}
use torrcli.Daemon.Steady.Steps.{SameData-IsSteady, list_same, Keeps-engine}
use torrcli.Daemon.Steady.Adding.{IsNamed}
use torrcli.Daemon.Steady.Showing.{
  Result-cases, AllShown, run-AllShown, Showing, Showing-IsDataOnly, Keeps-put,
}

module _ {E T : Type 0} (engine : Engine E) (codec : Codec Session T) where
  Keeps-switch :
      (s : SessionState) (id : TorrentId) (b : Bool)
      → Keeps (Showing {T = T} codec s) (switch engine id b)
  Keeps-switch s id true =
      Keeps-engine codec (Showing codec s) (engine.resume request id) (Showing-IsDataOnly codec s)
  Keeps-switch s id false =
      Keeps-engine codec (Showing codec s) (engine.pause request id) (Showing-IsDataOnly codec s)

  Keeps-mark :
      (s : SessionState) (id : TorrentId) (b : Bool)
      → Keeps (Showing {T = T} codec s) (mark_scheduled engine id b)
  Keeps-mark s id b = record {
    at = λ d h.
        (Showing-IsDataOnly codec s).moved
          (record { session = refl; torrents = refl; files = refl; attempts = refl }) h;
  }

  Keeps-set_scheduled :
      (s : SessionState) (id : TorrentId) (b : Bool)
      → Keeps (Showing {T = T} codec s) (set_scheduled engine id b)
  unfolding set_scheduled
  Keeps-set_scheduled s id b = record {
    at = λ d h.
        let done = (triple_then (Keeps-switch s id b) (Keeps-mark s id b)).at d h in
        elim (Option-cases (lookup dec_str id d.scheduled)) [
          | inl e ↦ rw (e, set_scheduled) done
          | inr (current, e) ↦ elim (Bool-cases (same current b)) [
            | inl c ↦ rw (e, c, set_scheduled) h
            | inr c ↦ rw (e, c, set_scheduled) done
          ]
        ];
  }

  -- The snapshot that is at hand afterwards is one of the same torrent.
  Post-refreshed :
      (s : SessionState) (t : TorrentSnapshot) (d : Daemon E T) (r : Result TorrentSnapshot)
      → Showing codec s d
      → ((u : TorrentSnapshot) → r ≡ ok u → u.id ≡ t.id)
      → Post (λ u s'. (u.id ≡ t.id) × Showing codec s s') (Showing codec s) d r
  Post-refreshed s t d (ok u) h k = (k u refl, h)
  Post-refreshed s t d (err e) h k = h

  triple_refreshed :
      (s : SessionState) (t : TorrentSnapshot)
      → IsNamed engine
      → Triple
          (Showing {T = T} codec s)
          (refreshed engine t)
          (λ u s'. (u.id ≡ t.id) × Showing codec s s')
          (Showing codec s)
  unfolding refreshed call_engine
  triple_refreshed s t n = record {
    at = λ d h.
        let moved : Showing codec s (call_engine (engine.snapshot request t.id) d).0 =
          (Showing-IsDataOnly codec s).moved
            (record { session = refl; torrents = refl; files = refl; attempts = refl }) h in
        elim (Result-cases (engine.snapshot request t.id d.engine).1) [
          | inl (u, e) ↦ rw (e, refreshed) (n.named request t.id d.engine u e, moved)
          | inr (x, e) ↦ rw (e, refreshed) (refl, moved)
        ];
  }

  Keeps-put_refreshed :
      (s : SessionState) (t u : TorrentSnapshot)
      → 0 < present dec_str t.id s.torrents
      → Triple
          (λ d. (u.id ≡ t.id) × Showing {E = E} {T = T} codec s d)
          (put_torrent request u)
          (λ v d. Showing codec s d)
          (Showing codec s)
  Keeps-put_refreshed s t u p = record {
    at = λ d (own, h). (Keeps-put codec s u (rw own p)).at d h;
  }

  Keeps-hold :
      (s : SessionState) (state : TorrentState) (t : TorrentSnapshot)
      → IsNamed engine
      → 0 < present dec_str t.id s.torrents
      → Keeps (Showing {T = T} codec s) (hold engine state t)
  unfolding hold
  Keeps-hold s state t n p = triple_then (triple_ignore (Keeps-set_scheduled s t.id false)) (
      triple_bind (triple_refreshed s t n)
        λ u. Keeps-put_refreshed s t (record u { state = state }) p)

  triple_started :
      (s : SessionState) (is_seed : Bool) (counts : Counts) (t : TorrentSnapshot)
      → IsNamed engine
      → 0 < present dec_str t.id s.torrents
      → Keeps
          (Showing {T = T} codec s)
          (refreshed engine t >>= λ u. (put_torrent request u >> pure (count_one is_seed counts)))
  triple_started s is_seed counts t n p = triple_bind (triple_refreshed s t n) λ u.
      triple_then (Keeps-put_refreshed s t u p) (triple_pure (count_one is_seed counts) (λ d h. h))

  Post-Showing :
      {A : Type 0} (s : SessionState) (d : Daemon E T) (r : Result A)
      → Post (λ a d. Showing codec s d) (Showing codec s) d r
      → Showing codec s d
  Post-Showing s d (ok a) h = h
  Post-Showing s d (err e) h = h

  Keeps-start :
      (s : SessionState) (is_seed : Bool) (counts : Counts) (t : TorrentSnapshot)
      → IsNamed engine
      → 0 < present dec_str t.id s.torrents
      → Keeps (Showing {T = T} codec s) (start engine is_seed counts t)
  unfolding start
  Keeps-start s is_seed counts t n p = record {
    at = λ d h.
        let after =
          Post-Showing s (set_scheduled engine t.id true d).0 (set_scheduled engine t.id true d).1
            ((Keeps-set_scheduled s t.id true).at d h) in
        elim (Result-cases (set_scheduled engine t.id true d).1) [
          | inl (u, e) ↦
              rw (e, start)
                ((triple_started s is_seed counts t n p).at (set_scheduled engine t.id true d).0
                  after)
          | inr (x, e) ↦ rw (e, start) after
        ];
  }

  Post-ite :
      {Q A : Type 0} (s : SessionState) (x : Dec Q) (a b : Daemon E T × Result A)
      → Post (λ c d. Showing codec s d) (Showing codec s) a.0 a.1
      → Post (λ c d. Showing codec s d) (Showing codec s) b.0 b.1
      → Post (λ c d. Showing codec s d) (Showing codec s) (ite x a b).0 (ite x a b).1
  Post-ite s (yes q) a b h k = h
  Post-ite s (no q) a b h k = k

  Post-if :
      {A : Type 0} (s : SessionState) (x : Bool) (a b : Daemon E T × Result A)
      → Post (λ c d. Showing codec s d) (Showing codec s) a.0 a.1
      → Post (λ c d. Showing codec s d) (Showing codec s) b.0 b.1
      → Post
          (λ c d. Showing codec s d)
          (Showing codec s)
          (if x then a else b).0
          (if x then a else b).1
  Post-if s true a b h k = h
  Post-if s false a b h k = k

  Keeps-reconcile_one :
      (s : SessionState) (session : Session) (counts : Counts) (t : TorrentSnapshot)
      → IsNamed engine
      → 0 < present dec_str t.id s.torrents
      → Keeps (Showing {T = T} codec s) (reconcile_one engine session counts t)
  unfolding reconcile_one
  Keeps-reconcile_one s session counts t n p = record {
    at = λ d h.
        let b = is_complete t.progress in
        let held : (state : TorrentState)
            → Keeps (Showing {T = T} codec s) (hold engine state t >> pure counts) =
          λ state. triple_then (Keeps-hold s state t n p) (triple_pure counts (λ d h. h)) in
        elim (Option-cases (lookup dec_str t.id (items session.torrents))) [
          | inl e ↦ rw (e, reconcile_one) h
          | inr (r, e) ↦
              rw (e, reconcile_one)
                (Post-ite s (dec_str r.desired_state States.paused) _ _
                  ((held States.paused).at d h)
                  (Post-if s (is_full (limit b d.config) (active b counts)) _ _
                    ((held States.queued).at d h) ((Keeps-start s b counts t n p).at d h)))
        ];
  }

  Keeps-reconcile_all :
      (s : SessionState) (session : Session) (counts : Counts) (ts : List TorrentSnapshot)
      → IsNamed engine
      → AllShown s ts
      → Keeps (Showing {T = T} codec s) (reconcile_all engine session counts ts)
  unfolding reconcile_all
  Keeps-reconcile_all s session counts [] n a = triple_pure counts (λ d h. h)
  Keeps-reconcile_all s session counts (t ∷ ts) n (p, a) =
      triple_bind (Keeps-reconcile_one s session counts t n p)
        λ counts'. Keeps-reconcile_all s session counts' ts n a

  Post-listed :
      (s : SessionState) (d : Daemon E T) (r : Result (List TorrentSnapshot))
      → Showing codec s d
      → ((ts : List TorrentSnapshot) → r ≡ ok ts → AllShown s ts)
      → Post (λ ts d. AllShown s ts × Showing codec s d) (Showing codec s) d r
  Post-listed s d (ok ts) h k = (k ts refl, h)
  Post-listed s d (err e) h k = h

  triple_list :
      (d : Daemon E T)
      → IsSteady codec d
      → Triple
          (λ d'. d' ≡ d)
          (run_torrents request (Torrents.list zero_snapshot))
          (λ ts d'. AllShown d.torrents ts × Showing codec d.torrents d')
          (Showing codec d.torrents)
  unfolding run_torrents
  triple_list d h = record {
    at = λ d' e.
        let v = next_delivery d.deliveries in
        let same = list_same v zero_snapshot d.torrents in
        rw e (
          Post-listed d.torrents
            (run_torrents {E = E} {T = T} request (Torrents.list zero_snapshot) d).0
            (run_torrents {E = E} {T = T} request (Torrents.list zero_snapshot) d).1
            (record {
              steady =
                  SameData-IsSteady codec
                    (record { session = refl; torrents = same; files = refl; attempts = refl }) h;
              kept = λ id p. rw same p;
            })
            (λ ts f. run-AllShown v zero_snapshot d.torrents ts h.ordered h.keyed f));
  }

  triple_round :
      (d : Daemon E T)
      → IsNamed engine
      → IsSteady codec d
      → Triple
          (λ d'. d' ≡ d)
          (run_torrents request (Torrents.list zero_snapshot) >>= λ ts.
            reconcile_all engine (clone_session d.session) (record { downloads = 0; seeds = 0 }) ts)
          (λ c d'. Showing codec d.torrents d')
          (Showing codec d.torrents)
  triple_round d n h = triple_bind (triple_list d h) λ ts. record {
    at = λ d' (a, k).
        (Keeps-reconcile_all d.torrents (clone_session d.session)
            (record { downloads = 0; seeds = 0 }) ts n a).at
          d' k;
  }

  -- A round of the scheduler keeps the daemon steady, whatever the engine answers and whichever
  -- commands are lost. The engine gives a snapshot under the ID that was asked for.
  pub reconcile_schedule-IsSteady :
      (d : Daemon E T)
      → IsNamed engine
      → IsSteady codec d
      → IsSteady codec (reconcile_schedule engine d).0
  unfolding reconcile_schedule
  reconcile_schedule-IsSteady d n h =
      (Post-Showing d.torrents (reconcile_schedule engine d).0 (reconcile_schedule engine d).1
        ((triple_round d n h).at d refl)).steady
