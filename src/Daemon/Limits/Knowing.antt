-- ===== src/Daemon/Limits/Knowing.antt =====
-- internal/daemon/scheduler.go: the torrents that the engine knows, while the scheduler calls it.
use torrcli.Base.{
  ◌≡◌, arith, Bool, true, false, dec_str, lookup, ok, err, Option-cases, inl, inr, Result, continue,
  pure, ◌>>◌, ite_cases, if_cases,
}
use torrcli.Model.{Session, TorrentId, TorrentState, TorrentSnapshot, is_complete}
use torrcli.Model.States
use torrcli.Engine.{Engine, request}
use torrcli.Daemon.{Daemon, items, put_torrent, call_engine, run_torrents}
use torrcli.Daemon.Schedule.{
  Counts, active, limit, is_full, set_scheduled, refreshed, hold, start, reconcile_one,
}
use torrcli.Daemon.Limits

-- A torrent that the engine knows can be paused, and stays known while torrents are paused, resumed
-- and looked at.
pub record Holds {E : Type 0} (engine : Engine E) (Knows : E → TorrentId → Type 0) : Type 0 where
  pub pauses : (id : TorrentId) (e : E) → Knows e id → (engine.pause request id e).1 ≡ ok tt
  pub after_pause : (id j : TorrentId) (e : E) → Knows e j → Knows (engine.pause request id e).0 j
  pub after_resume : (id j : TorrentId) (e : E) → Knows e j → Knows (engine.resume request id e).0 j
  pub after_snapshot :
      (id j : TorrentId) (e : E) → Knows e j → Knows (engine.snapshot request id e).0 j

module _ {E T : Type 0} (engine : Engine E) (Knows : E → TorrentId → Type 0)
    (h : Holds engine Knows) where
  abbrev Kept : Daemon E T → Daemon E T → Type 0
  Kept d d' = (j : TorrentId) → Knows d.engine j → Knows d'.engine j

  set_scheduled-Kept :
      (id : TorrentId) (b : Bool) (d : Daemon E T) → Kept d (set_scheduled engine id b d).0
  unfolding set_scheduled call_engine
  set_scheduled-Kept id true d j k = ground (arith, h.after_resume id j d.engine k)
  set_scheduled-Kept id false d j k = ground (arith, h.after_pause id j d.engine k)

  refreshed-Kept : (t : TorrentSnapshot) (d : Daemon E T) → Kept d (refreshed engine t d).0
  unfolding refreshed call_engine
  refreshed-Kept t d j k = ground (arith, h.after_snapshot t.id j d.engine k)

  put_torrent-Kept : (t : TorrentSnapshot) (d : Daemon E T) → Kept d (put_torrent request t d).0
  unfolding put_torrent run_torrents
  put_torrent-Kept t d j k = k

  hold-Kept :
      (state : TorrentState) (t : TorrentSnapshot) (d : Daemon E T)
      → Kept d (hold engine state t d).0
  unfolding hold
  hold-Kept state t d j k =
      let d1 = (set_scheduled engine t.id false d).0 in
      let (u, e) = Limits.refreshed_ok engine t d1 in
      let d2 = (refreshed engine t d1).0 in
      rw (e, hold)
        (put_torrent-Kept (record u { state = state }) d2 j
          (refreshed-Kept t d1 j (set_scheduled-Kept t.id false d j k)))

  start-Kept :
      (b : Bool) (c : Counts) (t : TorrentSnapshot) (d : Daemon E T)
      → Kept d (start engine b c t d).0
  unfolding start
  start-Kept b c t d j k =
      let d1 = (set_scheduled engine t.id true d).0 in
      let l = set_scheduled-Kept t.id true d j k in
      let (u, e) = Limits.refreshed_ok engine t d1 in
      let d2 = (refreshed engine t d1).0 in
      elim (Limits.set_scheduled-runs engine t.id d) [
        | inl (g, m) ↦ rw (g, e, start) (put_torrent-Kept u d2 j (refreshed-Kept t d1 j l))
        | inr (x, g, m) ↦ rw (g, start) l
      ]

  then_counted :
      (c : Counts) (d d' : Daemon E T) (r : Result (Unit {0}))
      → Kept d d'
      → Kept d (continue d' r (λ u. pure {S = Daemon E T} c)).0
  then_counted c d d' (ok u) k = k
  then_counted c d d' (err e) k = k

  pub reconcile_one-Kept :
      (session : Session) (c : Counts) (t : TorrentSnapshot) (d : Daemon E T)
      → Kept d (reconcile_one engine session c t d).0
  unfolding reconcile_one
  reconcile_one-Kept session c t d j k =
      let Good : Daemon E T × Result Counts → Type 0 = λ m. Knows m.0.engine j in
      let b = is_complete t.progress in
      let held : (state : TorrentState) → Good ((hold engine state t >> pure c) d) = λ state.
        then_counted c d (hold engine state t d).0 (hold engine state t d).1 (hold-Kept state t d) j
          k in
      elim (Option-cases (lookup dec_str t.id (items session.torrents))) [
        | inl e ↦ rw (e, reconcile_one) k
        | inr (r, e) ↦
            rw (e, reconcile_one)
              (ite_cases Good (dec_str r.desired_state States.paused) (λ p. held States.paused)
                (λ n.
                  if_cases Good (is_full (limit b d.config) (active b c)) (λ f. held States.queued)
                    (λ f. start-Kept b c t d j k)))
      ]
