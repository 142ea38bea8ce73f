-- ===== src/Daemon/Schedule.antt =====
-- internal/daemon/scheduler.go: reconcileSchedule, which decides what runs, once a second.
use torrcli.Base.{
  ℕ, ◌+◌, ℤ, is_positive, at_most, Bool, true, false, ◌&&◌, none, some, List, [], ◌∷◌, dec_str, ite,
  lookup, put, ok, err, Exec, pure, ignore, ◌>>=◌, ◌>>◌, if◌then◌else◌,
}
use torrcli.Model.{
  Config, Session, TorrentId, TorrentState, TorrentSnapshot, zero_snapshot, is_complete,
}
use torrcli.Model.States
use torrcli.Engine.{Engine, request}
use torrcli.Torrents
use torrcli.Daemon.{Daemon, items, clone_session, put_torrent, call_engine, run_torrents}

-- `*active` for each of the two limits. reconcileSchedule returns nothing; the model returns the two
-- counters as they are at its end, and the error of the listing, which the caller does not look at.
pub record Counts : Type 0 where
  pub downloads : ℕ
  pub seeds : ℕ

abbrev pub active : Bool → Counts → ℕ
active true c = c.seeds
active false c = c.downloads

abbrev pub limit : Bool → Config → ℤ
limit true c = c.max_active_seeds
limit false c = c.max_active_downloads

abbrev pub count_one : Bool → Counts → Counts
count_one true c = record c { seeds = c.seeds + 1 }
count_one false c = record c { downloads = c.downloads + 1 }

-- `limit > 0 && *active >= limit`.
abbrev pub is_full : ℤ → ℕ → Bool
is_full l n = is_positive l && at_most l n

abbrev pub same : Bool → Bool → Bool
same true b = b
same false true = false
same false false = true

module _ {E T : Type 0} (engine : Engine E) where
  abbrev pub mark_scheduled : TorrentId → Bool → Exec (Daemon E T) (Unit {0})
  mark_scheduled id running d = (record d { scheduled = put dec_str id running d.scheduled }, ok tt)

  abbrev pub switch : TorrentId → Bool → Exec (Daemon E T) (Unit {0})
  switch id true = call_engine (engine.resume request id)
  switch id false = call_engine (engine.pause request id)

  unfoldable pub set_scheduled : TorrentId → Bool → Exec (Daemon E T) (Unit {0})
  unfolding call_engine
  set_scheduled id running d =
      let changed = (switch id running >> mark_scheduled id running) d in
      elim (lookup dec_str id d.scheduled) [
        | none ↦ changed
        | some current ↦ if same current running then (d, ok tt) else changed
      ]

  -- The engine's snapshot, or the one at hand if there is none.
  unfoldable pub refreshed : TorrentSnapshot → Exec (Daemon E T) TorrentSnapshot
  unfolding call_engine
  refreshed torrent d =
      let r = call_engine (engine.snapshot request torrent.id) d in
      elim r.1 [ ok updated ↦ (r.0, ok updated) | err _ ↦ (r.0, ok torrent) ]

  -- A torrent that may not run: paused by its user, or over a limit.
  unfoldable pub hold : TorrentState → TorrentSnapshot → Exec (Daemon E T) (Unit {0})
  unfolding set_scheduled refreshed put_torrent
  hold state torrent = do
    ignore (set_scheduled torrent.id false)
    torrent' ← refreshed torrent
    put_torrent request (record torrent' { state = state })

  unfoldable pub start : Bool → Counts → TorrentSnapshot → Exec (Daemon E T) Counts
  unfolding set_scheduled refreshed put_torrent
  start is_seed counts torrent d =
      let r = set_scheduled torrent.id true d in
      elim r.1 [
        | err _ ↦ (r.0, ok counts)
        | ok _ ↦
            (do
              torrent' ← refreshed torrent
              put_torrent request torrent'
              pure (count_one is_seed counts))
              r.0
      ]

  -- One round of the loop.
  unfoldable pub reconcile_one : Session → Counts → TorrentSnapshot → Exec (Daemon E T) Counts
  reconcile_one session counts torrent d =
      let is_seed = is_complete torrent.progress in
      elim (lookup dec_str torrent.id (items session.torrents)) [
        | none ↦ (d, ok counts)
        | some r ↦
            ite (dec_str r.desired_state States.paused)
              ((hold States.paused torrent >> pure counts) d)
              (if is_full (limit is_seed d.config) (active is_seed counts)
                then (hold States.queued torrent >> pure counts) d
                else start is_seed counts torrent d)
      ]

  unfoldable pub reconcile_all : Session → Counts → List TorrentSnapshot → Exec (Daemon E T) Counts
  reconcile_all session counts [] = pure counts
  reconcile_all session counts (torrent ∷ torrents) = do
    counts' ← reconcile_one session counts torrent
    reconcile_all session counts' torrents

  unfoldable pub reconcile_schedule : Exec (Daemon E T) Counts
  unfolding clone_session run_torrents Torrents.list
  reconcile_schedule d =
      (do
        torrents ← run_torrents request (Torrents.list zero_snapshot)
        reconcile_all (clone_session d.session) (record { downloads = 0; seeds = 0 }) torrents)
        d
