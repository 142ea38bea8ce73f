-- ===== src/Daemon/Limits.antt =====
-- internal/daemon/scheduler.go: what one call of the scheduler does to the schedule.
pub mod Knowing
pub mod Round
use torrcli.Base.{
  ℕ, ◌+◌, ◌≤◌, ◌≡◌, ◌≢◌, ◌⊎◌, inl, inr, refl, arith, Bool, true, false, ite, Option, none, some,
  List, [], ◌∷◌, dec_str, lookup, put, lookup-put, lookup-put_self, lookup-put_ne, Result, ok, err,
  Error, Option-cases, Bool-cases, Exec, continue, if◌then◌else◌, ◌>>=◌, ◌>>◌,
}
use torrcli.Model.{Session, TorrentId, TorrentState, TorrentSnapshot, TorrentRecord}
use torrcli.Engine.{Engine, request}
use torrcli.Torrents
use torrcli.Daemon.{Daemon, put_torrent, call_engine, run_torrents}
use torrcli.Daemon.Schedule.{same, mark_scheduled, switch, set_scheduled, refreshed, hold, start}

module _ {E T : Type 0} (engine : Engine E) where
  -- The configuration and the other torrents' places in the schedule stay.
  pub record Touches (id : TorrentId) (d d' : Daemon E T) : Type 0 where
    pub config : d'.config ≡ d.config
    pub others :
        (j : TorrentId) → id ≢ j → lookup dec_str j d'.scheduled ≡ lookup dec_str j d.scheduled

  pub set_scheduled-Touches :
      (id : TorrentId) (b : Bool) (d : Daemon E T) → Touches id d (set_scheduled engine id b d).0
  unfolding set_scheduled call_engine
  set_scheduled-Touches id true d = record {
    config = ground arith;
    others = λ j n. ground (arith, lookup-put_ne dec_str j id true d.scheduled);
  }
  set_scheduled-Touches id false d = record {
    config = ground arith;
    others = λ j n. ground (arith, lookup-put_ne dec_str j id false d.scheduled);
  }

  -- A torrent that is to stop is marked so, where pausing it does not fail.
  pub set_scheduled-stops :
      (id : TorrentId) (d : Daemon E T)
      → (engine.pause request id d.engine).1 ≡ ok tt
      → lookup dec_str id (set_scheduled engine id false d).0.scheduled ≡ some false
  unfolding set_scheduled call_engine
  set_scheduled-stops id d p = ground (arith, lookup-put_self dec_str id false d.scheduled, p)

  -- A torrent that is to run is marked so if and only if that succeeds.
  pub set_scheduled-runs :
      (id : TorrentId) (d : Daemon E T)
      → (((set_scheduled engine id true d).1 ≡ ok tt)
          × (lookup dec_str id (set_scheduled engine id true d).0.scheduled ≡ some true))
        ⊎ ((e : Error) × ((set_scheduled engine id true d).1 ≡ err e)
            × (lookup dec_str id (set_scheduled engine id true d).0.scheduled ≢ some true))
  unfolding set_scheduled call_engine
  set_scheduled-runs id d = resumed (engine.resume request id d.engine).1 refl
    where
      resumed :
          (r : Result (Unit {0}))
          → (engine.resume request id d.engine).1 ≡ r
          → (((set_scheduled engine id true d).1 ≡ ok tt)
              × (lookup dec_str id (set_scheduled engine id true d).0.scheduled ≡ some true))
            ⊎ ((e : Error) × ((set_scheduled engine id true d).1 ≡ err e)
                × (lookup dec_str id (set_scheduled engine id true d).0.scheduled ≢ some true))
      resumed (ok u) f = elim (Option-cases (lookup dec_str id d.scheduled)) [
        | inl g ↦ inl (ground arith, ground (arith, lookup-put_self dec_str id true d.scheduled))
        | inr (true, g) ↦ inl (ground arith, ground arith)
        | inr (false, g) ↦
            inl (ground arith, ground (arith, lookup-put_self dec_str id true d.scheduled))
      ]
      resumed (err e) f = elim (Option-cases (lookup dec_str id d.scheduled)) [
        | inl g ↦ inr (e, ground arith, ground arith)
        | inr (true, g) ↦ inl (ground arith, ground arith)
        | inr (false, g) ↦ inr (e, ground arith, ground arith)
      ]

  -- What does not touch the schedule.
  pub record Leaves (d d' : Daemon E T) : Type 0 where
    pub config : d'.config ≡ d.config
    pub scheduled : d'.scheduled ≡ d.scheduled

  pub refreshed-Leaves : (t : TorrentSnapshot) (d : Daemon E T) → Leaves d (refreshed engine t d).0
  unfolding refreshed call_engine
  refreshed-Leaves t d = record { config = ground arith; scheduled = ground arith }

  pub refreshed_ok :
      (t : TorrentSnapshot) (d : Daemon E T)
      → (u : TorrentSnapshot) × ((refreshed engine t d).1 ≡ ok u)
  unfolding refreshed call_engine
  refreshed_ok t d = told (engine.snapshot request t.id d.engine).1 refl
    where
      told :
          (r : Result TorrentSnapshot)
          → (engine.snapshot request t.id d.engine).1 ≡ r
          → (u : TorrentSnapshot) × ((refreshed engine t d).1 ≡ ok u)
      told (ok u) e = (u, ground arith)
      told (err x) e = (t, ground arith)

  pub put_torrent-Leaves :
      (t : TorrentSnapshot) (d : Daemon E T) → Leaves d (put_torrent request t d).0
  unfolding put_torrent run_torrents
  put_torrent-Leaves t d = record { config = refl; scheduled = refl }

  pub put_torrent_ok : (t : TorrentSnapshot) (d : Daemon E T) → (put_torrent request t d).1 ≡ ok tt
  unfolding put_torrent
  put_torrent_ok t d = refl
