-- ===== src/Daemon/Steady/History.antt =====
-- internal/daemon: a run of the daemon, as a sequence of requests and rounds of the scheduler, which
-- the control mutex puts in some order.
use torrcli.Base.{List, [], ◌∷◌}
use torrcli.Model.{Session}
use torrcli.State.Files.{Codec}
use torrcli.Engine.{Engine}
use torrcli.Rpc.{Request}
use torrcli.Daemon.{Daemon}
use torrcli.Daemon.Controls.{Strconv}
use torrcli.Daemon.Handler.{Decoders, handle_rpc}
use torrcli.Daemon.Schedule.{reconcile_schedule}
use torrcli.Daemon.Steady.Saving.{IsSteady}
use torrcli.Daemon.Steady.Adding.{IsNamed}
use torrcli.Daemon.Steady.Requests.{handle_rpc-IsSteady}
use torrcli.Daemon.Steady.Scheduling.{reconcile_schedule-IsSteady}

-- A request that has come, or a tick of refreshTorrents.
pub data Event (R : Type 0) : Type 0 where
  arrival : Request R → Event R
  tick : Event R

module _ {E T R : Type 0} (engine : Engine E) (codec : Codec Session T) (strconv : Strconv)
    (json : Decoders R) where
  abbrev pub after : List (Event R) → Daemon E T → Daemon E T
  after [] d = d
  after (arrival r ∷ events) d = after events (handle_rpc engine codec strconv json r d).0
  after (tick ∷ events) d = after events (reconcile_schedule engine d).0

  -- Whatever requests come and whenever the scheduler runs between them, a steady daemon stays
  -- steady, if the engine gives a snapshot under the ID that was asked for.
  pub after-IsSteady :
      (events : List (Event R)) (d : Daemon E T)
      → IsNamed engine
      → IsSteady codec d
      → IsSteady codec (after events d)
  after-IsSteady [] d n h = h
  after-IsSteady (arrival r ∷ events) d n h =
      after-IsSteady events (handle_rpc engine codec strconv json r d).0 n
        (handle_rpc-IsSteady engine codec strconv json r d n h)
  after-IsSteady (tick ∷ events) d n h =
      after-IsSteady events (reconcile_schedule engine d).0 n
        (reconcile_schedule-IsSteady engine codec d n h)
