-- ===== src/Daemon/Startup.antt =====
-- internal/daemon/daemon.go: what Run does before it serves requests. The lock, the new engine and
-- the socket are left out.
use torrcli.Base.{String, ok, err, Error, Exec, ◌>>◌, ignore}
use torrcli.Model.{Config, Session}
use torrcli.State.Files.{Files, Attempt, Codec}
use torrcli.State.Store.{load_or_create_config, load_or_create_session}
use torrcli.Engine.{Engine}
use torrcli.Torrents.{new_state}
use torrcli.Daemon.{Daemon}
use torrcli.Daemon.Controls.{Strconv}
use torrcli.Daemon.Restore.{restore_session}
use torrcli.Daemon.Schedule.{reconcile_schedule}

-- The configuration and its file, and the session and its file. The directory is the "Downloads" of
-- the user's home.
unfoldable pub load_state :
    {C T : Type 0}
    → Codec Config C
    → Codec Session T
    → Attempt
    → Attempt
    → String
    → Exec (Files C × Files T) (Config × Session)
load_state config_codec session_codec a b directory (config_files, session_files) =
    let c = load_or_create_config config_codec a directory config_files in
    let s = load_or_create_session session_codec b session_files in
    elim c.1 [
      | err e ↦ ((c.0, session_files), err e)
      | ok config ↦ elim s.1 [
        | err e ↦ ((c.0, s.0), err e)
        | ok session ↦ ((c.0, s.0), ok (config, session))
      ]
    ]

module _ {E T : Type 0} (engine : Engine E) (strconv : Strconv) (describe : Error → String) where
  -- The torrent session made anew, the torrents of the saved session restored, and the first round
  -- of the scheduler, whose result Run does not look at.
  unfoldable pub start_up : Exec (Daemon E T) (Unit {0})
  unfolding restore_session reconcile_schedule new_state
  start_up d =
      (restore_session engine strconv describe >> ignore (reconcile_schedule engine))
        (record d { torrents = new_state })
