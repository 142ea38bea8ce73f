-- ===== src/Daemon/Controls.antt =====
-- internal/daemon/controls.go: the operations on one torrent.
use torrcli.Base.{
  ℕ, ℤ, Bool, true, false, Option, none, some, String, List, dec_str, ite, index_of, err, Exec,
  pure, or_undo, ◌>>=◌, ◌>>◌, not_found,
}
use torrcli.Model.{Session, TorrentId, TorrentSnapshot, FilePriority, zero_snapshot}
use torrcli.Model.Priorities
use torrcli.Model.States
use torrcli.State.Files.{Codec}
use torrcli.Engine.{Engine, request, detached}
use torrcli.Torrents
use torrcli.Daemon.{
  Daemon, items, clone_session, save, set_session, replace_session, get_torrent, put_torrent,
  unschedule, call_engine, run_torrents,
}
use torrcli.Daemon.Records.{
  desired_state, sequential, file_priority, update_record, remove_record, file_priority_of,
}

-- Texts of numbers, as strconv writes and reads them.
pub record Strconv : Type 0 where
  pub itoa : ℤ → String
  pub atoi : String → Option ℤ

unfoldable pub valid_file_priority : FilePriority → Bool
valid_file_priority p =
    ite (dec_str p Priorities.skip) true
      (ite (dec_str p Priorities.normal) true (ite (dec_str p Priorities.high) true false))

-- The session's order with the torrent moved, where the target is within it.
abbrev pub moved_session : ℕ → ℤ → Session → Session
moved_session index offset session = record session {
  order = elim session.order [
    | none ↦ none
    | some order ↦ some (Torrents.move_order index offset order)
  ];
}

module _ {E T : Type 0} (engine : Engine E) (codec : Codec Session T) where
  unfoldable pub pause_torrent : TorrentId → Exec (Daemon E T) TorrentSnapshot
  unfolding get_torrent call_engine unschedule put_torrent
  pause_torrent id = do
    torrent ← get_torrent request id
    call_engine (engine.pause request id)
    unschedule id
    or_undo (update_record codec id (desired_state States.paused))
        (call_engine (engine.resume detached id))
    let torrent' = record torrent { state = States.paused }
    put_torrent detached torrent'
    pure torrent'

  unfoldable pub resume_torrent : TorrentId → Exec (Daemon E T) TorrentSnapshot
  unfolding get_torrent call_engine unschedule put_torrent
  resume_torrent id = do
    torrent ← get_torrent request id
    call_engine (engine.resume request id)
    unschedule id
    or_undo (update_record codec id (desired_state States.downloading))
        (call_engine (engine.pause detached id))
    let torrent' = record torrent { state = States.downloading }
    put_torrent detached torrent'
    pure torrent'

  -- `if !wasPaused { … }`.
  abbrev pub unless : Bool → Exec (Daemon E T) (Unit {0}) → Exec (Daemon E T) (Unit {0})
  unless true m = pure tt
  unless false m = m

  abbrev pub was_paused : TorrentSnapshot → Bool
  was_paused torrent = ite (dec_str torrent.state States.paused) true false

  unfoldable pub verify_torrent : TorrentId → Exec (Daemon E T) TorrentSnapshot
  unfolding get_torrent call_engine unschedule
  verify_torrent id = do
    torrent ← get_torrent request id
    unless (was_paused torrent) (call_engine (engine.pause request id) >> unschedule id)
    or_undo (call_engine (engine.verify request id))
        (unless (was_paused torrent) (call_engine (engine.resume detached id)))
    unless (was_paused torrent) (call_engine (engine.resume request id))
    call_engine (engine.snapshot request id)

  unfoldable pub find_peers : TorrentId → Exec (Daemon E T) (Unit {0})
  unfolding get_torrent call_engine
  find_peers id = do torrent ← get_torrent request id; call_engine (engine.find_peers request id)

  unfoldable pub set_file_priority :
      Strconv → TorrentId → ℤ → FilePriority → Exec (Daemon E T) TorrentSnapshot
  unfolding get_torrent call_engine
  set_file_priority strconv id index priority = do
    torrent ← get_torrent request id
    previous ← file_priority_of codec id (strconv.itoa index)
    call_engine (engine.set_file_priority request id index priority)
    or_undo (update_record codec id (file_priority (strconv.itoa index) priority))
        (call_engine (engine.set_file_priority detached id index previous))
    pure torrent

  unfoldable pub set_sequential : TorrentId → Bool → Exec (Daemon E T) TorrentSnapshot
  unfolding get_torrent call_engine put_torrent
  set_sequential id enabled = do
    t ← get_torrent request id
    call_engine (engine.set_sequential request id enabled)
    or_undo (update_record codec id (sequential enabled))
        (call_engine (engine.set_sequential detached id t.sequential))
    let t' = record t { sequential = enabled }
    put_torrent detached t'
    pure t'

  unfoldable pub remove_torrent : TorrentId → Bool → Exec (Daemon E T) (Unit {0})
  unfolding call_engine unschedule run_torrents Torrents.remove replace_session
  remove_torrent id delete_data = do
    previous ← remove_record codec id
    or_undo (call_engine (engine.remove request id delete_data)) (replace_session codec previous)
    unschedule id
    run_torrents detached (Torrents.remove id)

  unfoldable pub move_torrent : TorrentId → ℤ → Exec (Daemon E T) (List TorrentSnapshot)
  unfolding clone_session save replace_session run_torrents Torrents.move Torrents.list
  move_torrent id offset d =
      let previous = clone_session d.session in
      elim (index_of dec_str id (items previous.order)) [
        | none ↦ (d, err (not_found id))
        | some index ↦
            let session = moved_session index offset (clone_session d.session) in
            (save codec session
                >> set_session session
                >> or_undo (run_torrents detached (Torrents.move id offset))
                    (replace_session codec previous)
                >> run_torrents request (Torrents.list zero_snapshot))
              d
      ]
