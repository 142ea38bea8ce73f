-- ===== src/Daemon/Add.antt =====
-- internal/daemon: adding a torrent, as handleRPC does it, and recordTorrent.
use torrcli.Base.{
  false, none, some, String, [], ◌∷◌, ◌++◌, dec_str, ite, lookup, put, Exec, pure, ignore, or_undo,
  ◌>>=◌, ◌>>◌, if◌then◌else◌,
}
use torrcli.Model.{Session, TorrentId, TorrentRecord, TorrentSnapshot, AddInput, zero_record}
use torrcli.Model.States
use torrcli.State.Files.{Codec}
use torrcli.Engine.{Engine, request, detached}
use torrcli.Rpc.{AddTorrentParams}
use torrcli.Torrents
use torrcli.Daemon.{
  Daemon, items, clone_session, save, set_session, replace_session, call_engine, run_torrents,
}

-- The record that is kept of a torrent: what it had, and the parameters.
unfoldable pub recorded : AddTorrentParams → TorrentSnapshot → TorrentRecord → TorrentRecord
recorded params torrent r = record r {
  source = params.source;
  name = torrent.name;
  save_path = params.save_path;
  sequential = params.sequential;
  desired_state = if params.paused then States.paused else States.downloading;
  added_at = torrent.added_at;
}

-- The session with the record; a new torrent goes to the end of the order.
unfoldable pub with_recorded : TorrentId → AddTorrentParams → TorrentSnapshot → Session → Session
unfolding recorded
with_recorded id params torrent session = elim (lookup dec_str id (items session.torrents)) [
  | none ↦ record {
    order = some (items session.order ++ id ∷ []);
    torrents = some (put dec_str id (recorded params torrent zero_record) (items session.torrents));
  }
  | some r ↦ record session {
    torrents = some (put dec_str id (recorded params torrent r) (items session.torrents));
  }
]

-- `if p.SavePath == "" { … }`.
unfoldable pub with_save_path : String → AddTorrentParams → AddTorrentParams
with_save_path directory p = record p {
  save_path = ite (dec_str p.save_path "") directory p.save_path;
}

unfoldable pub add_input : AddTorrentParams → AddInput
add_input p = record {
  paused = p.paused;
  source = p.source;
  save_path = p.save_path;
  sequential = p.sequential;
  file_priorities = [];
}

module _ {E T : Type 0} (engine : Engine E) (codec : Codec Session T) where
  unfoldable pub record_torrent :
      TorrentId → AddTorrentParams → TorrentSnapshot → Exec (Daemon E T) (Unit {0})
  unfolding clone_session save with_recorded
  record_torrent id params torrent d =
      let session = with_recorded id params torrent (clone_session d.session) in
      (save codec session >> set_session session) d

  -- What is done with a torrent that the engine did not have.
  unfoldable pub add_new :
      TorrentId → AddTorrentParams → TorrentSnapshot → Exec (Daemon E T) TorrentSnapshot
  unfolding clone_session call_engine run_torrents Torrents.put replace_session
  add_new id params torrent d =
      let previous = clone_session d.session in
      (do
        or_undo (record_torrent id params torrent) (call_engine (engine.remove detached id false))
        or_undo (run_torrents detached (Torrents.put torrent)) (
            ignore (replace_session codec previous)
            >> ignore (call_engine (engine.remove detached id false)))
        pure torrent)
        d

  unfoldable pub add_torrent : AddTorrentParams → Exec (Daemon E T) TorrentSnapshot
  unfolding call_engine with_save_path add_input
  add_torrent params d =
      let p = with_save_path d.config.download_directory params in
      (do
        (id, created) ← call_engine (engine.add request (add_input p))
        t ← call_engine (engine.snapshot request id)
        if created then add_new id p t else pure t)
        d
