-- ===== src/Daemon/Restore.antt =====
-- internal/daemon/daemon.go: restoreSession, which hands the saved torrents to a new engine.
use torrcli.Base.{
  ℕ, pos, negsuc, Bool, true, false, none, some, String, List, [], ◌∷◌, dec_str, ite, lookup, put,
  ℕ_discrete, ok, err, Error, plain, Exec, pure, fail, ◌>>=◌, ◌>>◌, if◌then◌else◌,
}
use torrcli.Model.{
  Session, TorrentId, TorrentRecord, TorrentSnapshot, AddInput, FilePriority, zero_record,
  zero_snapshot,
}
use torrcli.Model.States
use torrcli.Engine.{Engine, request, detached}
use torrcli.Daemon.{Daemon, items, put_torrent, call_engine}
use torrcli.Daemon.Controls.{Strconv}

-- filePriorities: the keys that are numbers, as numbers.
unfoldable pub file_priorities : Strconv → List (String × FilePriority) → List (ℕ × FilePriority)
file_priorities strconv [] = []
file_priorities strconv ((key, p) ∷ m) =
    let others = file_priorities strconv m in
    elim (strconv.atoi key) [
      | none ↦ others
      | some (pos n) ↦ put ℕ_discrete n p others
      | some (negsuc n) ↦ others
    ]

unfoldable pub is_paused : TorrentRecord → Bool
is_paused r = ite (dec_str r.desired_state States.paused) true false

unfoldable pub restore_input : Strconv → TorrentRecord → AddInput
unfolding is_paused file_priorities
restore_input strconv r = record {
  paused = is_paused r;
  source = r.source;
  save_path = r.save_path;
  sequential = r.sequential;
  file_priorities = file_priorities strconv (items r.file_priorities);
}

-- The torrent as it is shown if it could not be restored.
unfoldable pub failed_torrent :
    (Error → String) → TorrentId → TorrentRecord → Error → TorrentSnapshot
failed_torrent describe id r e = record zero_snapshot {
  id = id;
  name = r.name;
  state = States.error;
  added_at = r.added_at;
  error = describe e;
}

-- `d.session.Torrents[id]`, the zero record where there is none.
unfoldable pub record_of : TorrentId → Session → TorrentRecord
record_of id session = elim (lookup dec_str id (items session.torrents)) [
  | none ↦ zero_record
  | some r ↦ r
]

module _ {E T : Type 0} (engine : Engine E) (strconv : Strconv) (describe : Error → String) where
  -- The calls that stop at the first error.
  unfoldable pub restore_torrent : TorrentId → TorrentRecord → Exec (Daemon E T) TorrentSnapshot
  unfolding restore_input call_engine is_paused
  restore_torrent id r = do
    (restored, created) ← call_engine (engine.add request (restore_input strconv r))
    ite (dec_str restored id) (pure tt)
        (fail (plain "restored torrent ID does not match session ID"))
    if is_paused r then call_engine (engine.pause request id) else pure tt
    snapshot ← call_engine (engine.snapshot request id)
    pure (record snapshot { added_at = r.added_at })

  unfoldable pub restore_one : TorrentId → TorrentRecord → Exec (Daemon E T) (Unit {0})
  unfolding restore_torrent failed_torrent put_torrent
  restore_one id r d =
      let tried = restore_torrent id r d in
      elim tried.1 [
        | ok torrent ↦ put_torrent detached torrent tried.0
        | err e ↦ put_torrent detached (failed_torrent describe id r e) tried.0
      ]

  unfoldable pub restore_all : Session → List TorrentId → Exec (Daemon E T) (Unit {0})
  restore_all session [] = pure tt
  restore_all session (id ∷ ids) = do restore_one id (record_of id session); restore_all session ids

  unfoldable pub restore_session : Exec (Daemon E T) (Unit {0})
  unfolding restore_one record_of
  restore_session d = restore_all d.session (items d.session.order) d
