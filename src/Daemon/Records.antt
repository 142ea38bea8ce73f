-- ===== src/Daemon/Records.antt =====
-- internal/daemon/controls.go and daemon.go: the writes to the saved session.
use torrcli.Base.{
  Bool, none, some, String, dec_str, lookup, put, erase, remove as delete, ok, err, Exec, pure,
  ◌>>◌, not_found,
}
use torrcli.Model.{Session, TorrentId, TorrentRecord, FilePriority}
use torrcli.Model.Priorities
use torrcli.State.Files.{Codec}
use torrcli.Daemon.{Daemon, items, clone_session, save, set_session}

-- `session.Torrents[id] = record`.
abbrev pub with_record : TorrentId → TorrentRecord → Session → Session
with_record id r session = record session {
  torrents = some (put dec_str id r (items session.torrents));
}

-- The closures that `updateRecord` is given. `file_priority` takes the key as strconv.Itoa writes
-- the index.
pub data Update : Type 0 where
  desired_state : String → Update
  sequential : Bool → Update
  file_priority : String → FilePriority → Update

unfoldable pub apply_update : Update → TorrentRecord → TorrentRecord
apply_update (desired_state s) r = record r { desired_state = s }
apply_update (sequential b) r = record r { sequential = b }
apply_update (file_priority key p) r = record r {
  file_priorities = some (put dec_str key p (items r.file_priorities));
}

-- What the closure does to the record of the session that is still in place: a clone copies the
-- record, but not the map of its file priorities, which the two share unless it is nil.
unfoldable pub shared_update : Update → TorrentRecord → TorrentRecord
shared_update (desired_state s) r = r
shared_update (sequential b) r = r
shared_update (file_priority key p) r = elim r.file_priorities [
  | none ↦ r
  | some m ↦ record r { file_priorities = some (put dec_str key p m) }
]

module _ {E T : Type 0} where
  abbrev write_shared : Update → TorrentId → TorrentRecord → Exec (Daemon E T) (Unit {0})
  write_shared u id r d =
      (record d { session = with_record id (shared_update u r) d.session }, ok tt)

module _ {E T : Type 0} (codec : Codec Session T) where
  unfoldable pub update_record : TorrentId → Update → Exec (Daemon E T) (Unit {0})
  unfolding clone_session save apply_update shared_update
  update_record id u d = elim (lookup dec_str id (items d.session.torrents)) [
    | none ↦ (d, err (not_found id))
    | some r ↦
        let session = with_record id (apply_update u r) (clone_session d.session) in
        (write_shared u id r >> save codec session >> set_session session) d
  ]

  -- The session without the torrent; the result is the session before.
  unfoldable pub remove_record : TorrentId → Exec (Daemon E T) Session
  unfolding clone_session save
  remove_record id d = elim (lookup dec_str id (items d.session.torrents)) [
    | none ↦ (d, err (not_found id))
    | some _ ↦
        let previous = clone_session d.session in
        let session = record previous {
          torrents = some (delete dec_str id (items d.session.torrents));
          order = elim previous.order [ none ↦ none | some order ↦ some (erase dec_str id order) ];
        } in
        (save codec session >> set_session session >> pure previous) d
  ]

  unfoldable pub file_priority_of : TorrentId → String → Exec (Daemon E T) FilePriority
  file_priority_of id key d = elim (lookup dec_str id (items d.session.torrents)) [
    | none ↦ (d, err (not_found id))
    | some r ↦ elim (lookup dec_str key (items r.file_priorities)) [
      | some p ↦ (d, ok p)
      | none ↦ (d, ok Priorities.normal)
    ]
  ]
