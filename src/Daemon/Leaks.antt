-- ===== src/Daemon/Leaks.antt =====
-- internal/daemon/controls.go: what an update that could not be saved leaves in memory.
use torrcli.Base.{
  ◌≡◌, ◌≢◌, arith, some, String, List, [], dec_str, lookup, put, lookup-put_self, ok,
}
use torrcli.Model.{Session, TorrentId, TorrentRecord, FilePriority}
use torrcli.State.Files.{Codec}
use torrcli.State.Store.{save_session}
use torrcli.State.Validate.{validate_session}
use torrcli.Daemon.{Daemon, items, clone_session, save, replace_session}
use torrcli.Daemon.Records.{file_priority, update_record, shared_update}

module _ {E T : Type 0} (codec : Codec Session T) where
  -- An update of a file's priority that is not saved is in memory all the same, if the torrent has
  -- priorities of files already: the map is shared by the session in place and its clone.
  pub priority_leaks :
      (id : TorrentId) (key : String) (p : FilePriority) (d : Daemon E T) (r : TorrentRecord)
      (m : List (String × FilePriority))
      → lookup dec_str id (items d.session.torrents) ≡ some r
      → r.file_priorities ≡ some m
      → (update_record codec id (file_priority key p) d).1 ≢ ok tt
      → lookup dec_str id
          (items (update_record codec id (file_priority key p) d).0.session.torrents)
        ≡ some (record r { file_priorities = some (put dec_str key p m) })
  unfolding update_record shared_update save
  priority_leaks id key p d r m e f h = ground (
    arith,
    lookup-put_self dec_str id (shared_update (file_priority key p) r) (items d.session.torrents),
  )

  -- A clone of a session without torrents has no order, so that it is not saved: going back to it
  -- fails, on any disk.
  pub empty_clone_refused :
      (s : Session) (d : Daemon E T)
      → items s.order ≡ []
      → ((replace_session codec (clone_session s) d).1 ≢ ok tt)
        × ((replace_session codec (clone_session s) d).0.session ≡ d.session)
  unfolding replace_session save save_session validate_session clone_session
  empty_clone_refused s d e = (ground arith, ground arith)
