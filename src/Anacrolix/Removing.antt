-- ===== src/Anacrolix/Removing.antt =====
-- internal/engine/anacrolix/engine.go: Remove and Close, and the engine as the daemon has it.
pub mod Keeping
pub mod Outcomes
use torrcli.Base.{
  ℕ, Bool, true, false, Option, none, some, String, List, [], ◌∷◌, map, dec_str, remove as delete,
  put, Exec, Result, ok, err, Error, plain, wrap, pure, fail, ignore, continue, lift, ◌>>=◌, ◌>>◌,
  if◌then◌else◌,
}
use torrcli.Model.{TorrentId}
use torrcli.Engine.{Engine, Context}
use torrcli.Anacrolix.Paths.{Names}
use torrcli.Anacrolix.Disk.{Disk}
use torrcli.Anacrolix.Removal.{Info, prepare_data_removal, remove_data_files}
use torrcli.Anacrolix.Shared.{Shared, check_shared_files}
use torrcli.Anacrolix.Library.{Library}
use torrcli.Anacrolix.Entries.{State, Entry, called, tell, entry, check, restore_priorities, store}
use torrcli.Anacrolix.Operations.{
  add, pause, resume, verify, find_peers, set_sequential, set_file_priority,
}
use torrcli.Anacrolix.Snapshots.{take_snapshot, details}

module _ {L H S M F R : Type 0} (library : Library L H S M F) (disk : Disk L R) where
  abbrev pub shared_of : L → List (TorrentId × Entry H S F) → List (Shared H)
  shared_of l entries =
      map
        (λ (entry : TorrentId × Entry H S F). record {
          torrent = entry.1.torrent;
          save_path = entry.1.save_path;
          info = library.info entry.1.torrent l;
        })
        entries

  -- `delete(e.torrents, id)`.
  abbrev pub forget : TorrentId → Exec (State L H S F) (Unit {0})
  forget id s = (record s { torrents = delete dec_str id s.torrents }, ok tt)

  -- The torrent is added again after a deletion that failed with `e`.
  unfoldable pub add_again : TorrentId → Entry H S F → M → Error → Exec (State L H S F) (Unit {0})
  unfolding called restore_priorities
  add_again id e source failure s =
      let (l, storage) = library.new_file_storage e.save_path s.outside in
      let r =
        library.add_torrent_spec
          (record {
            source = source;
            storage = storage;
            disallow_download = e.paused;
            disallow_upload = e.paused;
          })
          l in
      let s' = record s { outside = r.0 } in
      elim r.1 [
        | err x ↦
            (ignore (called (library.close_storage storage))
                >> fail (wrap "delete files; restore torrent" x))
              s'
        | ok (t, created) ↦
            (store id (
                  restore_priorities library
                    (record e { torrent = t; storage = storage; boosted = []; last_sample = 0 }))
                >> fail (wrap "could not delete all torrent files" failure))
              s'
      ]

  unfoldable pub remove_keeping_data : TorrentId → Entry H S F → Exec (State L H S F) (Unit {0})
  unfolding called
  remove_keeping_data id e = do
    tell (library.drop e.torrent)
    λ s.
        let r = called (library.close_storage e.storage) s in
        elim r.1 [ ok u ↦ forget id r.0 | err x ↦ (r.0, err (wrap "close torrent storage" x)) ]

  unfoldable pub remove_with_data :
      TorrentId → Entry H S F → Option R → List Names → M → Exec (State L H S F) (Unit {0})
  unfolding called remove_data_files add_again
  remove_with_data id e root paths source = do
    tell (library.drop e.torrent)
    λ s.
        let r =
          (called (library.close_storage e.storage) >> called (remove_data_files disk root paths))
            s in
        elim r.1 [ ok u ↦ forget id r.0 | err x ↦ add_again id e source x r.0 ]

  -- What is checked before anything is dropped, from checkSharedFiles on: what the torrent is added
  -- again from, if need be.
  unfoldable pub check_removal : Entry H S F → List Names → Exec (State L H S F) M
  unfolding called check_shared_files
  check_removal e paths s =
      (called (
            check_shared_files disk library.same_torrent e.torrent e.save_path paths
              (shared_of s.outside s.torrents))
          >> λ s. lift (library.spec_from_metainfo (library.metainfo e.torrent s.outside)) s)
        s

  abbrev pub close_opened : Option R → L → L
  close_opened none l = l
  close_opened (some root) l = disk.close_root root l

  -- `defer root.Close()`.
  abbrev pub deferred :
      Option R → State L H S F × Result (Unit {0}) → State L H S F × Result (Unit {0})
  deferred root r = ((tell (close_opened root) r.0).0, r.1)

  unfoldable pub remove_data :
      TorrentId → Entry H S F → Option Info → Exec (State L H S F) (Unit {0})
  unfolding called prepare_data_removal check_removal remove_with_data
  remove_data id e none = fail (plain "cannot delete files before torrent metadata is available")
  remove_data id e (some info) = do
    (root, paths) ← called (prepare_data_removal disk e.save_path info)
    λ s.
        deferred root
          ((check_removal e paths >>= λ source. remove_with_data id e root paths source) s)

  unfoldable pub remove : Context → TorrentId → Bool → Exec (State L H S F) (Unit {0})
  unfolding check entry remove_data remove_keeping_data
  remove context id delete_data = do
    check library context
    e ← entry id
    if delete_data
        then (λ s. remove_data id e (library.info e.torrent s.outside) s)
        else remove_keeping_data id e

  unfoldable pub close_entries : List (TorrentId × Entry H S F) → Exec (State L H S F) (Unit {0})
  unfolding called
  close_entries [] = pure tt
  close_entries ((id, e) ∷ entries) = remove_keeping_data id e >> close_entries entries

  abbrev closed : List Error → Result (Unit {0})
  closed [] = ok tt
  closed (e ∷ es) = err (wrap "close torrent client" e)

  unfoldable pub close : Exec (State L H S F) (Unit {0})
  unfolding close_entries
  close s =
      (close_entries s.torrents >> λ s.
      (let r = library.close_client s.outside in (record s { outside = r.0 }, closed r.1)))
        s

  unfoldable pub engine : Engine (State L H S F)
  unfolding add pause resume verify find_peers remove set_sequential set_file_priority take_snapshot
      details
  engine = record {
    add = add library;
    pause = pause library;
    resume = resume library;
    verify = verify library;
    find_peers = find_peers library;
    remove = remove;
    set_sequential = set_sequential library;
    set_file_priority = set_file_priority library;
    snapshot = take_snapshot library;
    details = details library;
  }
