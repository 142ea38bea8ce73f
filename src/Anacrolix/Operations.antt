-- ===== src/Anacrolix/Operations.antt =====
-- internal/engine/anacrolix/engine.go and sequential.go: the operations that change the engine,
-- Remove left aside. A context is asked at the start of each.
pub mod Shown
use torrcli.Base.{
  ℕ, suc, ℤ, pos, negsuc, Bool, true, false, Option, none, some, String, List, [], ◌∷◌, ite,
  dec_str, ℕ_discrete, ltb, length, put, get_elem?, Exec, Result, ok, err, Error, plain, wrap,
  about, pure, fail, ignore, continue, lift, ◌>>=◌, ◌>>◌, if◌then◌else◌, lookup,
}
use torrcli.Model.{TorrentId, FilePriority, AddInput}
use torrcli.Engine.{Context}
use torrcli.Anacrolix.Removal.{Info}
use torrcli.Anacrolix.Library.{Library, MetaInfo, Spec}
use torrcli.Anacrolix.Priorities.{is_magnet, piece_priority}
use torrcli.Anacrolix.Entries.{
  State, Entry, called, wrapped, tell, entry, set_entry, check, boost_entry, restore_priorities,
  store,
}

module _ {L H S M F : Type 0} (library : Library L H S M F) where
  abbrev known : Option Info → Exec (State L H S F) Info
  known none = fail (plain "torrent metadata is not available yet")
  known (some info) = pure info

  -- `if entry.torrent.Info() == nil`.
  unfoldable pub info_of : H → Exec (State L H S F) Info
  info_of t s = known (library.info t s.outside) s

  unfoldable pub torrent_spec : String → Exec L (M × Option (MetaInfo F))
  unfolding is_magnet
  torrent_spec source =
      if is_magnet source
      then wrapped "parse magnet link"
          (lift (library.spec_from_magnet source) >>= λ m. pure (m, none))
      else (wrapped "load torrent file" (library.load_from_file source) >>= λ meta.
          wrapped "read torrent file" (lift (library.spec_from_metainfo meta.file)) >>= λ m.
          pure (m, some meta))

  abbrev new_entry : AddInput → Option (MetaInfo F) → H → S → ℕ → Entry H S F
  new_entry input meta t storage added_at = record {
    torrent = t;
    storage = storage;
    save_path = input.save_path;
    meta_info = meta;
    added_at = added_at;
    file_priorities = input.file_priorities;
    sequential = input.sequential;
    boosted = [];
    paused = input.paused;
    last_download = 0;
    last_upload = 0;
    last_download_rate = pos 0;
    last_upload_rate = pos 0;
    last_sample = 0;
  }

  -- From AddTorrentSpec on. The goroutine that is started is `got_info`.
  unfoldable pub register :
      AddInput → M → Option (MetaInfo F) → Exec (State L H S F) (TorrentId × Bool)
  unfolding called
  register input source meta s =
      let (l, storage) = library.new_file_storage input.save_path s.outside in
      let r =
        library.add_torrent_spec
          (record {
            source = source;
            storage = storage;
            disallow_download = input.paused;
            disallow_upload = input.paused;
          })
          l in
      let s' = record s { outside = r.0 } in
      elim r.1 [
        | err e ↦
            (ignore (called (library.close_storage storage)) >> fail (wrap "add torrent" e)) s'
        | ok (t, created) ↦
            let id = library.info_hash t in
            if created
            then (set_entry id (new_entry input meta t storage (library.now r.0))
                  >> pure (id, true))
                s'
            else (ignore (called (library.close_storage storage)) >> pure (id, false)) s'
      ]

  unfoldable pub add : Context → AddInput → Exec (State L H S F) (TorrentId × Bool)
  unfolding check called torrent_spec register
  add context input = do
    check library context
    ite (dec_str input.save_path "") (fail (plain "torrent save path is required")) (pure tt)
    called (wrapped "create torrent save path" (library.make_directory input.save_path))
    (source, meta) ← called (torrent_spec input.source)
    register input source meta

  -- The goroutine of Add, when the metadata of its torrent is there: nothing is done if the entry
  -- has gone or has another torrent by then.
  unfoldable pub got_info : TorrentId → H → State L H S F → State L H S F
  unfolding restore_priorities
  got_info id t s = elim (lookup dec_str id s.torrents) [
    | none ↦ s
    | some e ↦
        ite (library.same_torrent e.torrent t) (store id (restore_priorities library e) s).0 s
  ]

  abbrev close_all : List ℕ → L → L
  close_all [] l = l
  close_all (peer ∷ peers) l = close_all peers (library.close_peer peer l)

  unfoldable pub pause : Context → TorrentId → Exec (State L H S F) (Unit {0})
  unfolding check entry
  pause context id = do
    check library context
    e ← entry id
    tell (library.disallow_data_download e.torrent)
    tell (library.disallow_data_upload e.torrent)
    tell (λ l. close_all (library.peer_conns e.torrent l) l)
    tell (λ l. close_all (library.webseed_peer_conns e.torrent l) l)
    set_entry id (record e { paused = true })

  unfoldable pub resume : Context → TorrentId → Exec (State L H S F) (Unit {0})
  unfolding check entry
  resume context id = do
    check library context
    e ← entry id
    tell (library.allow_data_download e.torrent)
    tell (library.allow_data_upload e.torrent)
    set_entry id (record e { paused = false })

  unfoldable pub verify : Context → TorrentId → Exec (State L H S F) (Unit {0})
  unfolding check entry info_of called
  verify context id = do
    check library context
    e ← entry id
    info ← info_of e.torrent
    called (wrapped "verify torrent data" (library.verify_data context e.torrent))

  -- The goroutine that ends the announcement after a while is left out.
  abbrev announce_all : H → List ℕ → Exec L (Unit {0})
  announce_all t [] = pure tt
  announce_all t (server ∷ servers) = do
    wrapped "announce to DHT" (library.announce_to_dht t server)
    announce_all t servers

  abbrev announce : H → List ℕ → Exec L (Unit {0})
  announce t [] = fail (plain "DHT is disabled")
  announce t (server ∷ servers) = announce_all t (server ∷ servers)

  abbrev is_private : Option Bool → Bool
  is_private (some true) = true
  is_private (some false) = false
  is_private none = false

  unfoldable pub find_peers : Context → TorrentId → Exec (State L H S F) (Unit {0})
  unfolding check entry info_of called
  find_peers context id = do
    check library context
    e ← entry id
    info ← info_of e.torrent
    if is_private info.is_private
        then fail (plain "DHT peer discovery is unavailable for private torrents")
        else pure tt
    called (λ l. announce e.torrent (library.dht_servers l) l)

  unfoldable pub set_sequential : Context → TorrentId → Bool → Exec (State L H S F) (Unit {0})
  unfolding check entry boost_entry
  set_sequential context id enabled = do
    check library context
    e ← entry id
    store id (boost_entry library (record e { sequential = enabled }))

  -- `fileIndex < 0 || fileIndex >= len(files)`.
  abbrev in_range : ℤ → ℕ → Option ℕ
  in_range (negsuc n) count = none
  in_range (pos n) count = if ltb n count then some n else none

  abbrev set_priority :
      TorrentId → Entry H S F → FilePriority → Option ℕ → Exec (State L H S F) (Unit {0})
  set_priority id e p none = fail (about "file not found in torrent" id)
  set_priority id e p (some index) = do
    tell (library.set_file_priority e.torrent index (piece_priority p))
    store id (
        boost_entry library
          (record e { file_priorities = put ℕ_discrete index p e.file_priorities }))

  unfoldable pub set_file_priority :
      Context → TorrentId → ℤ → FilePriority → Exec (State L H S F) (Unit {0})
  unfolding check entry info_of piece_priority boost_entry
  set_file_priority context id index p = do
    check library context
    e ← entry id
    info ← info_of e.torrent
    λ s. set_priority id e p (in_range index (length (library.files e.torrent s.outside))) s
