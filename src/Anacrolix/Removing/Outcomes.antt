-- ===== src/Anacrolix/Removing/Outcomes.antt =====
-- internal/engine/anacrolix/engine.go: how Remove can end.
use torrcli.Base.{
  ◌≡◌, ◌≢◌, refl, sym, ap, ◌∙◌, arith, Bool, true, false, Option, none, some, List, [], dec_str,
  lookup, put, present, lookup-put_ne, lookup-put_self, remove as delete, Exec, Result, ok, err,
  Error, wrap, lift, continue, ◌>>=◌, ◌>>◌, if◌then◌else◌, present_of_some,
}
use torrcli.Model.{TorrentId}
use torrcli.Engine.{Context}
use torrcli.Anacrolix.Paths.{Names}
use torrcli.Anacrolix.Disk.{Disk}
use torrcli.Anacrolix.Removal.{Info, prepare_data_removal, remove_data_files}
use torrcli.Anacrolix.Shared.{check_shared_files}
use torrcli.Anacrolix.Library.{Library, Spec}
use torrcli.Anacrolix.Entries.{State, Entry, called, entry, check, restore_priorities}
use torrcli.Anacrolix.Removing.Keeping.{
  Leaves, Leaves-called, Leaves-bind, Leaves-check, Leaves-entry, entry_found,
}
use torrcli.Anacrolix.Removing.{
  forget, shared_of, deferred, add_again, remove_keeping_data, remove_with_data, check_removal,
  remove_data, remove,
}

put_kept :
    {V : Type 0} (id : TorrentId) (v : V) (m : List (TorrentId × V)) {w : V}
    → lookup dec_str id m ≡ some w
    → present dec_str id (put dec_str id v m) ≡ present dec_str id m
put_kept id v m h =
    present_of_some dec_str id (put dec_str id v m) (lookup-put_self dec_str id v m)
    ∙ sym (present_of_some dec_str id m h)

module _ {L H S M F R : Type 0} (library : Library L H S M F) (disk : Disk L R) where
  -- The torrent is gone after a success; after a failure there still is an entry for it. The other
  -- entries stay.
  pub data Removed (id : TorrentId) (s : State L H S F) (m : State L H S F × Result (Unit {0}))
      : Type 0 where
    gone : m.1 ≡ ok tt → m.0.torrents ≡ delete dec_str id s.torrents → Removed id s m
    kept :
        (x : Error)
        → m.1 ≡ err x
        → present dec_str id m.0.torrents ≡ present dec_str id s.torrents
        → ((j : TorrentId) → id ≢ j → lookup dec_str j m.0.torrents ≡ lookup dec_str j s.torrents)
        → Removed id s m

  -- A failure that leaves the entries alone.
  same_Removed :
      (id : TorrentId) (s : State L H S F) (m : State L H S F × Result (Unit {0})) {x : Error}
      → m.1 ≡ err x
      → m.0.torrents ≡ s.torrents
      → Removed id s m
  same_Removed id s m e f = kept _ e (rw f refl) (λ j n. rw f refl)

  add_again-Removed :
      (id : TorrentId) (e : Entry H S F) (source : M) (failure : Error) (s : State L H S F)
      → lookup dec_str id s.torrents ≡ some e
      → Removed id s (add_again library disk id e source failure s)
  unfolding add_again called
  add_again-Removed id e source failure s h = added _ refl
    where
      l : L
      l = (library.new_file_storage e.save_path s.outside).0

      spec : Spec M S
      spec = record {
        source = source;
        storage = (library.new_file_storage e.save_path s.outside).1;
        disallow_download = e.paused;
        disallow_upload = e.paused;
      }

      added :
          (r : Result (H × Bool))
          → (library.add_torrent_spec spec l).1 ≡ r
          → Removed id s (add_again library disk id e source failure s)
      added (ok (t, created)) f =
          let changed : Entry H S F =
            (restore_priorities library
              (record e { torrent = t; storage = spec.storage; boosted = []; last_sample = 0 })
              (library.add_torrent_spec spec l).0).1 in
          let stored : (add_again library disk id e source failure s).0.torrents
              ≡ put dec_str id changed s.torrents =
            ground arith in
          kept (wrap "could not delete all torrent files" failure) (ground arith)
            (rw stored (put_kept id changed s.torrents h))
            (λ j n. rw stored (lookup-put_ne dec_str j id changed s.torrents n))
      added (err x) f =
          same_Removed id s (add_again library disk id e source failure s)
            {x = wrap "delete files; restore torrent" x} (ground arith) (ground arith)

  pub remove_keeping_data-Removed :
      (id : TorrentId) (e : Entry H S F) (s : State L H S F)
      → Removed id s (remove_keeping_data library disk id e s)
  unfolding remove_keeping_data called
  remove_keeping_data-Removed id e s =
      closed (library.close_storage e.storage (library.drop e.torrent s.outside)).1 refl
    where
      closed :
          (r : Result (Unit {0}))
          → (library.close_storage e.storage (library.drop e.torrent s.outside)).1 ≡ r
          → Removed id s (remove_keeping_data library disk id e s)
      closed (ok u) f = gone (ground arith) (ground arith)
      closed (err x) f =
          same_Removed id s (remove_keeping_data library disk id e s)
            {x = wrap "close torrent storage" x} (ground arith) (ground arith)

  Removed-from :
      (id : TorrentId) (s s' : State L H S F) (m : State L H S F × Result (Unit {0}))
      → s'.torrents ≡ s.torrents
      → Removed id s' m
      → Removed id s m
  Removed-from id s s' m e (gone f g) = gone f (g ∙ ap (delete dec_str id) e)
  Removed-from id s s' m e (kept x f g h) =
      kept x f (g ∙ ap (present dec_str id) e) (λ j n. h j n ∙ ap (lookup dec_str j) e)

  remove_with_data-Removed :
      (id : TorrentId) (e : Entry H S F) (root : Option R) (paths : List Names) (source : M)
      (s : State L H S F)
      → lookup dec_str id s.torrents ≡ some e
      → Removed id s (remove_with_data library disk id e root paths source s)
  unfolding remove_with_data
  remove_with_data-Removed id e root paths source s h =
      let s' : State L H S F = record s { outside = library.drop e.torrent s.outside } in
      let m =
        (called (library.close_storage e.storage) >> called (remove_data_files disk root paths))
          s' in
      ended m.0 m.1 (
        Leaves-bind (called (library.close_storage e.storage))
          (λ u. called (remove_data_files disk root paths))
          (Leaves-called (library.close_storage e.storage))
          (λ u. Leaves-called (remove_data_files disk root paths)) s')
    where
      ended :
          (s' : State L H S F) (r : Result (Unit {0}))
          → s'.torrents ≡ s.torrents
          → Removed id s (elim r [
            | ok u ↦ forget library disk id s'
            | err x ↦ add_again library disk id e source x s'
          ])
      ended s' (ok u) k = gone refl (ap (delete dec_str id) k)
      ended s' (err x) k =
          Removed-from id s s' (add_again library disk id e source x s') k
            (add_again-Removed id e source x s' (rw k h))

  Leaves-check_removal :
      (e : Entry H S F) (paths : List Names) → Leaves (check_removal library disk e paths)
  unfolding check_removal
  Leaves-check_removal e paths s =
      Leaves-bind
        (called (
          check_shared_files disk library.same_torrent e.torrent e.save_path paths
            (shared_of library disk s.outside s.torrents)))
        (λ u s. lift (library.spec_from_metainfo (library.metainfo e.torrent s.outside)) s)
        (Leaves-called (
          check_shared_files disk library.same_torrent e.torrent e.save_path paths
            (shared_of library disk s.outside s.torrents)))
        (λ u s. refl) s

  -- A step that leaves the entries alone, and fails or goes on.
  Removed-bind :
      {A : Type 0} (id : TorrentId) (s : State L H S F) (m : Exec (State L H S F) A)
      (k : A → Exec (State L H S F) (Unit {0}))
      → Leaves m
      → ((a : A) (s' : State L H S F)
          → s'.torrents ≡ s.torrents
          → (m s).1 ≡ ok a
          → Removed id s' (k a s'))
      → Removed id s ((m >>= k) s)
  Removed-bind {A = A} id s m k g h = went (m s).0 (m s).1 (g s) h
    where
      went :
          (s' : State L H S F) (r : Result A)
          → s'.torrents ≡ s.torrents
          → ((a : A) (s' : State L H S F)
              → s'.torrents ≡ s.torrents
              → r ≡ ok a
              → Removed id s' (k a s'))
          → Removed id s (continue s' r k)
      went s' (ok a) e h = Removed-from id s s' (k a s') e (h a s' e refl)
      went s' (err x) e h = same_Removed id s (s', err x) refl e

  deferred-Removed :
      (id : TorrentId) (s : State L H S F) (root : Option R) (m : State L H S F × Result (Unit {0}))
      → Removed id s m
      → Removed id s (deferred library disk root m)
  deferred-Removed id s root m (gone e f) = gone e f
  deferred-Removed id s root m (kept x e f g) = kept x e f g

  remove_data-Removed :
      (id : TorrentId) (e : Entry H S F) (info : Option Info) (s : State L H S F)
      → lookup dec_str id s.torrents ≡ some e
      → Removed id s (remove_data library disk id e info s)
  unfolding remove_data
  remove_data-Removed id e none s h = same_Removed id s (s, err _) refl refl
  remove_data-Removed id e (some info) s h =
      Removed-bind id s (called (prepare_data_removal disk e.save_path info)) _
        (Leaves-called (prepare_data_removal disk e.save_path info))
        (λ (root, paths) s' f g. deferred-Removed id s' root _ (
          Removed-bind id s' (check_removal library disk e paths)
            (λ source. remove_with_data library disk id e root paths source)
            (Leaves-check_removal e paths)
            (λ source t k l. remove_with_data-Removed id e root paths source t (rw (k, f) h))))

  -- Remove forgets the torrent if it succeeds, and only then: after a failure the engine has an entry
  -- for it if it had one before, whether the files could not be deleted, the storage not be closed or the
  -- torrent not be added again. The other entries stay either way.
  pub remove-Removed :
      (context : Context) (id : TorrentId) (delete_data : Bool) (s : State L H S F)
      → Removed id s (remove library disk context id delete_data s)
  unfolding remove
  remove-Removed context id delete_data s =
      Removed-bind id s (check library context) _ (Leaves-check library context) (λ u t e f.
        Removed-bind id t (entry id) _ (Leaves-entry id)
          (λ found t' g h. either delete_data found t' (rw g (entry_found id t found h))))
    where
      either :
          (b : Bool) (e : Entry H S F) (t : State L H S F)
          → lookup dec_str id t.torrents ≡ some e
          → Removed id t (
              (if b
                  then (λ s. remove_data library disk id e (library.info e.torrent s.outside) s)
                  else remove_keeping_data library disk id e)
                t)
      either true e t h = remove_data-Removed id e (library.info e.torrent t.outside) t h
      either false e t h = remove_keeping_data-Removed id e t
