-- ===== src/Anacrolix/Entries.antt =====
-- internal/engine/anacrolix/engine.go: the engine's state, and the steps that its operations are made of. The
-- mutex makes each operation one action on this state.
use torrcli.Base.{
  ℕ, suc, ℤ, Bool, true, false, Option, none, some, String, List, [], ◌∷◌, ℕ_discrete, dec_str,
  lookup, put, Exec, ok, err, wrap, not_found, map,
}
use torrcli.Model.{TorrentId, FilePriority}
use torrcli.Model.Priorities
use torrcli.Engine.{Context}
use torrcli.Sequential.{PiecePriority, PieceFile, no_priority, update_sequential as update_boosted}
use torrcli.Anacrolix.Library.{Library, MetaInfo, TorrentFile}
use torrcli.Anacrolix.Priorities.{piece_priority}

-- `torrentEntry`. A time is 0 if it is the zero time.
pub record Entry (H S F : Type 0) : Type 0 where
  pub torrent : H
  pub storage : S
  pub save_path : String
  pub meta_info : Option (MetaInfo F)
  pub added_at : ℕ
  pub file_priorities : List (ℕ × FilePriority)
  pub sequential : Bool
  pub boosted : List (ℕ × PiecePriority)
  pub paused : Bool
  pub last_download : ℕ
  pub last_upload : ℕ
  pub last_download_rate : ℤ
  pub last_upload_rate : ℤ
  pub last_sample : ℕ

-- `outside` is the library's client, the disk and the clock. The channel of events is never used.
pub record State (L H S F : Type 0) : Type 0 where
  pub outside : L
  pub torrents : List (TorrentId × Entry H S F)

-- `priority != PiecePriorityNone`.
abbrev pub is_wanted : PiecePriority → Bool
is_wanted no_priority = false
is_wanted p = true

abbrev pub piece_file : TorrentFile → PieceFile
piece_file f = record { wanted = is_wanted f.priority; first = f.begin_piece; end = f.end_piece }

-- `fmt.Errorf("text: %w", err)` where the call fails.
abbrev pub wrapped : {L A : Type 0} → String → Exec L A → Exec L A
wrapped text m l = let r = m l in elim r.1 [ ok a ↦ (r.0, ok a) | err e ↦ (r.0, err (wrap text e)) ]

module _ {L H S F A : Type 0} where
  unfoldable pub called : Exec L A → Exec (State L H S F) A
  called m s = let r = m s.outside in (record s { outside = r.0 }, r.1)

module _ {L H S F : Type 0} where
  -- A call that returns nothing.
  abbrev pub tell : (L → L) → Exec (State L H S F) (Unit {0})
  tell f s = (record s { outside = f s.outside }, ok tt)

  -- `e.entry(id)`.
  unfoldable pub entry : TorrentId → Exec (State L H S F) (Entry H S F)
  entry id s = elim (lookup dec_str id s.torrents) [
    | none ↦ (s, err (not_found id))
    | some found ↦ (s, ok found)
  ]

  -- `e.torrents[id] = entry`.
  abbrev pub set_entry : TorrentId → Entry H S F → Exec (State L H S F) (Unit {0})
  set_entry id changed s = (record s { torrents = put dec_str id changed s.torrents }, ok tt)

  -- What the function makes of the entry is stored.
  abbrev pub store : TorrentId → (L → L × Entry H S F) → Exec (State L H S F) (Unit {0})
  store id f s =
      let r = f s.outside in
      (record { outside = r.0; torrents = put dec_str id r.1 s.torrents }, ok tt)

module _ {L H S M F : Type 0} (library : Library L H S M F) where
  -- `ctx.Err()`.
  unfoldable pub check : Context → Exec (State L H S F) (Unit {0})
  check context s = elim (library.context_error context s.outside) [
    | none ↦ (s, ok tt)
    | some e ↦ (s, err e)
  ]

  -- updateSequential on an entry, which is stored afterwards.
  unfoldable pub boost_entry : Entry H S F → L → L × Entry H S F
  unfolding update_boosted
  boost_entry e l =
      let t = e.torrent in
      elim (library.info t l) [
        | none ↦ (l, e)
        | some info ↦
            let r =
              update_boosted (library.complete t l) e.sequential (some info.piece_length)
                (map piece_file (library.files t l)) e.boosted (library.piece_priority t l) in
            (library.set_piece_priorities t r.1 l, record e { boosted = r.0 })
      ]

  -- The loop over the files that gives each the priority that was saved for it.
  unfoldable pub set_saved_priorities : H → List (ℕ × FilePriority) → ℕ → List TorrentFile → L → L
  unfolding piece_priority
  set_saved_priorities t saved index [] l = l
  set_saved_priorities t saved index (f ∷ fs) l = set_saved_priorities t saved (suc index) fs (
      library.set_file_priority t index
        (piece_priority (priority_of (lookup ℕ_discrete index saved))) l)
    where
      priority_of : Option FilePriority → FilePriority
      priority_of none = Priorities.normal
      priority_of (some p) = p

  -- The same, and updateSequential.
  unfoldable pub restore_priorities : Entry H S F → L → L × Entry H S F
  unfolding set_saved_priorities boost_entry
  restore_priorities e l =
      boost_entry e
        (set_saved_priorities e.torrent e.file_priorities 0 (library.files e.torrent l) l)
