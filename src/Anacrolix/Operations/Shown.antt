-- ===== src/Anacrolix/Operations/Shown.antt =====
-- internal/engine/anacrolix/engine.go: the priority of a file, from SetFilePriority to Details.
use torrcli.Base.{
  ℕ, zero, suc, ◌+◌, ◌≡◌, ◌<◌, refl, sym, ◌∙◌, ap, subst, arith, pos, some, List, [], ◌∷◌, dec_str,
  ℕ_discrete, lookup, put, lookup-put_self, get_elem?, length, ltb, ok, Option-cases, Bool-cases,
  inl, inr,
}
use torrcli.Model.{TorrentId, FilePriority, FileSnapshot, TorrentDetails}
use torrcli.Model.Priorities
use torrcli.Engine.{Context}
use torrcli.Sequential.{PiecePriority}
use torrcli.Anacrolix.Removal.{Info}
use torrcli.Anacrolix.Library.{Library, TorrentFile}
use torrcli.Anacrolix.Priorities.{piece_priority, file_priority}
use torrcli.Anacrolix.Entries
use torrcli.Anacrolix.Entries.{State, Entry, check, boost_entry}
use torrcli.Anacrolix.Operations.{info_of, set_file_priority}
use torrcli.Anacrolix.Snapshots.{file_snapshots, details_of, details}

-- One of the three priorities that there are.
pub data IsPriority : FilePriority → Type 0 where
  skipped : IsPriority Priorities.skip
  usual : IsPriority Priorities.normal
  raised : IsPriority Priorities.high

-- Both names of a priority are of the same one.
file_priority-piece_priority :
    {p : FilePriority} → IsPriority p → file_priority (piece_priority p) ≡ p
unfolding file_priority piece_priority dec_str
file_priority-piece_priority skipped = refl
file_priority-piece_priority usual = refl
file_priority-piece_priority raised = refl

-- A file has the priority that was set last, pieces have priorities of their own, and neither
-- changes the metadata.
pub record KeepsPriorities {L H S M F : Type 0} (library : Library L H S M F) : Type 0 where
  pub sets :
      (t : H) (i : ℕ) (p : PiecePriority) (l : L) (f : TorrentFile)
      → get_elem? (library.files t l) i ≡ some f
      → get_elem? (library.files t (library.set_file_priority t i p l)) i
        ≡ some (record f { priority = p })
  pub keeps_files :
      (t : H) (g : ℕ → PiecePriority) (l : L)
      → library.files t (library.set_piece_priorities t g l) ≡ library.files t l
  pub keeps_info :
      (t : H) (g : ℕ → PiecePriority) (l : L)
      → library.info t (library.set_piece_priorities t g l) ≡ library.info t l
  pub keeps_info_of_files :
      (t : H) (i : ℕ) (p : PiecePriority) (l : L)
      → library.info t (library.set_file_priority t i p l) ≡ library.info t l

get_elem?-file_snapshots :
    {L H S M F : Type 0} (library : Library L H S M F) (start i : ℕ) (files : List TorrentFile)
    (f : TorrentFile)
    → get_elem? files i ≡ some f
    → (u : FileSnapshot) × (get_elem? (file_snapshots library start files) i ≡ some u)
      × (u.priority ≡ file_priority f.priority)
      × (u.index ≡ start + i)
unfolding file_snapshots
get_elem?-file_snapshots library start i [] f h = absurd (ground (arith, h))
get_elem?-file_snapshots library start zero (g ∷ files) f h =
    let e : g ≡ f = ground (arith, h) in
    (_, refl, ap (λ (f : TorrentFile). file_priority f.priority) e, omega arith)
get_elem?-file_snapshots library start (suc i) (g ∷ files) f h =
    let (u, e, p, q) = get_elem?-file_snapshots library (suc start) i files f h in
    (u, e, p, omega arith)

module _ {L H S M F : Type 0} (library : Library L H S M F) where
  boost_entry_keeps :
      (e : Entry H S F) (l : L)
      → KeepsPriorities library
      → ((boost_entry library e l).1.torrent ≡ e.torrent)
        × (library.files e.torrent (boost_entry library e l).0 ≡ library.files e.torrent l)
        × (library.info e.torrent (boost_entry library e l).0 ≡ library.info e.torrent l)
        × ((boost_entry library e l).1.file_priorities ≡ e.file_priorities)
  unfolding boost_entry
  boost_entry_keeps e l k = elim (Option-cases (library.info e.torrent l)) [
    | inl f ↦ (ground arith, ground arith, ground arith, ground arith)
    | inr (i, f) ↦ (
      ground arith,
      rw (f, boost_entry) (k.keeps_files e.torrent _ l),
      rw (f, boost_entry) (k.keeps_info e.torrent _ l ∙ f),
      ground arith,
    )
  ]

  -- What a success of SetFilePriority leaves behind.
  record Set (id : TorrentId) (index : ℕ) (p : FilePriority) (s' : State L H S F) : Type 0 where
    entry : Entry H S F
    info : Info
    file : TorrentFile
    stored : lookup dec_str id s'.torrents ≡ some entry
    known : library.info entry.torrent s'.outside ≡ some info
    listed : get_elem? (library.files entry.torrent s'.outside) index ≡ some file
    priority : file.priority ≡ piece_priority p
    saved : lookup ℕ_discrete index entry.file_priorities ≡ some p

  get_elem?_of_lt :
      (i : ℕ) (files : List TorrentFile)
      → i < length files
      → (f : TorrentFile) × (get_elem? files i ≡ some f)
  get_elem?_of_lt i [] h = absurd (omega arith)
  get_elem?_of_lt zero (f ∷ files) h = (f, refl)
  get_elem?_of_lt (suc i) (f ∷ files) h = get_elem?_of_lt i files (omega arith)

  stored-Set :
      (id : TorrentId) (index : ℕ) (p : FilePriority) (e : Entry H S F) (l : L) (info : Info)
      (file : TorrentFile) (torrents : List (TorrentId × Entry H S F))
      → KeepsPriorities library
      → library.info e.torrent l ≡ some info
      → get_elem? (library.files e.torrent l) index ≡ some file
      → file.priority ≡ piece_priority p
      → lookup ℕ_discrete index e.file_priorities ≡ some p
      → Set id index p (record {
        outside = (boost_entry library e l).0;
        torrents = put dec_str id (boost_entry library e l).1 torrents;
      })
  stored-Set id index p e l info file torrents k g f h w =
      let r = boost_entry library e l in
      let (a, b, c, d) = boost_entry_keeps e l k in
      record {
        entry = r.1;
        info = info;
        file = file;
        stored = lookup-put_self dec_str id r.1 torrents;
        known = rw a (c ∙ g);
        listed = rw a (ap (λ fs. get_elem? fs index) b ∙ f);
        priority = h;
        saved = ap (lookup ℕ_discrete index) d ∙ w;
      }

  set_file_priority-Set :
      (context : Context) (id : TorrentId) (index : ℕ) (p : FilePriority) (s : State L H S F)
      → KeepsPriorities library
      → (set_file_priority library context id (pos index) p s).1 ≡ ok tt
      → Set id index p (set_file_priority library context id (pos index) p s).0
  unfolding set_file_priority check Entries.entry info_of
  set_file_priority-Set context id index p s k h =
      elim (Option-cases (library.context_error context s.outside)) [
        | inr (x, e) ↦ absurd (ground arith)
        | inl e ↦ elim (Option-cases (lookup dec_str id s.torrents)) [
          | inl f ↦ absurd (ground arith)
          | inr (found, f) ↦ elim (Option-cases (library.info found.torrent s.outside)) [
            | inl g ↦ absurd (ground arith)
            | inr (info, g) ↦
                elim (Bool-cases (ltb index (length (library.files found.torrent s.outside)))) [
                  | inr b ↦ absurd (ground arith)
                  | inl b ↦
                      let (file, listed) =
                        get_elem?_of_lt index (library.files found.torrent s.outside)
                          (ground arith) in
                      let l =
                        library.set_file_priority found.torrent index (piece_priority p)
                          s.outside in
                      let changed : Entry H S F = record found {
                        file_priorities = put ℕ_discrete index p found.file_priorities;
                      } in
                      let r = boost_entry library changed l in
                      let done : (set_file_priority library context id (pos index) p s).0
                          ≡ record { outside = r.0; torrents = put dec_str id r.1 s.torrents } =
                        ground arith in
                      subst (Set id index p) (sym done) (
                        stored-Set id index p changed l info
                          (record file { priority = piece_priority p }) s.torrents k
                          (k.keeps_info_of_files found.torrent index (piece_priority p) s.outside
                            ∙ g)
                          (k.sets found.torrent index (piece_priority p) s.outside file listed) refl
                          (lookup-put_self ℕ_discrete index p found.file_priorities))
                ]
          ]
        ]
      ]

  details-files :
      (context : Context) (id : TorrentId) (e : Entry H S F) (info : Info) (s : State L H S F)
      (d : TorrentDetails)
      → lookup dec_str id s.torrents ≡ some e
      → library.info e.torrent s.outside ≡ some info
      → (details library context id s).1 ≡ ok d
      → file_snapshots library 0 (library.files e.torrent s.outside) ≡ d.files
  unfolding details check Entries.entry details_of
  details-files context id e info s d f g h =
      elim (Option-cases (library.context_error context s.outside)) [
        | inr (x, c) ↦ absurd (ground arith)
        | inl c ↦
            let told : ok (details_of library id e s.outside) ≡ ok d = ground arith in
            let same : details_of library id e s.outside ≡ d = ground (arith, told) in
            rw⁻¹ same (rw (g, details_of) refl)
      ]

  -- Details after a success of SetFilePriority show the file with the priority that was set, if it is
  -- one of the three and the library keeps what it is told.
  pub priority_shown :
      (context later : Context) (id : TorrentId) (index : ℕ) (p : FilePriority) (s : State L H S F)
      (d : TorrentDetails)
      → KeepsPriorities library
      → IsPriority p
      → (set_file_priority library context id (pos index) p s).1 ≡ ok tt
      → (details library later id (set_file_priority library context id (pos index) p s).0).1 ≡ ok d
      → (u : FileSnapshot) × (get_elem? d.files index ≡ some u)
        × (u.priority ≡ p)
        × (u.index ≡ index)
  priority_shown context later id index p s d k v h g =
      let s' = (set_file_priority library context id (pos index) p s).0 in
      let set = set_file_priority-Set context id index p s k h in
      let (u, e, q, n) =
        get_elem?-file_snapshots library 0 index (library.files set.entry.torrent s'.outside)
          set.file set.listed in
      let shown = details-files later id set.entry set.info s' d set.stored set.known g in
      (
        u,
        ap (λ fs. get_elem? fs index) (sym shown) ∙ e,
        q ∙ (ap file_priority set.priority ∙ file_priority-piece_priority v),
        omega arith,
      )
