-- ===== src/Anacrolix/Removal.antt =====
-- internal/engine/anacrolix/remove.go: which files of a torrent are deleted, and how. The texts of
-- the errors leave the paths out. Go ranges over a map, and sorts, in an order of its own: the
-- model's is one of those.
pub mod Inside
pub mod Confined
pub mod Ending
use torrcli.Base.{
  ℕ, zero, suc, ◌+◌, Bool, true, false, ite, ◌||◌, Option, none, some, String, List, [], ◌∷◌, ◌++◌,
  map, ltb, length, has_member, if◌then◌else◌, Exec, Result, ok, err, Error, plain, wrap, pure,
  fail, ignore, lift, continue, ◌>>=◌, ◌>>◌,
}
use torrcli.Anacrolix.Paths.{
  Name, Names, FilePath, dec_names, parent, clean, join, is_local, text_length,
}
use torrcli.Anacrolix.Disk.{
  FileKind, regular, directory, symlink, irregular, Stat, Disk, is_missing,
}

-- `metainfo.Info`. `best_name` is none for `metainfo.NoName`, and `files` has the BestPath of each
-- of UpvertedFiles.
pub record Info : Type 0 where
  pub best_name : Option Name
  pub files : List Names
  pub piece_length : ℕ
  pub num_pieces : ℕ
  pub has_pieces : Bool
  pub meta_version : ℕ
  pub is_private : Option Bool

abbrev pub parts_of : Info → Names → Names
parts_of info file = elim info.best_name [ none ↦ file | some n ↦ n ∷ file ]

-- The path of a file, if it is in the torrent's directory and is not that directory.
unfoldable pub torrent_file_path : Info → Names → Result FilePath
unfolding join is_local
torrent_file_path info file = elim (join (parts_of info file)) [
  | none ↦ err (plain "invalid torrent file path")
  | some path ↦ inside (is_local path) path.names path
]
  where
    inside : Bool → Names → FilePath → Result FilePath
    inside true (n ∷ ns) path = ok path
    inside true [] path = err (plain "invalid torrent file path")
    inside false names path = err (plain "invalid torrent file path")

unfoldable pub file_paths : Info → List Names → Result (List FilePath)
unfolding torrent_file_path
file_paths info [] = ok []
file_paths info (file ∷ files) = next (torrent_file_path info file) (file_paths info files)
  where
    next : Result FilePath → Result (List FilePath) → Result (List FilePath)
    next (ok path) (ok paths) = ok (path ∷ paths)
    next (ok path) (err e) = err e
    next (err e) rest = err e

-- The paths, by their names: the tests leave none that is rooted or goes up.
unfoldable pub torrent_file_paths : Info → Result (List Names)
unfolding file_paths
torrent_file_paths info = elim (file_paths info info.files) [
  | ok paths ↦ ok (map (λ path. path.names) paths)
  | err e ↦ err e
]

-- `unexpected last kind`, for the last name of a path or one before it.
abbrev pub is_expected : Bool → FileKind → Bool
is_expected true regular = true
is_expected false directory = true
is_expected last kind = false

-- The loop `for dir := filepath.Dir(path); dir != "."; dir = filepath.Dir(dir)`, or none if it has
-- not ended within `fuel` rounds.
unfoldable pub directories_above : ℕ → Names → List Names → Option (List Names)
unfolding parent has_member
directories_above zero path found = none
directories_above (suc fuel) path found =
    let above = parent path in
    let found' = if has_member dec_names above found then found else above ∷ found in
    let rest = directories_above fuel above found' in elim above [ [] ↦ some found | n ∷ ns ↦ rest ]

-- The loop, with more rounds than the path has names.
abbrev pub climb : Names → List Names → List Names
climb path found = elim (directories_above (suc (length path)) path found) [
  | none ↦ found
  | some directories ↦ directories
]

-- `sort.Slice`, the longest text first.
unfoldable pub insert_by_length : Names → List Names → List Names
unfolding text_length
insert_by_length dir [] = dir ∷ []
insert_by_length dir (d ∷ ds) =
    let rest = insert_by_length dir ds in
    if ltb (text_length dir) (text_length d) then d ∷ rest else dir ∷ d ∷ ds

unfoldable pub sort_by_length : List Names → List Names
sort_by_length [] = []
sort_by_length (d ∷ ds) = insert_by_length d (sort_by_length ds)

module _ {L R : Type 0} (disk : Disk L R) where
  abbrev refuse : {A : Type 0} → R → Error → Exec L A
  refuse root e s = (disk.close_root root s, err e)

  -- The names of a path, one after the other.
  unfoldable pub check_parts : R → Names → Names → Exec L (Unit {0})
  unfolding is_missing
  check_parts root above [] s = (s, ok tt)
  check_parts root above (n ∷ ns) s =
      let current = above ++ n ∷ [] in
      let r = disk.lstat root current s in
      let deeper = check_parts root current ns r.0 in
      elim r.1 [
        | err e ↦ if is_missing e then (r.0, ok tt) else refuse root e r.0
        | ok stat ↦
            if is_expected (is_last ns) stat.kind
            then deeper
            else refuse root (plain "refusing to delete unexpected file type") r.0
      ]
    where
      is_last : Names → Bool
      is_last [] = true
      is_last (m ∷ ms) = false

  unfoldable pub check_all : R → List Names → Exec L (Unit {0})
  unfolding check_parts
  check_all root [] = pure tt
  check_all root (path ∷ paths) = do check_parts root [] path; check_all root paths

  -- No root and no path if the directory does not exist.
  unfoldable pub prepare_data_removal : String → Info → Exec L (Option R × List Names)
  unfolding torrent_file_paths check_all is_missing
  prepare_data_removal save_path info s = elim (torrent_file_paths info) [
    | err e ↦ (s, err e)
    | ok paths ↦
        let opened = disk.open_root save_path s in
        elim opened.1 [
          | err e ↦ if is_missing e then (opened.0, ok (none, [])) else (opened.0, err e)
          | ok root ↦ (check_all root paths >> pure (some root, paths)) opened.0
        ]
  ]

  -- The loop over the files.
  unfoldable pub remove_files : R → List Names → List Names → Exec L (List Names)
  unfolding directories_above is_missing
  remove_files root [] found s = (s, ok found)
  remove_files root (path ∷ paths) found s =
      let r = disk.remove root path s in
      let rest = remove_files root paths (climb path found) r.0 in
      elim r.1 [ ok u ↦ rest | err e ↦ if is_missing e then rest else (r.0, err (wrap "delete" e)) ]

  unfoldable pub remove_directories : R → List Names → Exec L (Unit {0})
  remove_directories root [] = pure tt
  remove_directories root (dir ∷ dirs) = do
    ignore (disk.remove root dir)
    remove_directories root dirs

  unfoldable pub remove_data_files : Option R → List Names → Exec L (Unit {0})
  unfolding remove_files sort_by_length remove_directories
  remove_data_files none paths = pure tt
  remove_data_files (some root) paths = do
    directories ← remove_files root paths []
    remove_directories root (sort_by_length directories)
