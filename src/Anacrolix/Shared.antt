-- ===== src/Anacrolix/Shared.antt =====
-- internal/engine/anacrolix/remove.go: checkSharedFiles, which refuses to delete what another torrent
-- uses.
pub mod Apart
use torrcli.Base.{
  ℕ, zero, suc, ◌+◌, Bool, true, false, ite, ◌||◌, Option, none, some, String, List, [], ◌∷◌, ◌++◌,
  map, ltb, length, has_member, if◌then◌else◌, Exec, Result, ok, err, Error, plain, wrap, pure,
  fail, ignore, lift, continue, ◌>>=◌, ◌>>◌,
}
use torrcli.Anacrolix.Paths.{
  Name, Names, FilePath, dec_names, parent, clean, join, is_local, text_length,
}
use torrcli.Anacrolix.Disk.{
  FileKind, regular, directory, symlink, irregular, Stat, Disk, is_missing,
}
use torrcli.Anacrolix.Removal.{Info, torrent_file_paths}

-- An entry of the engine, as far as the check of shared files reads it: its torrent, its save path
-- and what is known of its files.
pub record Shared (H : Type 0) : Type 0 where
  pub torrent : H
  pub save_path : String
  pub info : Option Info

-- `filepath.Join(directory, path)` for an absolute directory.
unfoldable pub under : Names → Names → Names
unfolding clean
under dir path = (clean true (dir ++ path)).names

unfoldable pub any_shared : List Names → Names → List Names → Bool
unfolding under has_member
any_shared candidates dir [] = false
any_shared candidates dir (path ∷ paths) =
    has_member dec_names (under dir path) candidates || any_shared candidates dir paths

module _ {L R : Type 0} (disk : Disk L R) where
  -- EvalSymlinks and Abs: none if the directory does not exist.
  unfoldable pub real_directory : String → Exec L (Option Names)
  unfolding is_missing
  real_directory save_path s =
      let r = disk.eval_symlinks save_path s in
      elim r.1 [
        | err e ↦ if is_missing e then (r.0, ok none) else (r.0, err e)
        | ok evaluated ↦ (disk.abs evaluated >>= λ names. pure (some names)) r.0
      ]

  -- One other torrent, `info` being what is known of its files.
  unfoldable pub check_other : List Names → String → Info → Exec L (Unit {0})
  unfolding real_directory torrent_file_paths any_shared
  check_other candidates save_path info = do
    found ← real_directory save_path
    elim found [
      | none ↦ pure tt
      | some dir ↦ lift (torrent_file_paths info) >>= λ paths.
          (if any_shared candidates dir paths
            then fail (plain "file is also used by another torrent")
            else pure tt)
    ]

module _ {L R H : Type 0} (disk : Disk L R) (same_torrent : Discrete H) where
  unfoldable pub check_others : H → List Names → List (Shared H) → Exec L (Unit {0})
  unfolding check_other
  check_others torrent candidates [] s = (s, ok tt)
  check_others torrent candidates (other ∷ others) s =
      let rest = check_others torrent candidates others in
      ite (same_torrent other.torrent torrent) (rest s) (elim other.info [
        | none ↦ rest s
        | some info ↦ (check_other disk candidates other.save_path info >> rest) s
      ])

  unfoldable pub check_shared_files : H → String → List Names → List (Shared H) → Exec L (Unit {0})
  unfolding real_directory under check_others
  check_shared_files torrent save_path paths others = do
    found ← real_directory disk save_path
    elim found [ none ↦ pure tt | some dir ↦ check_others torrent (map (under dir) paths) others ]
