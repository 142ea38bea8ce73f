-- ===== src/Anacrolix/Migration.antt =====
-- internal/engine/anacrolix/storage.go: migratePartFiles, which gives files that an older version
-- left under a name with ".part" their own names. Go ranges over the map of paths in an order of its own: the model's is
-- one of those.
pub mod Preserving
use torrcli.Base.{
  ℕ, ℕ_discrete, Bool, true, false, Option, none, some, String, List, [], ◌∷◌, ◌++◌, has_member,
  ite, if◌then◌else◌, Exec, Result, ok, err, Error, plain, wrap, pure, fail, lift, continue, ◌>>=◌,
  ◌>>◌,
}
use torrcli.Anacrolix.Paths.{Name, Names, FilePath, dec_names, dot, join, is_local}
use torrcli.Anacrolix.Disk.{
  FileKind, regular, directory, symlink, irregular, Stat, Disk, is_missing,
}
use torrcli.Anacrolix.Removal.{Info, parts_of}

-- ".part".
abbrev pub suffix : Name
suffix = 46 ∷ 112 ∷ 97 ∷ 114 ∷ 116 ∷ []

-- `path + ".part"`; no name stands for ".".
unfoldable pub part_of : Names → Names
part_of [] = (dot ++ suffix) ∷ []
part_of (n ∷ []) = (n ++ suffix) ∷ []
part_of (n ∷ m ∷ ns) = n ∷ part_of (m ∷ ns)

unfoldable pub local_path : Info → Names → Result Names
unfolding join is_local
local_path info file = elim (join (parts_of info file)) [
  | none ↦ err (plain "invalid torrent file path")
  | some path ↦ if is_local path then ok path.names else err (plain "invalid torrent file path")
]

-- `paths[path] = true` for each file.
unfoldable pub local_paths : Info → List Names → List Names → Result (List Names)
unfolding local_path has_member
local_paths info [] found = ok found
local_paths info (file ∷ files) found = elim (local_path info file) [
  | err e ↦ err e
  | ok path ↦
      local_paths info files (if has_member dec_names path found then found else found ++ path ∷ [])
]

module _ {L R : Type 0} (disk : Disk L R) where
  -- The name of a partial file that is regular and not in the way.
  unfoldable pub link_part : R → Names → Names → Stat → Exec L (Unit {0})
  link_part root part path stat s =
      let linked = disk.link root part path s in
      let target = disk.lstat root path linked.0 in
      elim linked.1 [
        | ok u ↦ (linked.0, ok tt)
        | err e ↦ elim target.1 [
          | err x ↦ (target.0, err (wrap "preserve partial download" e))
          | ok there ↦
              ite (ℕ_discrete stat.file there.file) (target.0, ok tt)
                (target.0, err (wrap "preserve partial download" e))
        ]
      ]

  unfoldable pub migrate_stat : R → Names → Names → Stat → Exec L (Unit {0})
  unfolding link_part
  migrate_stat root part path stat = elim stat.kind [
    | regular ↦ link_part root part path stat >> disk.remove root part
    | directory ↦ fail (plain "partial file is not a regular file")
    | symlink ↦ fail (plain "partial file is not a regular file")
    | irregular ↦ fail (plain "partial file is not a regular file")
  ]

  unfoldable pub migrate_one : R → List Names → Names → Exec L (Unit {0})
  unfolding part_of has_member is_missing migrate_stat
  migrate_one root paths path s =
      let part = part_of path in
      let found = disk.lstat root part s in
      if has_member dec_names part paths then (s, ok tt) else elim found.1 [
        | err e ↦ if is_missing e then (found.0, ok tt) else (found.0, err e)
        | ok stat ↦ migrate_stat root part path stat found.0
      ]

  unfoldable pub migrate_all : R → List Names → List Names → Exec L (Unit {0})
  unfolding migrate_one
  migrate_all root paths [] s = (s, ok tt)
  migrate_all root paths (path ∷ later) s =
      (migrate_one root paths path >> migrate_all root paths later) s

  -- `defer root.Close()`.
  unfoldable pub migrate_part_files : String → Info → Exec L (Unit {0})
  unfolding local_paths migrate_all
  migrate_part_files save_path info s =
      let opened = disk.open_root save_path s in
      elim opened.1 [
        | err e ↦ (opened.0, err e)
        | ok root ↦
            let r =
              (lift (local_paths info info.files []) >>= λ paths. migrate_all root paths paths)
                opened.0 in
            (disk.close_root root r.0, r.1)
      ]

  -- OpenTorrent, with the library's own as a parameter.
  unfoldable pub open_torrent : {I : Type 0} → (Info → Exec L I) → String → Info → Exec L I
  unfolding migrate_part_files
  open_torrent opens save_path info = migrate_part_files save_path info >> opens info
