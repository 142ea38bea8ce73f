-- ===== src/Anacrolix/Migration/Preserving.antt =====
-- internal/engine/anacrolix/storage.go: when migratePartFiles removes a name.
use torrcli.Base.{
  ◌≡◌, refl, arith, ℕ_discrete, Bool, true, false, String, List, [], ◌∷◌, has_member, ite_cases,
  if_cases, Exec, Result, ok, err, continue,
}
use torrcli.Anacrolix.Paths.{Names, dec_names}
use torrcli.Anacrolix.Disk.{
  FileKind, regular, directory, symlink, irregular, Stat, Disk, is_missing,
}
use torrcli.Anacrolix.Removal.{Info}
use torrcli.Anacrolix.Migration.{
  part_of, local_paths, link_part, migrate_stat, migrate_one, migrate_all, migrate_part_files,
}

module _ {L R : Type 0} (disk : Disk L R) where
  -- The file has just got its own name, or was just seen to have it.
  pub data IsPreserved (root : R) (part path : Names) (s : L) : Type 0 where
    linked :
        (before : L)
        → (disk.link root part path before).1 ≡ ok tt
        → s ≡ (disk.link root part path before).0
        → IsPreserved root part path s
    same_file :
        (earlier before : L) (a b : Stat)
        → (disk.lstat root part earlier).1 ≡ ok a
        → (disk.lstat root path before).1 ≡ ok b
        → a.file ≡ b.file
        → s ≡ (disk.lstat root path before).0
        → IsPreserved root part path s

  -- What the calls keep: those that remove nothing keep it anyway, and a removal does where the
  -- file is preserved and the name is not that of a file of the torrent, `info` being its metadata.
  pub record Guards (info : Info) (I : L → Type 0) : Type 0 where
    pub opens : (path : String) (s : L) → I s → I (disk.open_root path s).0
    pub closes : (root : R) (s : L) → I s → I (disk.close_root root s)
    pub looks : (root : R) (path : Names) (s : L) → I s → I (disk.lstat root path s).0
    pub links : (root : R) (part path : Names) (s : L) → I s → I (disk.link root part path s).0
    pub removes :
        (root : R) (paths : List Names) (part path : Names) (s : L)
        → local_paths info info.files [] ≡ ok paths
        → has_member dec_names part paths ≡ false
        → IsPreserved root part path s
        → I s
        → I (disk.remove root part s).0

  module _ (info : Info) (I : L → Type 0) (g : Guards info I) (root : R) (paths : List Names)
      (own : local_paths info info.files [] ≡ ok paths) where
    -- After linking: the state, and that the file is preserved if there was no error.
    record Linked (part path : Names) (m : L × Result (Unit {0})) : Type 0 where
      kept : I m.0
      preserved : m.1 ≡ ok tt → IsPreserved root part path m.0

    link_part-Linked :
        (part path : Names) (stat : Stat) (s earlier : L)
        → (disk.lstat root part earlier).1 ≡ ok stat
        → I s
        → Linked part path (link_part disk root part path stat s)
    unfolding link_part
    link_part-Linked part path stat s earlier e h =
        let l = disk.link root part path s in
        let t = disk.lstat root path l.0 in after l.1 t.1 refl refl
      where
        after :
            (r : Result (Unit {0})) (q : Result Stat)
            → (disk.link root part path s).1 ≡ r
            → (disk.lstat root path (disk.link root part path s).0).1 ≡ q
            → Linked part path (link_part disk root part path stat s)
        after (ok u) q f k =
            rw (f, link_part)
              record { kept = g.links root part path s h; preserved = λ x. linked s f refl }
        after (err x) (err y) f k =
            rw (f, k, link_part)
              record {
                kept = g.looks root path _ (g.links root part path s h);
                preserved = λ x. absurd (ground (arith, x));
              }
        after (err x) (ok there) f k =
            rw (f, k, link_part)
              (ite_cases (Linked part path) (ℕ_discrete stat.file there.file)
                (λ p. record {
                  kept = g.looks root path _ (g.links root part path s h);
                  preserved =
                      λ x. same_file earlier (disk.link root part path s).0 stat there e k p refl;
                })
                (λ n. record {
                  kept = g.looks root path _ (g.links root part path s h);
                  preserved = λ x. absurd (ground (arith, x));
                }))

    removed_after :
        (part path : Names) (m : L × Result (Unit {0}))
        → has_member dec_names part paths ≡ false
        → Linked part path m
        → I (continue m.0 m.1 (λ u. disk.remove root part)).0
    removed_after part path (s, ok u) n l =
        g.removes root paths part path s own n (l.preserved refl) l.kept
    removed_after part path (s, err x) n l = l.kept

    migrate_stat_keeps :
        (part path : Names) (stat : Stat) (s earlier : L)
        → has_member dec_names part paths ≡ false
        → (disk.lstat root part earlier).1 ≡ ok stat
        → I s
        → I (migrate_stat disk root part path stat s).0
    unfolding migrate_stat
    migrate_stat_keeps part path stat s earlier n e h = by_kind stat.kind refl
      where
        by_kind : (k : FileKind) → stat.kind ≡ k → I (migrate_stat disk root part path stat s).0
        by_kind regular f =
            rw (f, migrate_stat)
              (removed_after part path (link_part disk root part path stat s) n
                (link_part-Linked part path stat s earlier e h))
        by_kind directory f = rw (f, migrate_stat) h
        by_kind symlink f = rw (f, migrate_stat) h
        by_kind irregular f = rw (f, migrate_stat) h

    migrate_one_keeps : (path : Names) (s : L) → I s → I (migrate_one disk root paths path s).0
    unfolding migrate_one
    migrate_one_keeps path s h =
        member (has_member dec_names (part_of path) paths) (disk.lstat root (part_of path) s).1 refl
          refl
      where
        member :
            (b : Bool) (r : Result Stat)
            → has_member dec_names (part_of path) paths ≡ b
            → (disk.lstat root (part_of path) s).1 ≡ r
            → I (migrate_one disk root paths path s).0
        member true r n f = rw (n, migrate_one) h
        member false (err x) n f =
            rw (n, f, migrate_one)
              (if_cases (λ (m : L × Result (Unit {0})). I m.0) (is_missing x)
                (λ t. g.looks root (part_of path) s h) (λ t. g.looks root (part_of path) s h))
        member false (ok stat) n f =
            rw (n, f, migrate_one)
              (migrate_stat_keeps (part_of path) path stat _ s n f
                (g.looks root (part_of path) s h))

    continue_keeps :
        {A : Type 0} (s : L) (r : Result A) (k : Exec L (Unit {0}))
        → I s
        → ((s : L) → I s → I (k s).0)
        → I (continue s r (λ a. k)).0
    continue_keeps s (ok a) k h f = f s h
    continue_keeps s (err x) k h f = h

    migrate_all_keeps :
        (later : List Names) (s : L) → I s → I (migrate_all disk root paths later s).0
    unfolding migrate_all
    migrate_all_keeps [] s h = h
    migrate_all_keeps (path ∷ later) s h =
        continue_keeps (migrate_one disk root paths path s).0 (migrate_one disk root paths path s).1
          (migrate_all disk root paths later) (migrate_one_keeps path s h) (migrate_all_keeps later)

  -- Whatever holds of the disk holds after migratePartFiles too, with an error or without, if it stays
  -- so when a root is opened or closed, a name looked up or a file linked, and when the name of a
  -- partial file is removed that is not one of the torrent's own names, right after the file was
  -- linked to its own name or that name was seen to be of the same file.
  pub migrate_part_files_preserves :
      (I : L → Type 0) (save_path : String) (info : Info) (s : L)
      → Guards info I
      → I s
      → I (migrate_part_files disk save_path info s).0
  unfolding migrate_part_files
  migrate_part_files_preserves I save_path info s g h =
      opened (disk.open_root save_path s).1 (local_paths info info.files []) refl refl
    where
      opened :
          (r : Result R) (q : Result (List Names))
          → (disk.open_root save_path s).1 ≡ r
          → local_paths info info.files [] ≡ q
          → I (migrate_part_files disk save_path info s).0
      opened (err x) q e f = rw (e, migrate_part_files) (g.opens save_path s h)
      opened (ok root) (err x) e f =
          rw (e, f, migrate_part_files) (g.closes root _ (g.opens save_path s h))
      opened (ok root) (ok paths) e f =
          rw (e, f, migrate_part_files)
            (g.closes root _
              (migrate_all_keeps info I g root paths f paths _ (g.opens save_path s h)))
