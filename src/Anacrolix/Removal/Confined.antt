-- ===== src/Anacrolix/Removal/Confined.antt =====
-- internal/engine/anacrolix/remove.go: what removeDataFiles touches.
use mathlib.Core.List.{cons≢nil}
use torrcli.Base.{
  ℕ, zero, suc, ◌≡◌, ◌≢◌, refl, sym, ◌∙◌, subst, arith, Option, none, some, List, [], ◌∷◌, ltb,
  length, has_member, Among, first, later, All, continue, Result, ok, err, if_cases,
}
use torrcli.Anacrolix.Paths.{Names, dec_names, parent, text_length}
use torrcli.Anacrolix.Disk.{Disk, is_missing}
use torrcli.Anacrolix.Removal.{
  directories_above, climb, remove_files, insert_by_length, sort_by_length, remove_directories,
  remove_data_files,
}

-- A path or a directory on the way to it, but not the one where all paths start.
pub data OnWay : Names → Names → Type 0 where
  itself : {path : Names} → OnWay path path
  above : {dir path : Names} → dir ≢ [] → OnWay dir (parent path) → OnWay dir path

-- It is one of the files or a directory on the way to one.
pub record Concerns (paths : List Names) (p : Names) : Type 0 where
  pub file : Names
  pub listed : Among file paths
  pub on_way : OnWay p file

abbrev AllFound : (Names → Type 0) → Option (List Names) → Type 0
AllFound P none = Unit {0}
AllFound P (some ds) = All P ds

directories_above-All :
    (P : Names → Type 0) (fuel : ℕ) (path : Names) (found : List Names)
    → ((dir : Names) → dir ≢ [] → OnWay dir (parent path) → P dir)
    → All P found
    → AllFound P (directories_above fuel path found)
unfolding directories_above
directories_above-All P zero path found w h = tt
directories_above-All P (suc fuel) path found w h =
    go (parent path) refl (directories_above-All P fuel)
  where
    go :
        (up : Names)
        → parent path ≡ up
        → ((path : Names) (found : List Names)
            → ((dir : Names) → dir ≢ [] → OnWay dir (parent path) → P dir)
            → All P found
            → AllFound P (directories_above fuel path found))
        → AllFound P (directories_above (suc fuel) path found)
    go [] e rest = rw (e, directories_above) h
    go (n ∷ ns) e rest =
        rw (e, directories_above)
          (rest (parent path) _ (λ dir m o. w dir m (above m o))
            (if_cases (All P) (has_member dec_names (parent path) found) (λ k. h)
              (λ k. (w (parent path) (λ z. cons≢nil (sym e ∙ z)) itself, h))))

climb-All :
    (P : Names → Type 0) (path : Names) (found : List Names)
    → ((dir : Names) → dir ≢ [] → OnWay dir (parent path) → P dir)
    → All P found
    → All P (climb path found)
climb-All P path found w h =
    ended (directories_above (suc (length path)) path found)
      (directories_above-All P (suc (length path)) path found w h)
  where
    ended :
        (o : Option (List Names))
        → AllFound P o
        → All P (elim o [ none ↦ found | some directories ↦ directories ])
    ended none k = h
    ended (some ds) k = k

insert_by_length-All :
    (P : Names → Type 0) (d : Names) (ds : List Names)
    → P d
    → All P ds
    → All P (insert_by_length d ds)
unfolding insert_by_length
insert_by_length-All P d [] p h = (p, tt)
insert_by_length-All P d (e ∷ ds) p (q, h) =
    if_cases (All P) (ltb (text_length d) (text_length e))
      (λ l. (q, insert_by_length-All P d ds p h)) (λ l. (p, (q, h)))

sort_by_length-All : (P : Names → Type 0) (ds : List Names) → All P ds → All P (sort_by_length ds)
unfolding sort_by_length
sort_by_length-All P [] h = tt
sort_by_length-All P (d ∷ ds) (p, h) =
    insert_by_length-All P d (sort_by_length ds) p (sort_by_length-All P ds h)

module _ {L R : Type 0} (disk : Disk L R) (root : R) (I : L → Type 0) where
  -- Removing the path keeps what is asked for.
  abbrev Spares : Names → Type 0
  Spares p = (s : L) → I s → I (disk.remove root p s).0

  remove_directories_keeps :
      (dirs : List Names) (s : L)
      → All Spares dirs
      → I s
      → I (remove_directories disk root dirs s).0
  unfolding remove_directories
  remove_directories_keeps [] s a h = h
  remove_directories_keeps (d ∷ dirs) s (k, a) h =
      remove_directories_keeps dirs (disk.remove root d s).0 a (k s h)

  -- A file that may be removed, and the directories on the way to it.
  record MayGo (path : Names) : Type 0 where
    file : Spares path
    directories : (dir : Names) → dir ≢ [] → OnWay dir (parent path) → Spares dir

  record Swept (m : L × Result (List Names)) : Type 0 where
    kept : I m.0
    found : (dirs : List Names) → m.1 ≡ ok dirs → All Spares dirs

  remove_files-Swept :
      (paths found : List Names) (s : L)
      → All MayGo paths
      → All Spares found
      → I s
      → Swept (remove_files disk root paths found s)
  unfolding remove_files
  remove_files-Swept [] found s a b h = record {
    kept = h;
    found = λ dirs e. let k : found ≡ dirs = ground (arith, e) in subst (All Spares) k b;
  }
  remove_files-Swept (path ∷ paths) found s (p, a) b h = removed (disk.remove root path s).1 refl (
      remove_files-Swept paths (climb path found) (disk.remove root path s).0 a
        (climb-All Spares path found p.directories b) (p.file s h))
    where
      removed :
          (r : Result (Unit {0}))
          → (disk.remove root path s).1 ≡ r
          → Swept (remove_files disk root paths (climb path found) (disk.remove root path s).0)
          → Swept (remove_files disk root (path ∷ paths) found s)
      removed (ok u) e k = rw (e, remove_files) k
      removed (err x) e k =
          rw (e, remove_files)
            (if_cases Swept (is_missing x) (λ t. k)
              (λ f. record { kept = p.file s h; found = λ dirs g. absurd (ground (arith, g)) }))

  directories_keep :
      (m : L × Result (List Names))
      → Swept m
      → I (continue m.0 m.1 (λ dirs. remove_directories disk root (sort_by_length dirs))).0
  directories_keep (s, ok dirs) w =
      remove_directories_keeps (sort_by_length dirs) s
        (sort_by_length-All Spares dirs (w.found dirs refl)) w.kept
  directories_keep (s, err e) w = w.kept

  All_of_Among :
      (paths whole : List Names)
      → ((p : Names) → Concerns whole p → Spares p)
      → ((p : Names) → Among p paths → Among p whole)
      → All MayGo paths
  All_of_Among [] whole w m = tt
  All_of_Among (path ∷ paths) whole w m =
      let here = m path first in
      (
        record {
          file = w path (record { file = path; listed = here; on_way = itself });
          directories =
              λ dir n o. w dir (record { file = path; listed = here; on_way = above n o });
        },
        All_of_Among paths whole w (λ p k. m p (later k)),
      )

  -- Removing the files of a torrent touches nothing but these files and the directories on the way
  -- to them, the download directory itself not among those: whatever holds of the disk and stays so
  -- when one of them is removed, holds afterwards, whether the removal succeeds or fails.
  pub remove_data_files_confined :
      (paths : List Names) (s : L)
      → ((p : Names) → Concerns paths p → (s : L) → I s → I (disk.remove root p s).0)
      → I s
      → I (remove_data_files disk (some root) paths s).0
  unfolding remove_data_files
  remove_data_files_confined paths s w h =
      directories_keep (remove_files disk root paths [] s)
        (remove_files-Swept paths [] s (All_of_Among paths paths w (λ p k. k)) tt h)
