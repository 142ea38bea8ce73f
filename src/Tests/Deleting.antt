-- ===== src/Tests/Deleting.antt =====
-- The files of a torrent deleted, and a partial file given its own name.
use torrcli.Base.{
  ℕ, ◌≡◌, ◌≢◌, ◌≤◌, refl, sym, subst, arith, ℕ_discrete, dec_list, false, some, List, [], ◌∷◌,
  length, Among, first, later, All, ok, has_member,
}
use torrcli.Anacrolix.Paths.{
  Names, parent, dec_names, split, join, clean, starts_with_slash, descend_all, descend, go_up,
  is_local,
}
use torrcli.Anacrolix.Disk.{Disk, regular}
use torrcli.Anacrolix.Removal.{torrent_file_paths, file_paths, torrent_file_path, remove_data_files}
use torrcli.Anacrolix.Removal.Confined.{OnWay, itself, above, Concerns, remove_data_files_confined}
use torrcli.Anacrolix.Shared.{
  Shared, under, real_directory, check_shared_files, check_others, check_other, any_shared,
}
use torrcli.Anacrolix.Shared.Apart.{IsStill, check_shared_files_apart}
use torrcli.Anacrolix.Removing.{shared_of}
use torrcli.Anacrolix.Migration.{local_paths, local_path, migrate_part_files}
use torrcli.Anacrolix.Migration.Preserving.{Guards, migrate_part_files_preserves}
use torrcli.Tests.Seeding.{World, toy_info, toy, shelf, world, path_of, seedbox, path_found_b}

-- What was removed is at most two steps down.
abbrev IsNear : World → Type 0
IsNear w = All (λ p. length p ≤ 2) w.removed

parent-le_self : (p : Names) → length (parent p) ≤ length p
unfolding parent
parent-le_self [] = omega arith
parent-le_self (n ∷ []) = omega arith
parent-le_self (n ∷ m ∷ ns) = omega (arith, parent-le_self (m ∷ ns))

length-OnWay : {d p : Names} → OnWay d p → length d ≤ length p
length-OnWay itself = omega arith
length-OnWay {p = p} (above n o) = omega (arith, length-OnWay o, parent-le_self p)

listed_near : {p : Names} → Among p (path_of 0 ∷ []) → length p ≤ 2
listed_near first = omega arith
listed_near (later m) = elim m [ ]

near : (p : Names) → Concerns (path_of 0 ∷ []) p → length p ≤ 2
near p c = omega (arith, length-OnWay c.on_way, listed_near c.listed)

remove_data_files_confined_example :
    IsNear (remove_data_files shelf (some tt) (path_of 0 ∷ []) world).0
remove_data_files_confined_example =
    remove_data_files_confined shelf tt IsNear (path_of 0 ∷ []) world (λ p c s h. (near p c, h)) tt

shelf-IsStill : IsStill shelf
shelf-IsStill = record { evaluates = λ p s. refl; makes_absolute = λ p s. refl }

abbrev shared : List (Shared ℕ)
shared = shared_of toy shelf world seedbox.torrents

none_shared :
    (check_shared_files shelf ℕ_discrete 0 "/data" (path_of 0 ∷ []) shared world).1 ≡ ok tt
unfolding check_shared_files check_others check_other any_shared real_directory under has_member
    torrent_file_paths file_paths torrent_file_path join clean starts_with_slash split descend_all
    descend go_up is_local parent dec_list ℕ_discrete
none_shared = refl

found_data : (real_directory shelf "/data" world).1 ≡ ok (some ((115 ∷ []) ∷ []))
unfolding real_directory
found_data = refl

check_shared_files_apart_example :
    under ((115 ∷ []) ∷ []) (path_of 0) ≢ under ((115 ∷ []) ∷ []) (path_of 1)
check_shared_files_apart_example =
    check_shared_files_apart shelf ℕ_discrete 0 "/data" (path_of 0 ∷ []) shared world
      (record { torrent = 1; save_path = "/data"; info = some (toy_info 1) }) (toy_info 1)
      ((115 ∷ []) ∷ []) ((115 ∷ []) ∷ []) (path_of 1 ∷ []) (path_of 0) (path_of 1) shelf-IsStill
      none_shared (later first) (λ e. ground (arith, e)) refl path_found_b found_data found_data
      first first

-- A disk where each name is one of the same regular file.
abbrev one_file : Disk World (Unit {0})
one_file = record shelf { lstat = λ r p l. (l, ok (record { kind = regular; file = 7 })) }

-- No file of the torrent has lost its name.
abbrev KeepsNames : World → Type 0
KeepsNames w = All (λ p. has_member dec_names p (path_of 0 ∷ []) ≡ false) w.removed

own_names :
    (paths : List Names)
    → local_paths (toy_info 0) (toy_info 0).files [] ≡ ok paths
    → path_of 0 ∷ [] ≡ paths
unfolding local_paths local_path has_member join clean starts_with_slash split descend_all descend
    go_up is_local parent dec_list ℕ_discrete
own_names paths h = ground (arith, h)

one_file-Guards : Guards one_file (toy_info 0) KeepsNames
one_file-Guards = record {
  opens = λ p s h. h;
  closes = λ r s h. h;
  looks = λ r p s h. h;
  links = λ r p q s h. h;
  removes = λ r paths part path s own n k h.
      (subst (λ ps. has_member dec_names part ps ≡ false) (sym (own_names paths own)) n, h);
}

migrate_part_files_preserves_example :
    KeepsNames (migrate_part_files one_file "/data" (toy_info 0) world).0
migrate_part_files_preserves_example =
    migrate_part_files_preserves one_file KeepsNames "/data" (toy_info 0) world one_file-Guards tt
