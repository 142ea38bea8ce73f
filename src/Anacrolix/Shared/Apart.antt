-- ===== src/Anacrolix/Shared/Apart.antt =====
-- internal/engine/anacrolix/remove.go: what checkSharedFiles rules out.
use torrcli.Base.{
  ◌≡◌, ◌≢◌, refl, subst, arith, Bool, true, false, Option, none, some, String, List, [], ◌∷◌, map,
  has_member_of_Among, Among, Among-map, first, later, Result, ok, err, inl, inr, Option-cases,
}
use torrcli.Anacrolix.Paths.{Names, dec_names}
use torrcli.Anacrolix.Disk.{Disk}
use torrcli.Anacrolix.Removal.{Info, torrent_file_paths}
use torrcli.Anacrolix.Shared.{
  Shared, under, any_shared, real_directory, check_other, check_others, check_shared_files,
}

any_shared_all :
    (candidates : List Names) (dir : Names) (paths : List Names) {q : Names}
    → any_shared candidates dir paths ≡ false
    → Among q paths
    → Among (under dir q) candidates
    → ⊥
unfolding any_shared
any_shared_all candidates dir [] h m k = elim m [ ]
any_shared_all candidates dir (path ∷ paths) h first k =
    ground (arith, has_member_of_Among dec_names candidates k)
any_shared_all candidates dir (path ∷ paths) h (later m) k =
    any_shared_all candidates dir paths (ground arith) m k

-- Looking a directory up changes nothing.
pub record IsStill {L R : Type 0} (disk : Disk L R) : Type 0 where
  pub evaluates : (path : String) (s : L) → (disk.eval_symlinks path s).0 ≡ s
  pub makes_absolute : (path : String) (s : L) → (disk.abs path s).0 ≡ s

module _ {L R : Type 0} (disk : Disk L R) where
  real_directory_still : (path : String) (s : L) → IsStill disk → (real_directory disk path s).0 ≡ s
  unfolding real_directory
  real_directory_still path s k = evaluated (disk.eval_symlinks path s).1 refl
    where
      absolute :
          (p : String) (r : Result Names)
          → (disk.eval_symlinks path s).1 ≡ ok p
          → (disk.abs p (disk.eval_symlinks path s).0).1 ≡ r
          → (real_directory disk path s).0 ≡ s
      absolute p (ok n) e f = ground (arith, k.evaluates path s, k.makes_absolute p s)
      absolute p (err x) e f = ground (arith, k.evaluates path s, k.makes_absolute p s)

      evaluated :
          (r : Result String)
          → (disk.eval_symlinks path s).1 ≡ r
          → (real_directory disk path s).0 ≡ s
      evaluated (ok p) e = absolute p (disk.abs p (disk.eval_symlinks path s).0).1 e refl
      evaluated (err x) e = ground (arith, k.evaluates path s)

  -- What a check of one other torrent that finds nothing has seen.
  record Passed (candidates : List Names) (save_path : String) (info : Info) (s : L) : Type 0 where
    still : (check_other disk candidates save_path info s).0 ≡ s
    apart :
        (dir : Names) (paths : List Names)
        → (real_directory disk save_path s).1 ≡ ok (some dir)
        → torrent_file_paths info ≡ ok paths
        → any_shared candidates dir paths ≡ false

  check_other-Passed :
      (candidates : List Names) (save_path : String) (info : Info) (s : L)
      → IsStill disk
      → (check_other disk candidates save_path info s).1 ≡ ok tt
      → Passed candidates save_path info s
  unfolding check_other
  check_other-Passed candidates save_path info s k h =
      found (real_directory disk save_path s).1 refl
    where
      listed :
          (dir : Names) (r : Result (List Names))
          → (real_directory disk save_path s).1 ≡ ok (some dir)
          → torrent_file_paths info ≡ r
          → Passed candidates save_path info s
      listed dir (ok paths) e f = tested (any_shared candidates dir paths) refl
        where
          tested :
              (b : Bool) → any_shared candidates dir paths ≡ b → Passed candidates save_path info s
          tested true g = absurd (ground arith)
          tested false g = record {
            still = rw (e, f, g, check_other) (real_directory_still save_path s k);
            apart = λ d ps a b. ground arith;
          }
      listed dir (err x) e f = absurd (ground arith)

      found :
          (r : Result (Option Names))
          → (real_directory disk save_path s).1 ≡ r
          → Passed candidates save_path info s
      found (ok none) e = record {
        still = rw (e, check_other) (real_directory_still save_path s k);
        apart = λ d ps a b. absurd (ground arith);
      }
      found (ok (some dir)) e = listed dir (torrent_file_paths info) e refl
      found (err x) e = absurd (ground arith)

module _ {L R H : Type 0} (disk : Disk L R) (same_torrent : Discrete H) where
  check_others_skip :
      (torrent : H) (candidates : List Names) (other : Shared H) (others : List (Shared H)) (s : L)
      → (check_others disk same_torrent torrent candidates (other ∷ others) s).1 ≡ ok tt
      → IsStill disk
      → (check_others disk same_torrent torrent candidates others s).1 ≡ ok tt
  unfolding check_others
  check_others_skip torrent candidates other others s h k = elim (Option-cases other.info) [
    | inl e ↦ ground arith
    | inr (info, e) ↦ known info e (check_other disk candidates other.save_path info s).1 refl
  ]
    where
      known :
          (info : Info)
          → other.info ≡ some info
          → (r : Result (Unit {0})) → (check_other disk candidates other.save_path info s).1 ≡ r
          → (check_others disk same_torrent torrent candidates others s).1 ≡ ok tt
      known info e (ok u) f =
          let p = (check_other-Passed disk candidates other.save_path info s k f).still in
          ground arith
      known info e (err x) f = elim (same_torrent other.torrent torrent) [
        | yes q ↦ ground arith
        | no q ↦ absurd (ground arith)
      ]

  -- The directories of two torrents and the paths in them, as the check finds them.
  check_others_apart :
      (torrent : H) (candidates : List Names) (others : List (Shared H)) (s : L) {other : Shared H}
      (info : Info)
      → IsStill disk
      → (check_others disk same_torrent torrent candidates others s).1 ≡ ok tt
      → Among other others
      → other.torrent ≢ torrent
      → other.info ≡ some info
      → (check_other disk candidates other.save_path info s).1 ≡ ok tt
  unfolding check_others
  check_others_apart torrent candidates [] s info k h m n e = elim m [ ]
  check_others_apart torrent candidates (o ∷ others) s info k h first n e =
      succeeds (check_other disk candidates o.save_path info s).1 refl
    where
      succeeds :
          (r : Result (Unit {0}))
          → (check_other disk candidates o.save_path info s).1 ≡ r
          → (check_other disk candidates o.save_path info s).1 ≡ ok tt
      succeeds (ok u) f = f
      succeeds (err x) f = absurd (ground arith)
  check_others_apart torrent candidates (o ∷ others) s info k h (later m) n e =
      check_others_apart torrent candidates others s info k
        (check_others_skip torrent candidates o others s h k) m n e

  -- Where the check succeeds, no file of the torrent is a file of another torrent whose metadata is
  -- known, as long as looking a directory up changes nothing: with both directories found, the two
  -- paths under them differ.
  pub check_shared_files_apart :
      (torrent : H) (save_path : String) (paths : List Names) (others : List (Shared H)) (s : L)
      (other : Shared H) (info : Info) (dir there : Names) (theirs : List Names) (p q : Names)
      → IsStill disk
      → (check_shared_files disk same_torrent torrent save_path paths others s).1 ≡ ok tt
      → Among other others
      → other.torrent ≢ torrent
      → other.info ≡ some info
      → torrent_file_paths info ≡ ok theirs
      → (real_directory disk save_path s).1 ≡ ok (some dir)
      → (real_directory disk other.save_path s).1 ≡ ok (some there)
      → Among p paths
      → Among q theirs
      → under dir p ≢ under there q
  unfolding check_shared_files
  check_shared_files_apart torrent save_path paths others s other info dir there theirs p q k h m n
        e f a b i j g =
      let checked : (check_others disk same_torrent torrent (map (under dir) paths) others s).1
          ≡ ok tt =
        ground (arith, real_directory_still disk save_path s k) in
      let passed =
        check_other-Passed disk (map (under dir) paths) other.save_path info s k
          (check_others_apart torrent (map (under dir) paths) others s info k checked m n e) in
      any_shared_all (map (under dir) paths) there theirs (passed.apart there theirs b f) j
        (subst (λ x. Among x (map (under dir) paths)) g (Among-map (under dir) paths i))
