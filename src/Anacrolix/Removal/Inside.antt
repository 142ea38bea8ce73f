-- ===== src/Anacrolix/Removal/Inside.antt =====
-- internal/engine/anacrolix/remove.go: where the paths of a torrent's files lead.
use mathlib.Core.List.{cons≢nil}
use torrcli.Base.{
  ℕ, ◌≡◌, ◌≢◌, refl, sym, ◌∙◌, ap, map, zero, suc, subst, arith, Bool, true, false, Option, none,
  some, List, [], ◌∷◌, ℕ_discrete, All, All-append, Result, ok, err, ite_cases, if_cases,
}
use torrcli.Anacrolix.Paths.{
  Name, Names, FilePath, slash, dot, extend_first, dot_dot, dec_name, split, split_all, parent,
  go_up, descend, descend_all, clean, starts_with_slash, join, is_local,
}
use torrcli.Anacrolix.Removal.{Info, parts_of, torrent_file_path, file_paths, torrent_file_paths}

-- A name without a separator.
abbrev IsWhole : Name → Type 0
IsWhole n = All (λ c. c ≢ slash) n

-- The name of an entry of a directory: not empty, not the directory itself or the one above it, and
-- without a separator.
pub record IsEntry (n : Name) : Type 0 where
  pub not_empty : n ≢ []
  pub not_dot : n ≢ dot
  pub not_dot_dot : n ≢ dot_dot
  pub whole : IsWhole n

-- A path that goes down from where it starts, at least one step.
pub record IsInside (path : Names) : Type 0 where
  pub some_name : path ≢ []
  pub entries : All IsEntry path

extend_first-IsWhole :
    (c : ℕ) (ns : Names) → c ≢ slash → All IsWhole ns → All IsWhole (extend_first c ns)
extend_first-IsWhole c [] n h = ((n, tt), tt)
extend_first-IsWhole c (m ∷ ns) n (h, k) = ((n, h), k)

split-IsWhole : (n : Name) → All IsWhole (split n)
unfolding split
split-IsWhole [] = (tt, tt)
split-IsWhole (c ∷ cs) =
    ite_cases (All IsWhole) (ℕ_discrete c slash) (λ p. (tt, split-IsWhole cs))
      (λ n. extend_first-IsWhole c (split cs) n (split-IsWhole cs))

split_all-IsWhole : (ns : Names) → All IsWhole (split_all ns)
split_all-IsWhole [] = tt
split_all-IsWhole (n ∷ ns) =
    All-append IsWhole (split n) (split_all ns) (split-IsWhole n) (split_all-IsWhole ns)

parent-IsEntry : (ns : Names) → All IsEntry ns → All IsEntry (parent ns)
unfolding parent
parent-IsEntry [] h = tt
parent-IsEntry (n ∷ []) h = tt
parent-IsEntry (n ∷ m ∷ ns) (p, h) = (p, parent-IsEntry (m ∷ ns) h)

go_up-IsEntry : (p : FilePath) → All IsEntry p.names → All IsEntry (go_up p).names
unfolding go_up
go_up-IsEntry p h = above p.names refl
  where
    above : (ns : Names) → p.names ≡ ns → All IsEntry (go_up p).names
    above [] e =
        rw (e, go_up) (if_cases (λ (q : FilePath). All IsEntry q.names) p.rooted (λ f. h) (λ f. h))
    above (n ∷ ns) e = rw (e, go_up) (parent-IsEntry p.names h)

descend-IsEntry :
    (p : FilePath) (n : Name) → IsWhole n → All IsEntry p.names → All IsEntry (descend p n).names
unfolding descend
descend-IsEntry p n w h =
    let Good : FilePath → Type 0 = λ q. All IsEntry q.names in
    ite_cases Good (dec_name n []) (λ e. h)
      (λ a.
        ite_cases Good (dec_name n dot) (λ e. h)
          (λ b.
            ite_cases Good (dec_name n dot_dot) (λ e. go_up-IsEntry p h)
              (λ c.
                All-append IsEntry p.names (n ∷ []) h
                  (record { not_empty = a; not_dot = b; not_dot_dot = c; whole = w }, tt))))

descend_all-IsEntry :
    (p : FilePath) (ns : Names)
    → All IsWhole ns
    → All IsEntry p.names
    → All IsEntry (descend_all p ns).names
unfolding descend_all
descend_all-IsEntry p [] w h = h
descend_all-IsEntry p (n ∷ ns) (v, w) h =
    descend_all-IsEntry (descend p n) ns w (descend-IsEntry p n v h)

clean-IsEntry : (rooted : Bool) (ns : Names) → All IsWhole ns → All IsEntry (clean rooted ns).names
unfolding clean
clean-IsEntry rooted ns w =
    descend_all-IsEntry (record { rooted = rooted; ups = 0; names = [] }) ns w tt

join-IsEntry : (ns : Names) (p : FilePath) → join ns ≡ some p → All IsEntry p.names
unfolding join
join-IsEntry [] p e = absurd (ground (arith, e))
join-IsEntry ([] ∷ ns) p e = join-IsEntry ns p e
join-IsEntry ((c ∷ cs) ∷ ns) p e =
    let f : clean (starts_with_slash (c ∷ cs)) (split_all ((c ∷ cs) ∷ ns)) ≡ p =
      ground (arith, e) in
    subst (λ q. All IsEntry q.names) f
      (clean-IsEntry (starts_with_slash (c ∷ cs)) (split_all ((c ∷ cs) ∷ ns))
        (split_all-IsWhole ((c ∷ cs) ∷ ns)))

-- What is accepted for a file: its path under the torrent's name, which is not rooted and does not
-- go above where it starts.
pub record Accepted (info : Info) (file path : Names) : Type 0 where
  pub joined : join (parts_of info file) ≡ some (record { rooted = false; ups = 0; names = path })
  pub inside : IsInside path

-- One path for each file, in their order.
pub data Each (info : Info) : List Names → List Names → Type 0 where
  no_file : Each info [] []
  one_more :
      {file path : Names} {files paths : List Names}
      → Accepted info file path
      → Each info files paths
      → Each info (file ∷ files) (path ∷ paths)

is_local-flat :
    (p : FilePath) → is_local p ≡ true → p ≡ record { rooted = false; ups = 0; names = p.names }
unfolding is_local
is_local-flat p e = flat p.rooted p.ups refl refl
  where
    flat :
        (b : Bool) (n : ℕ)
        → p.rooted ≡ b
        → p.ups ≡ n
        → p ≡ record { rooted = false; ups = 0; names = p.names }
    flat false zero f g = ground arith
    flat true zero f g = absurd (ground arith)
    flat b (suc n) f g = absurd (ground arith)

torrent_file_path-Accepted :
    (info : Info) (file : Names) (path : FilePath)
    → torrent_file_path info file ≡ ok path
    → Accepted info file path.names
unfolding torrent_file_path
torrent_file_path-Accepted info file path h = found (join (parts_of info file)) refl
  where
    entered :
        (p : FilePath) (b : Bool) (ns : Names)
        → join (parts_of info file) ≡ some p
        → is_local p ≡ b
        → p.names ≡ ns
        → Accepted info file path.names
    entered p true [] e f g = absurd (ground arith)
    entered p false ns e f g = absurd (ground arith)
    entered p true (n ∷ ns) e f g =
        let k : p ≡ path = ground arith in
        subst (λ q. Accepted info file q.names) k
          (record {
            joined = e ∙ ap some (is_local-flat p f);
            inside = record {
              some_name = λ z. cons≢nil (sym g ∙ z);
              entries = join-IsEntry (parts_of info file) p e;
            };
          })

    found : (o : Option FilePath) → join (parts_of info file) ≡ o → Accepted info file path.names
    found none e = absurd (ground arith)
    found (some p) e = entered p (is_local p) p.names e refl refl

file_paths-Each :
    (info : Info) (files : List Names) (paths : List FilePath)
    → file_paths info files ≡ ok paths
    → Each info files (map (λ path. path.names) paths)
unfolding file_paths
file_paths-Each info [] paths h =
    let k : [] ≡ paths = ground (arith, h) in
    subst (λ ps. Each info [] (map (λ (path : FilePath). path.names) ps)) k no_file
file_paths-Each info (file ∷ files) paths h =
    chosen (torrent_file_path info file) (file_paths info files) (file_paths-Each info files) refl
      refl
  where
    chosen :
        (a : Result FilePath) (b : Result (List FilePath))
        → ((ps : List FilePath)
            → file_paths info files ≡ ok ps
            → Each info files (map (λ path. path.names) ps))
        → torrent_file_path info file ≡ a
        → file_paths info files ≡ b
        → Each info (file ∷ files) (map (λ path. path.names) paths)
    chosen (ok p) (ok ps) rest e f =
        let k : p ∷ ps ≡ paths = ground arith in
        subst (λ qs. Each info (file ∷ files) (map (λ (path : FilePath). path.names) qs)) k
          (one_more (torrent_file_path-Accepted info file p e) (rest ps f))
    chosen (ok p) (err x) rest e f = absurd (ground arith)
    chosen (err x) b rest e f = absurd (ground arith)

-- The paths of a torrent's files, where they are accepted, are the files' own under the torrent's
-- name, one for each file. Each of them, after cleaning, is not rooted and does not go up, but goes
-- down from the download directory: at least one step, and each name is that of an entry, without a
-- separator and not "." or "..".
pub torrent_file_paths-Each :
    (info : Info) (paths : List Names)
    → torrent_file_paths info ≡ ok paths
    → Each info info.files paths
unfolding torrent_file_paths
torrent_file_paths-Each info paths h = found (file_paths info info.files) refl
  where
    found :
        (r : Result (List FilePath)) → file_paths info info.files ≡ r → Each info info.files paths
    found (ok ps) e =
        let k : map (λ path. path.names) ps ≡ paths = ground arith in
        subst (Each info info.files) k (file_paths-Each info info.files ps e)
    found (err x) e = absurd (ground arith)
