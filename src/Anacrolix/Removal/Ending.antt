-- ===== src/Anacrolix/Removal/Ending.antt =====
-- internal/engine/anacrolix/remove.go: the loop of removeDataFiles that goes up from a file.
use torrcli.Base.{
  ℕ, zero, suc, ◌≤◌, ◌≡◌, ◌≢◌, refl, sym, ◌∙◌, ap, subst, arith, Bool, true, false, Option, some,
  List, [], ◌∷◌, length, has_member, Among, first, later, Among-has_member, if◌then◌else◌,
}
use torrcli.Anacrolix.Paths.{Name, Names, parent, dec_names}
use torrcli.Anacrolix.Removal.{directories_above}
use torrcli.Anacrolix.Removal.Confined.{OnWay, itself, above}

length-parent : (path : Names) (n : ℕ) → length path ≤ suc n → length (parent path) ≤ n
unfolding parent
length-parent [] n h = omega arith
length-parent (m ∷ []) n h = omega arith
length-parent (m ∷ k ∷ ns) zero h = absurd (omega arith)
length-parent (m ∷ k ∷ ns) (suc n) h = omega (arith, length-parent (k ∷ ns) n (omega arith))

-- The loop has ended, and has kept what was found and found all the directories above the path.
pub record Climbed (r : Option (List Names)) (path : Names) (found : List Names) : Type 0 where
  pub directories : List Names
  pub ended : r ≡ some directories
  pub keeps : (d : Names) → Among d found → Among d directories
  pub on_way : (d : Names) → d ≢ [] → OnWay d (parent path) → Among d directories

OnWay-none : (d path : Names) → path ≡ [] → OnWay d path → d ≡ []
unfolding parent
OnWay-none d path e itself = e
OnWay-none d path e (above m o) = OnWay-none d (parent path) (ground (arith, e)) o

-- The directory that is added, or was known.
found_or_added :
    (up : Names) (found : List Names)
    → Among up (if has_member dec_names up found then found else up ∷ found)
found_or_added up found = known (has_member dec_names up found) refl
  where
    known :
        (b : Bool) → has_member dec_names up found ≡ b → Among up (if b then found else up ∷ found)
    known true e = Among-has_member dec_names found e
    known false e = first

kept_or_added :
    (b : Bool) (up d : Names) (found : List Names)
    → Among d found
    → Among d (if b then found else up ∷ found)
kept_or_added true up d found m = m
kept_or_added false up d found m = later m

abbrev known_with : Names → List Names → List Names
known_with up found = if has_member dec_names up found then found else up ∷ found

next_round :
    (n : ℕ) (path : Names) (found : List Names) (m : Name) (ms : Names)
    → parent path ≡ m ∷ ms
    → directories_above (suc n) path found
      ≡ directories_above n (parent path) (known_with (parent path) found)
unfolding directories_above
next_round n path found m ms e =
    rw (e, directories_above) (ap (λ x. directories_above n x (known_with x found)) e)

ends_here :
    (n : ℕ) (path : Names) (found : List Names)
    → parent path ≡ []
    → Climbed (directories_above (suc n) path found) path found
unfolding directories_above
ends_here n path found e = record {
  directories = found;
  ended = rw (e, directories_above) refl;
  keeps = λ d m. m;
  on_way = λ d m o. absurd (m (OnWay-none d (parent path) e o));
}

goes_on :
    (n : ℕ) (path : Names) (found : List Names) (up : Names) (m : Name) (ms : Names)
    → parent path ≡ m ∷ ms
    → parent path ≡ up
    → Climbed (directories_above (suc n) up (known_with up found)) up (known_with up found)
    → Climbed (directories_above (suc (suc n)) path found) path found
goes_on n path found up m ms e f c =
    let unrolled : directories_above (suc (suc n)) path found
        ≡ directories_above (suc n) up (known_with up found) =
      subst
        (λ x.
          directories_above (suc (suc n)) path found
          ≡ directories_above (suc n) x (known_with x found))
        f (next_round (suc n) path found m ms e) in
    record {
      directories = c.directories;
      ended = unrolled ∙ c.ended;
      keeps = λ d k. c.keeps d (kept_or_added (has_member dec_names up found) up d found k);
      on_way = λ d k o. reached d k (parent path) f o;
    }
  where
    reached : (d : Names) → d ≢ [] → (x : Names) → x ≡ up → OnWay d x → Among d c.directories
    reached d k x g itself =
        c.keeps d (subst (λ y. Among y (known_with up found)) (sym g) (found_or_added up found))
    reached d k x g (above q o) = c.on_way d q (subst (λ y. OnWay d (parent y)) g o)

-- The loop that goes up from a file ends within one round more than its path has names. All the
-- directories on the way to the file are then among those found, and those found before still are.
pub directories_above_end :
    (n : ℕ) (path : Names) (found : List Names)
    → length path ≤ n
    → Climbed (directories_above (suc n) path found) path found
unfolding parent
directories_above_end zero [] found h = ends_here 0 [] found refl
directories_above_end zero (p ∷ ps) found h = absurd (omega arith)
directories_above_end (suc n) path found h = above_it (parent path) refl (
    directories_above_end n (parent path) (known_with (parent path) found) (length-parent path n h))
  where
    above_it :
        (up : Names)
        → parent path ≡ up
        → Climbed
            (directories_above (suc n) (parent path) (known_with (parent path) found))
            (parent path)
            (known_with (parent path) found)
        → Climbed (directories_above (suc (suc n)) path found) path found
    above_it [] e c = ends_here (suc n) path found e
    above_it (m ∷ ms) e c = goes_on n path found (parent path) m ms e refl c
