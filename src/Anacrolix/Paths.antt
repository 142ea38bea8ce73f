-- ===== src/Anacrolix/Paths.antt =====
-- The functions of Go's `path/filepath` that internal/engine/anacrolix uses, on a system whose
-- separator is "/". A name is the bytes of a Go string.
use torrcli.Base.{
  ℕ, zero, suc, ◌+◌, Bool, true, false, not, if◌then◌else◌, length, Option, none, some, List, [],
  ◌∷◌, ◌++◌, ite, ℕ_discrete, dec_list,
}

abbrev pub Name : Type 0
Name = List ℕ

-- A path by its names; `strings.Split(path, "/")`.
abbrev pub Names : Type 0
Names = List Name

abbrev pub dec_name : Discrete Name
dec_name = dec_list ℕ_discrete

abbrev pub dec_names : Discrete Names
dec_names = dec_list (dec_list ℕ_discrete)

abbrev pub slash : ℕ
slash = 47

abbrev pub dot : Name
dot = 46 ∷ []

abbrev pub dot_dot : Name
dot_dot = 46 ∷ 46 ∷ []

-- A path that Clean has made: `ups` times "..", then names of which none is "", "." or "..".
pub record FilePath : Type 0 where
  pub rooted : Bool
  pub ups : ℕ
  pub names : Names

abbrev pub extend_first : ℕ → Names → Names
extend_first c [] = (c ∷ []) ∷ []
extend_first c (n ∷ ns) = (c ∷ n) ∷ ns

-- `strings.Split(s, "/")`.
unfoldable pub split : Name → Names
split [] = [] ∷ []
split (c ∷ cs) = let rest = split cs in ite (ℕ_discrete c slash) ([] ∷ rest) (extend_first c rest)

-- A path without its last name: filepath.Dir, where [] stands for ".".
unfoldable pub parent : Names → Names
parent [] = []
parent (n ∷ []) = []
parent (n ∷ m ∷ ns) = n ∷ parent (m ∷ ns)

-- What Clean does with the next name.
unfoldable pub go_up : FilePath → FilePath
unfolding parent
go_up p = elim p.names [
  | [] ↦ if p.rooted then p else record p { ups = suc p.ups }
  | n ∷ ns ↦ record p { names = parent p.names }
]

unfoldable pub descend : FilePath → Name → FilePath
unfolding go_up dec_list
descend p n = ite (dec_name n []) p (
    ite (dec_name n dot) p
      (ite (dec_name n dot_dot) (go_up p) (record p { names = p.names ++ n ∷ [] })))

unfoldable pub descend_all : FilePath → Names → FilePath
unfolding descend
descend_all p [] = p
descend_all p (n ∷ ns) = descend_all (descend p n) ns

-- filepath.Clean of a text that starts with "/" or not, by its names.
unfoldable pub clean : Bool → Names → FilePath
clean rooted names = descend_all (record { rooted = rooted; ups = 0; names = [] }) names

abbrev pub split_all : Names → Names
split_all [] = []
split_all (n ∷ ns) = split n ++ split_all ns

unfoldable pub starts_with_slash : Name → Bool
starts_with_slash [] = false
starts_with_slash (c ∷ cs) = ite (ℕ_discrete c slash) true false

-- filepath.Join; none is the empty text, for no name that is not empty.
unfoldable pub join : Names → Option FilePath
unfolding clean split starts_with_slash
join [] = none
join ([] ∷ ns) = join ns
join ((c ∷ cs) ∷ ns) = some (clean (starts_with_slash (c ∷ cs)) (split_all ((c ∷ cs) ∷ ns)))

-- filepath.IsLocal.
unfoldable pub is_local : FilePath → Bool
is_local p = elim p.ups [ zero ↦ not p.rooted | suc n ↦ false ]

-- `len(path)` of a path that is local.
unfoldable pub text_length : Names → ℕ
text_length [] = 0
text_length (n ∷ []) = length n
text_length (n ∷ m ∷ ns) = length n + suc (text_length (m ∷ ns))
