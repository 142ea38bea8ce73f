-- ===== src/Anacrolix/Priorities.antt =====
-- internal/engine/anacrolix/engine.go: the two names of a priority, and what a source is.
use Prim.Native.Char.{code}
use Prim.Native.String.{String, [] as empty, ◌∷◌ as ◌::◌}
use torrcli.Base.{
  ℕ, ◌+◌, Bool, true, false, ◌&&◌, leb, List, [], ◌∷◌, ite, ℕ_discrete, dec_str, if◌then◌else◌,
}
use torrcli.Model.{FilePriority}
use torrcli.Model.Priorities
use torrcli.Sequential.{PiecePriority, no_priority, normal, high, readahead, now, other_priority}

unfoldable pub piece_priority : FilePriority → PiecePriority
piece_priority p =
    ite (dec_str p Priorities.skip) no_priority (ite (dec_str p Priorities.high) high normal)

unfoldable pub file_priority : PiecePriority → FilePriority
file_priority no_priority = Priorities.skip
file_priority high = Priorities.high
file_priority normal = Priorities.normal
file_priority readahead = Priorities.normal
file_priority now = Priorities.normal
file_priority (other_priority n) = Priorities.normal

-- strings.ToLower of a character, as far as the letters of "magnet:" go.
abbrev pub lower : ℕ → ℕ
lower c = if leb 65 c && leb c 90 then c + 32 else c

-- `strings.HasPrefix(strings.ToLower(s), prefix)`, the prefix as the codes of its letters.
unfoldable pub has_lower_prefix : List ℕ → String → Bool
has_lower_prefix [] s = true
has_lower_prefix (p ∷ ps) empty = false
has_lower_prefix (p ∷ ps) (c :: cs) =
    let rest = has_lower_prefix ps cs in ite (ℕ_discrete (lower (code c)) p) rest false

-- "magnet:".
abbrev magnet : List ℕ
magnet = 109 ∷ 97 ∷ 103 ∷ 110 ∷ 101 ∷ 116 ∷ 58 ∷ []

unfoldable pub is_magnet : String → Bool
unfolding has_lower_prefix
is_magnet source = has_lower_prefix magnet source
