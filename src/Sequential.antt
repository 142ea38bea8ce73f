-- ===== src/Sequential.antt =====
-- internal/engine/anacrolix/sequential.go: updateSequential, which gives the first unfinished pieces
-- of the wanted files a higher priority. What the library knows of the files and pieces is a
-- parameter.
pub mod Window
use torrcli.Base.{
  ℕ, zero, suc, ◌+◌, ◌-◌, ◌/◌, max, Bool, true, false, ◌||◌, Option, none, some, List, [], ◌∷◌,
  ℕ_discrete, lookup, put, if◌then◌else◌,
}

-- The priorities that the code sets; a piece or a file may have others.
pub data PiecePriority : Type 0 where
  no_priority normal high readahead now : PiecePriority
  other_priority : ℕ → PiecePriority

pub record PieceFile : Type 0 where
  pub wanted : Bool
  pub first : ℕ
  pub end : ℕ

-- `max(1, int((16<<20)/info.PieceLength))`.
unfoldable pub window : ℕ → ℕ
window piece_length = max 1 (16777216 / piece_length)

-- `if len(next) == 0 { … }`.
abbrev pub priority_after : List (ℕ × PiecePriority) → PiecePriority
priority_after [] = now
priority_after (p ∷ ps) = readahead

abbrev pub has : ℕ → List (ℕ × PiecePriority) → Bool
has i next = elim (lookup ℕ_discrete i next) [ none ↦ false | some p ↦ true ]

module _ (complete : ℕ → Bool) where
  -- The loop over the pieces of a file, `count` of them from `i` on: the pieces chosen, and how
  -- many more may be.
  unfoldable pub collect_pieces :
      ℕ → ℕ → List (ℕ × PiecePriority) → ℕ → List (ℕ × PiecePriority) × ℕ
  collect_pieces i zero next remaining = (next, remaining)
  collect_pieces i (suc count) next zero = (next, zero)
  collect_pieces i (suc count) next (suc remaining) =
      let skipped = collect_pieces (suc i) count next (suc remaining) in
      let chosen =
        collect_pieces (suc i) count (put ℕ_discrete i (priority_after next) next) remaining in
      if has i next || complete i then skipped else chosen

  -- The loop over the files.
  unfoldable pub collect_files :
      List PieceFile → List (ℕ × PiecePriority) → ℕ → List (ℕ × PiecePriority) × ℕ
  unfolding collect_pieces
  collect_files [] next remaining = (next, remaining)
  collect_files (f ∷ files) next remaining =
      let (taken, left) = collect_pieces f.first (f.end - f.first) next remaining in
      let skipped = collect_files files next remaining in
      let more = collect_files files taken left in
      if f.wanted then stop taken left more else skipped
    where
      stop :
          List (ℕ × PiecePriority) → ℕ → List (ℕ × PiecePriority) × ℕ → List (ℕ × PiecePriority) × ℕ
      stop taken zero more = (taken, zero)
      stop taken (suc left) more = more

  unfoldable pub next_boosted : Bool → ℕ → List PieceFile → List (ℕ × PiecePriority)
  unfolding collect_files window
  next_boosted true piece_length files = (collect_files files [] (window piece_length)).0
  next_boosted false piece_length files = []

-- The calls of SetPriority, by what becomes of the priority of each piece: the order of a range over
-- a map does not matter, since no piece is in both loops or in one of them twice. A call that
-- leaves the priority as it was boosted already is not made.
unfoldable pub set_priorities :
    List (ℕ × PiecePriority) → List (ℕ × PiecePriority) → (ℕ → PiecePriority) → ℕ → PiecePriority
set_priorities boosted next priority i = elim (lookup ℕ_discrete i next) [
  | some p ↦ elim (lookup ℕ_discrete i boosted) [ none ↦ p | some old ↦ changed old p ]
  | none ↦ elim (lookup ℕ_discrete i boosted) [ none ↦ priority i | some old ↦ no_priority ]
]
  where
    changed : PiecePriority → PiecePriority → PiecePriority
    changed now now = priority i
    changed readahead readahead = priority i
    changed old p = p

-- The boosted pieces and the priorities afterwards; nothing is done before the pieces are known.
unfoldable pub update_sequential :
    (ℕ → Bool)
    → Bool
    → Option ℕ
    → List PieceFile
    → List (ℕ × PiecePriority)
    → (ℕ → PiecePriority)
    → List (ℕ × PiecePriority) × (ℕ → PiecePriority)
unfolding next_boosted set_priorities
update_sequential complete enabled none files boosted priority = (boosted, priority)
update_sequential complete enabled (some piece_length) files boosted priority =
    let next = next_boosted complete enabled piece_length files in
    (next, set_priorities boosted next priority)
