-- ===== src/Sequential/Window.antt =====
-- The window of boosted pieces.
use torrcli.Base.{
  ℕ, zero, suc, ◌+◌, ◌-◌, ◌≤◌, ◌≡◌, inl, inr, refl, arith, Bool, true, false, ◌||◌, none, some,
  List, [], ◌∷◌, ℕ_discrete, length, lookup, put, length-put_new, lookup-put, Option-cases,
  Bool-cases,
}
use torrcli.Sequential.{
  PiecePriority, PieceFile, no_priority, update_sequential, set_priorities, priority_after, has,
  window, collect_pieces, collect_files, next_boosted,
}

module _ (complete : ℕ → Bool) where
  -- What is chosen and what may still be chosen make up the window.
  length-collect_pieces :
      (i count : ℕ) (next : List (ℕ × PiecePriority)) (remaining : ℕ)
      → length (collect_pieces complete i count next remaining).0
          + (collect_pieces complete i count next remaining).1
        ≡ length next + remaining
  unfolding collect_pieces
  length-collect_pieces i zero next remaining = refl
  length-collect_pieces i (suc count) next zero = refl
  length-collect_pieces i (suc count) next (suc remaining) =
      let p = priority_after next in
      elim (Option-cases (lookup ℕ_discrete i next)) [
        | inl e ↦ ground (
          arith,
          length-collect_pieces (suc i) count next (suc remaining),
          length-collect_pieces (suc i) count (put ℕ_discrete i p next) remaining,
          length-put_new ℕ_discrete i p next e,
        )
        | inr (v, e) ↦ ground (arith, length-collect_pieces (suc i) count next (suc remaining))
      ]

  length-collect_files :
      (files : List PieceFile) (next : List (ℕ × PiecePriority)) (remaining : ℕ)
      → length (collect_files complete files next remaining).0
          + (collect_files complete files next remaining).1
        ≡ length next + remaining
  unfolding collect_files
  length-collect_files [] next remaining = refl
  length-collect_files (f ∷ files) next remaining =
      let n : ℕ = f.end - f.first in
      let taken = (collect_pieces complete f.first n next remaining).0 in
      let left = (collect_pieces complete f.first n next remaining).1 in
      ground (
        arith,
        length-collect_pieces f.first n next remaining,
        length-collect_files files next remaining,
        length-collect_files files taken left,
      )

  -- No more pieces are boosted than the window has, which is at least one.
  pub window_bound :
      (enabled : Bool) (piece_length : ℕ) (files : List PieceFile)
      → length (next_boosted complete enabled piece_length files) ≤ window piece_length
  unfolding next_boosted
  window_bound true piece_length files =
      omega (arith, length-collect_files files [] (window piece_length))
  window_bound false piece_length files = omega arith

  -- A piece that is to be boosted is unfinished.
  abbrev pub IsUnfinished : List (ℕ × PiecePriority) → Type 0
  IsUnfinished next =
      (i : ℕ) (p : PiecePriority) → lookup ℕ_discrete i next ≡ some p → complete i ≡ false

  put-IsUnfinished :
      (i : ℕ) (p : PiecePriority) (next : List (ℕ × PiecePriority))
      → complete i ≡ false
      → IsUnfinished next
      → IsUnfinished (put ℕ_discrete i p next)
  put-IsUnfinished i p next c h j q e = ground (arith, lookup-put ℕ_discrete j i p next, h j q)

  collect_pieces-IsUnfinished :
      (i count : ℕ) (next : List (ℕ × PiecePriority)) (remaining : ℕ)
      → IsUnfinished next
      → IsUnfinished (collect_pieces complete i count next remaining).0
  unfolding collect_pieces
  collect_pieces-IsUnfinished i zero next remaining h = h
  collect_pieces-IsUnfinished i (suc count) next zero h = h
  collect_pieces-IsUnfinished i (suc count) next (suc remaining) h =
      elim (Bool-cases (has i next || complete i)) [
        | inl e ↦
            rw (e, collect_pieces)
              (collect_pieces-IsUnfinished (suc i) count next (suc remaining) h)
        | inr e ↦
            let c : complete i ≡ false = ground arith in
            rw (e, collect_pieces)
              (collect_pieces-IsUnfinished (suc i) count
                (put ℕ_discrete i (priority_after next) next) remaining
                (put-IsUnfinished i (priority_after next) next c h))
      ]

  collect_files-IsUnfinished :
      (files : List PieceFile) (next : List (ℕ × PiecePriority)) (remaining : ℕ)
      → IsUnfinished next
      → IsUnfinished (collect_files complete files next remaining).0
  unfolding collect_files
  collect_files-IsUnfinished [] next remaining h i p e = h i p e
  collect_files-IsUnfinished (f ∷ files) next remaining h i p e =
      let n : ℕ = f.end - f.first in
      let taken = (collect_pieces complete f.first n next remaining).0 in
      let left = (collect_pieces complete f.first n next remaining).1 in
      let chosen = collect_pieces-IsUnfinished f.first n next remaining h in
      ground (
        arith,
        chosen i p,
        collect_files-IsUnfinished files next remaining h i p,
        collect_files-IsUnfinished files taken left chosen i p,
      )

  -- The pieces that an update boosts are unfinished, and at most as many as the window has.
  pub update_sequential-IsUnfinished :
      (enabled : Bool) (piece_length : ℕ) (files : List PieceFile)
      (boosted : List (ℕ × PiecePriority)) (priority : ℕ → PiecePriority)
      → let next =
          (update_sequential complete enabled (some piece_length) files boosted priority).0 in
        IsUnfinished next × (length next ≤ window piece_length)
  unfolding update_sequential next_boosted lookup
  update_sequential-IsUnfinished true piece_length files boosted priority = (
    collect_files-IsUnfinished files [] (window piece_length) (λ i p e. absurd (ground arith)),
    window_bound true piece_length files,
  )
  update_sequential-IsUnfinished false piece_length files boosted priority =
      (λ i p e. absurd (ground arith), window_bound false piece_length files)

  -- Sequential mode switched on and off again leaves no piece boosted; a piece that was not boosted
  -- in between has the priority that it had, and one that was has none of its own.
  pub sequential_off :
      (l m : ℕ) (files later : List PieceFile) (priority : ℕ → PiecePriority) (i : ℕ)
      → let on = update_sequential complete true (some l) files [] priority in
        let off = update_sequential complete false (some m) later on.0 on.1 in
        (off.0 ≡ [])
        × ((lookup ℕ_discrete i on.0 ≡ none → off.1 i ≡ priority i)
            × ((p : PiecePriority) → lookup ℕ_discrete i on.0 ≡ some p → off.1 i ≡ no_priority))
  unfolding update_sequential next_boosted set_priorities lookup
  sequential_off l m files later priority i = (refl, (λ e. ground arith, λ p e. ground arith))
