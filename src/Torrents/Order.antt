-- ===== src/Torrents/Order.antt =====
-- internal/daemon/session.go: the order against the map of the session state.
use torrcli.Base.{
  ℕ, zero, suc, ℤ, shift, ◌≡◌, refl, some, List, [], ◌∷◌, inl, inr, arith, dec_str, count,
  count-append, count-erase, index_of, swap, count-set, set, get_elem?, present, present-put,
  present-remove, present_of_some, present_of_none, Option-cases, lookup,
}
use torrcli.Model.{TorrentId, TorrentSnapshot}
use torrcli.Torrents.{SessionState, put, remove, move, move_order}

-- Every torrent of the map stands in the order exactly once, and nothing else does.
abbrev pub IsOrdered : SessionState → Type 0
IsOrdered s = (id : TorrentId) → count dec_str id s.order ≡ present dec_str id s.torrents

-- Where the new value stands already, a write elsewhere does not move it.
get_elem?-set_kept :
    (l : List TorrentId) (i j : ℕ) (b : TorrentId)
    → get_elem? l j ≡ some b
    → get_elem? (set l i b) j ≡ some b
get_elem?-set_kept [] i j b f = f
get_elem?-set_kept (x ∷ xs) zero zero b f = refl
get_elem?-set_kept (x ∷ xs) zero (suc j) b f = f
get_elem?-set_kept (x ∷ xs) (suc i) zero b f = f
get_elem?-set_kept (x ∷ xs) (suc i) (suc j) b f = get_elem?-set_kept xs i j b f

count-set_twice :
    (x : TorrentId) (l : List TorrentId) (i j : ℕ) (a b : TorrentId)
    → get_elem? l i ≡ some a
    → get_elem? l j ≡ some b
    → count dec_str x (set (set l i b) j a) ≡ count dec_str x l
count-set_twice x l i j a b e f = omega (
  arith,
  count-set dec_str x l i a b e,
  count-set dec_str x (set l i b) j b a (get_elem?-set_kept l i j b f),
)

pub count-swap :
    (x : TorrentId) (l : List TorrentId) (i j : ℕ)
    → count dec_str x (swap l i j) ≡ count dec_str x l
unfolding swap
count-swap x l i j = elim (Option-cases (get_elem? l i)) [
  | inl e ↦ rw (e, swap)
  | inr (a, e) ↦ elim (Option-cases (get_elem? l j)) [
    | inl f ↦ rw (e, f, swap)
    | inr (b, f) ↦ rw (e, f, swap) (count-set_twice x l i j a b e f)
  ]
]

pub count-move_order :
    (x : TorrentId) (index : ℕ) (offset : ℤ) (l : List TorrentId)
    → count dec_str x (move_order index offset l) ≡ count dec_str x l
unfolding move_order
count-move_order x index offset l = elim (Option-cases (shift index offset)) [
  | inl e ↦ rw (e, move_order)
  | inr (target, e) ↦ rw (e, move_order) (ground (arith, count-swap x l index target))
]

-- put keeps the order and the map in agreement.
pub put-IsOrdered : (t : TorrentSnapshot) (s : SessionState) → IsOrdered s → IsOrdered (put t s).0
unfolding put
put-IsOrdered t s h id = elim (Option-cases (lookup dec_str t.id s.torrents)) [
  | inl e ↦
      rw (e, put)
        (ground (
          arith,
          h id,
          count-append dec_str id s.order (t.id ∷ []),
          present-put dec_str id t.id t s.torrents,
          present_of_none dec_str t.id s.torrents e,
        ))
  | inr (u, e) ↦
      rw (e, put)
        (ground (
          arith,
          h id,
          present-put dec_str id t.id t s.torrents,
          present_of_some dec_str t.id s.torrents e,
        ))
]

-- remove keeps the order and the map in agreement.
pub remove-IsOrdered : (id : TorrentId) (s : SessionState) → IsOrdered s → IsOrdered (remove id s).0
unfolding remove
remove-IsOrdered id s h k = elim (Option-cases (lookup dec_str id s.torrents)) [
  | inl e ↦ rw (e, remove) (h k)
  | inr (u, e) ↦
      rw (e, remove)
        (ground (
          arith,
          h k,
          count-erase dec_str k id s.order,
          present-remove dec_str k id s.torrents,
          present_of_some dec_str id s.torrents e,
        ))
]

-- move keeps the order and the map in agreement.
pub move-IsOrdered :
    (id : TorrentId) (offset : ℤ) (s : SessionState) → IsOrdered s → IsOrdered (move id offset s).0
unfolding move
move-IsOrdered id offset s h k = elim (Option-cases (index_of dec_str id s.order)) [
  | inl e ↦ rw (e, move) (h k)
  | inr (i, e) ↦ rw (e, move, count-move_order) (h k)
]
