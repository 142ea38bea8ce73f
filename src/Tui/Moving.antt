-- ===== src/Tui/Moving.antt =====
-- internal/tui/update.go: selectPrevious and selectNext, by the names of the list alone.
use torrcli.Base.{
  ℕ, zero, suc, ◌+◌, ◌-◌, ◌≡◌, ◌≢◌, inl, inr, refl, sym, ap, arith, true, false, ite, some, none,
  Option, List, [], ◌∷◌, dec_str, index_of, get_elem?, length, Option-cases, Bool-cases, ltb,
}
use torrcli.Model.{TorrentId, TorrentSnapshot}
use torrcli.Tui.{View, ids, selected_index, select_at, select_previous, select_next}

-- The name after the first place of `id` in the list, or `id` where there is none.
pub next_of : TorrentId → List TorrentId → TorrentId
next_of id [] = id
next_of id (x ∷ []) = id
next_of id (x ∷ y ∷ xs) = let rest = next_of id (y ∷ xs) in ite (dec_str x id) y rest

-- The name before it.
unfoldable pub previous_of : TorrentId → List TorrentId → TorrentId
previous_of id [] = id
previous_of id (x ∷ []) = id
previous_of id (x ∷ y ∷ xs) =
    let rest = previous_of id (y ∷ xs) in ite (dec_str x id) id (ite (dec_str y id) x rest)

-- The place of `id` in a list that does not start with it.
index_after :
    (id x : TorrentId) (xs : List TorrentId) (j : ℕ)
    → index_of dec_str id (x ∷ xs) ≡ some (suc j)
    → (x ≢ id) × (index_of dec_str id xs ≡ some j)
unfolding index_of
index_after id x xs j e = elim (dec_str x id) [
  | yes p ↦ absurd (ground arith)
  | no n ↦ elim (Option-cases (index_of dec_str id xs)) [
    | inl f ↦ absurd (ground arith)
    | inr (k, f) ↦ (n, ground arith)
  ]
]

index_first :
    (id x : TorrentId) (xs : List TorrentId) → index_of dec_str id (x ∷ xs) ≡ some 0 → x ≡ id
unfolding index_of
index_first id x xs e = elim (dec_str x id) [
  | yes p ↦ p
  | no n ↦ elim (Option-cases (index_of dec_str id xs)) [
    | inl f ↦ absurd (ground arith)
    | inr (k, f) ↦ absurd (ground arith)
  ]
]

index_nowhere :
    (id x : TorrentId) (xs : List TorrentId)
    → index_of dec_str id (x ∷ xs) ≡ none
    → (x ≢ id) × (index_of dec_str id xs ≡ none)
unfolding index_of
index_nowhere id x xs e = elim (dec_str x id) [
  | yes p ↦ absurd (ground arith)
  | no n ↦ elim (Option-cases (index_of dec_str id xs)) [
    | inl f ↦ (n, f)
    | inr (k, f) ↦ absurd (ground arith)
  ]
]

next_none :
    (id : TorrentId) (xs : List TorrentId) → index_of dec_str id xs ≡ none → next_of id xs ≡ id
unfolding next_of
next_none id [] e = refl
next_none id (x ∷ []) e = refl
next_none id (x ∷ y ∷ xs) e =
    let (n, f) = index_nowhere id x (y ∷ xs) e in ground (arith, n, next_none id (y ∷ xs) f)

next_last :
    (id : TorrentId) (ts : List TorrentSnapshot) (i : ℕ)
    → index_of dec_str id (ids ts) ≡ some i
    → ltb (i + 1) (length ts) ≡ false
    → next_of id (ids ts) ≡ id
unfolding next_of
next_last id [] i e f = refl
next_last id (t ∷ []) i e f = refl
next_last id (t ∷ u ∷ ts) zero e f = absurd (ground arith)
next_last id (t ∷ u ∷ ts) (suc i) e f =
    let (n, g) = index_after id t.id (ids (u ∷ ts)) i e in
    ground (arith, n, next_last id (u ∷ ts) i g (ground arith))

next_elem :
    (id : TorrentId) (ts : List TorrentSnapshot) (i : ℕ)
    → index_of dec_str id (ids ts) ≡ some i
    → ltb (i + 1) (length ts) ≡ true
    → (t : TorrentSnapshot) × (get_elem? ts (suc i) ≡ some t) × (t.id ≡ next_of id (ids ts))
unfolding next_of
next_elem id [] i e f = absurd (ground arith)
next_elem id (t ∷ []) i e f = absurd (ground arith)
next_elem id (t ∷ u ∷ ts) zero e f =
    let p = index_first id t.id (ids (u ∷ ts)) e in (u, refl, ground (arith, p))
next_elem id (t ∷ u ∷ ts) (suc i) e f =
    let (n, g) = index_after id t.id (ids (u ∷ ts)) i e in
    let (v, h, k) = next_elem id (u ∷ ts) i g (ground arith) in (v, h, ground (arith, n, k))

previous_none :
    (id : TorrentId) (xs : List TorrentId) → index_of dec_str id xs ≡ none → previous_of id xs ≡ id
unfolding previous_of
previous_none id [] e = refl
previous_none id (x ∷ []) e = refl
previous_none id (x ∷ y ∷ xs) e =
    let (n, f) = index_nowhere id x (y ∷ xs) e in
    let (m, g) = index_nowhere id y xs f in ground (arith, n, m, previous_none id (y ∷ xs) f)

previous_first :
    (id : TorrentId) (xs : List TorrentId)
    → index_of dec_str id xs ≡ some 0
    → previous_of id xs ≡ id
unfolding previous_of
previous_first id [] e = refl
previous_first id (x ∷ []) e = refl
previous_first id (x ∷ y ∷ xs) e = ground (arith, index_first id x (y ∷ xs) e)

previous_elem :
    (id : TorrentId) (ts : List TorrentSnapshot) (i : ℕ)
    → index_of dec_str id (ids ts) ≡ some (suc i)
    → (t : TorrentSnapshot) × (get_elem? ts i ≡ some t) × (t.id ≡ previous_of id (ids ts))
unfolding previous_of index_of
previous_elem id [] i e = absurd (ground arith)
previous_elem id (t ∷ []) i e =
    let (n, g) = index_after id t.id [] i e in absurd (ground (arith, g))
previous_elem id (t ∷ u ∷ ts) zero e =
    let (n, g) = index_after id t.id (ids (u ∷ ts)) 0 e in
    (t, refl, ground (arith, n, index_first id u.id (ids ts) g))
previous_elem id (t ∷ u ∷ ts) (suc i) e =
    let (n, g) = index_after id t.id (ids (u ∷ ts)) (suc i) e in
    let (m, k) = index_after id u.id (ids ts) i g in
    let (v, h, w) = previous_elem id (u ∷ ts) i g in (v, h, ground (arith, n, m, w))

stays : (m : View) (id : TorrentId) → id ≡ m.selected_id → m ≡ record m { selected_id = id }
stays m id e = ap (λ x. record m { selected_id = x }) (sym e)

selects :
    (m : View) (i : ℕ) (t : TorrentSnapshot) (id : TorrentId)
    → get_elem? m.torrents i ≡ some t
    → t.id ≡ id
    → select_at i m ≡ record m { selected_id = id }
selects m i t id e f = rw (e, select_at) (ap (λ x. record m { selected_id = x }) f)

select_next-next_of :
    (m : View) → select_next m ≡ record m { selected_id = next_of m.selected_id (ids m.torrents) }
unfolding select_next selected_index
select_next-next_of m = elim (Option-cases (index_of dec_str m.selected_id (ids m.torrents))) [
  | inl e ↦ rw (e, select_next) (stays m _ (next_none m.selected_id (ids m.torrents) e))
  | inr (i, e) ↦ elim (Bool-cases (ltb (i + 1) (length m.torrents))) [
    | inl f ↦
        let (t, g, h) = next_elem m.selected_id m.torrents i e f in
        let k : i + 1 ≡ suc i = omega arith in rw (e, f, k, select_next) (selects m (suc i) t _ g h)
    | inr f ↦ rw (e, f, select_next) (stays m _ (next_last m.selected_id m.torrents i e f))
  ]
]

select_previous-previous_of :
    (m : View)
    → select_previous m ≡ record m { selected_id = previous_of m.selected_id (ids m.torrents) }
unfolding select_previous selected_index
select_previous-previous_of m = found (index_of dec_str m.selected_id (ids m.torrents)) refl
  where
    found :
        (o : Option ℕ)
        → index_of dec_str m.selected_id (ids m.torrents) ≡ o
        → select_previous m ≡ record m { selected_id = previous_of m.selected_id (ids m.torrents) }
    found none e =
        rw (e, select_previous) (stays m _ (previous_none m.selected_id (ids m.torrents) e))
    found (some zero) e =
        rw (e, select_previous) (stays m _ (previous_first m.selected_id (ids m.torrents) e))
    found (some (suc i)) e =
        let (t, g, h) = previous_elem m.selected_id m.torrents i e in
        let b : ltb 0 (suc i) ≡ true = ground arith in
        let k : suc i - 1 ≡ i = omega arith in rw (e, b, k, select_previous) (selects m i t _ g h)

-- Selecting the previous torrent or the next selects the name before or after the one that was
-- selected, in the list of the names, or leaves it where there is none, and changes nothing else. No
-- index is out of range.
pub select_lem :
    (m : View)
    → (select_previous m ≡ record m { selected_id = previous_of m.selected_id (ids m.torrents) })
      × (select_next m ≡ record m { selected_id = next_of m.selected_id (ids m.torrents) })
select_lem m = (select_previous-previous_of m, select_next-next_of m)
