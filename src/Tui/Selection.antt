-- ===== src/Tui/Selection.antt =====
-- internal/tui: the selected torrent against the list.
use torrcli.Base.{
  ℕ, zero, suc, ◌<◌, ◌≡◌, ◌⊎◌, inl, inr, refl, arith, false, some, List, [], ◌∷◌, dec_str, hit_self,
  count, index_of, index_of-count, String, get_elem?, Option-cases,
}
use torrcli.Model.{TorrentId, TorrentSnapshot}
use torrcli.Tui.{
  View, Outcome, failed, paused, resumed, sequential, verified, add, peers_found, removed, ids,
  dialog_none, first_selected, add_failed, selected_index, ensure_selection, replaced,
  without_first, replace_torrent, upsert_torrent, remove_torrent, set_notice, handle_action_result,
}

-- The selection is a torrent of the list, or there is none to select.
abbrev pub IsSelected : View → Type 0
IsSelected m =
    (0 < count dec_str m.selected_id (ids m.torrents)) ⊎ ((m.torrents ≡ []) × (m.selected_id ≡ ""))

ids-replaced : (u : TorrentSnapshot) (ts : List TorrentSnapshot) → ids (replaced u ts) ≡ ids ts
unfolding replaced
ids-replaced u [] = refl
ids-replaced u (t ∷ ts) = ground (arith, ids-replaced u ts)

count-get_elem? :
    (ts : List TorrentSnapshot) (i : ℕ) (t : TorrentSnapshot)
    → get_elem? ts i ≡ some t
    → 0 < count dec_str t.id (ids ts)
count-get_elem? [] i t e = absurd (ground arith)
count-get_elem? (u ∷ ts) zero t e = ground (arith, hit_self dec_str t.id)
count-get_elem? (u ∷ ts) (suc i) t e = ground (arith, count-get_elem? ts i t)

first_selected-IsSelected :
    (ts : List TorrentSnapshot) (m : View) → m.torrents ≡ ts → IsSelected (first_selected ts m)
unfolding selected_index
first_selected-IsSelected [] m e = inr (e, refl)
first_selected-IsSelected (t ∷ ts) m e = elim (Option-cases (selected_index m)) [
  | inl f ↦ inl (ground (arith, hit_self dec_str t.id))
  | inr (i, f) ↦ inl (ground (arith, index_of-count dec_str m.selected_id (ids m.torrents) i f))
]

-- Whatever was selected, afterwards it is a torrent of the list, if there is any.
pub ensure_selection-IsSelected : (m : View) → IsSelected (ensure_selection m)
unfolding ensure_selection
ensure_selection-IsSelected m = first_selected-IsSelected m.torrents m refl

replace_torrent-IsSelected :
    (u : TorrentSnapshot) (m : View) → IsSelected m → IsSelected (replace_torrent u m)
unfolding replace_torrent replaced
replace_torrent-IsSelected u m (inl h) = inl (rw ids-replaced h)
replace_torrent-IsSelected u m (inr (e, f)) = inr (rw e refl, f)

remove_torrent-IsSelected :
    (id : TorrentId) (m : View) → IsSelected m → IsSelected (remove_torrent id m)
unfolding remove_torrent
remove_torrent-IsSelected id m h = elim (Option-cases (index_of dec_str id (ids m.torrents))) [
  | inl e ↦ rw (e, remove_torrent) h
  | inr (i, e) ↦
      rw (e, remove_torrent)
        (ensure_selection-IsSelected (record m { torrents = without_first id m.torrents }))
]

add_failed-IsSelected :
    (action e : String) (m : View) → IsSelected m → IsSelected (add_failed action e m)
add_failed-IsSelected action e m h = ground arith

-- The result of any action, a failure too, leaves a torrent of the list selected, or none if the
-- list is empty, if that was so before.
pub handle_action_result-IsSelected :
    (outcome : Outcome) (m : View) → IsSelected m → IsSelected (handle_action_result outcome m)
unfolding handle_action_result set_notice
handle_action_result-IsSelected (failed action e) m h =
    add_failed-IsSelected action e (record m { pending = false }) h
handle_action_result-IsSelected (paused t) m h =
    replace_torrent-IsSelected t (record m { pending = false }) h
handle_action_result-IsSelected (resumed t) m h =
    replace_torrent-IsSelected t (record m { pending = false }) h
handle_action_result-IsSelected (sequential t) m h =
    replace_torrent-IsSelected t (record m { pending = false }) h
handle_action_result-IsSelected (verified t) m h =
    replace_torrent-IsSelected t (record m { pending = false }) h
handle_action_result-IsSelected peers_found m h = h
handle_action_result-IsSelected (add t) m h = ensure_selection-IsSelected (
    upsert_torrent t
      (record m { pending = false; dialog = dialog_none; form = record m.form { source = [] } }))
handle_action_result-IsSelected (removed id) m h =
    remove_torrent-IsSelected id (record m { pending = false }) h
