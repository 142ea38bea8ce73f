-- ===== src/Tui/Guarded/Keys.antt =====
-- internal/tui: what a key does to `pending`, in any place.
use torrcli.Base.{
  true, ◌≡◌, refl, ℕ, ◌+◌, ◌-◌, Option, none, some, List, [], ◌∷◌, ite, get_elem?, ltb, length,
  ℕ_discrete, if◌then◌else◌,
}
use torrcli.Base.Text.{ite_cases}
use torrcli.Model.{TorrentSnapshot}
use torrcli.Tui.{
  View, Focus, focus_torrents, focus_details, Dialog, dialog_none, dialog_add, dialog_remove,
  dialog_actions, select_previous, select_next, select_previous_file, select_next_file,
  selected_index, select_at,
}
use torrcli.Tui.Form.{
  dec_text, Key, ctrl_c, enter, up, down, left, right, tab, shift_up, shift_down, delete_key, space,
  runes,
}
use torrcli.Tui.Actions.{Cmd, no_cmd, update_remove, update_actions}
use torrcli.Tui.Adding.{System, update_add_dialog}
use torrcli.Tui.Updating.{
  named, sideways, details_key, list_key, switch_focus, update_key, focused_key, has_selected,
  typed_key, if_idle,
}
use torrcli.Tui.Guarded.Dialogs.{update_remove-Guarded, update_actions-Guarded}
use torrcli.Tui.Guarded.Form.{update_add_dialog-Guarded}
use torrcli.Tui.Guarded.{
  Guarded, starts, quiet, kept-Guarded, if-pending, unless_busy-Guarded, move_selected-Guarded,
  toggle_selected-Guarded, set_selected_file_priority-Guarded, load_details_selected-Guarded,
}

abbrev Unmoved : View → View → Type 0
Unmoved m m' = m'.pending ≡ m.pending

select_at-pending : (i : ℕ) (m : View) → (select_at i m).pending ≡ m.pending
select_at-pending i m = at (get_elem? m.torrents i)
  where
    at :
        (found : Option TorrentSnapshot)
        → Unmoved m (elim found [
          | none ↦ record m { panicked = true }
          | some t ↦ record m { selected_id = t.id }
        ])
    at none = refl
    at (some t) = refl

select_previous-pending : (m : View) → (select_previous m).pending ≡ m.pending
unfolding select_previous
select_previous-pending m = at (selected_index m)
  where
    at :
        (found : Option ℕ)
        → Unmoved m (elim found [ none ↦ m | some i ↦ if ltb 0 i then select_at (i - 1) m else m ])
    at none = refl
    at (some i) = if-pending (ltb 0 i) m _ _ (select_at-pending (i - 1) m) refl

select_next-pending : (m : View) → (select_next m).pending ≡ m.pending
unfolding select_next
select_next-pending m = at (selected_index m)
  where
    at :
        (found : Option ℕ)
        → Unmoved m (elim found [
          | none ↦ m
          | some i ↦ if ltb (i + 1) (length m.torrents) then select_at (i + 1) m else m
        ])
    at none = refl
    at (some i) =
        if-pending (ltb (i + 1) (length m.torrents)) m _ _ (select_at-pending (i + 1) m) refl

if_idle-pending :
    (m opened : View) → opened.pending ≡ m.pending → (if_idle m opened).pending ≡ m.pending
if_idle-pending m opened same =
    if-pending m.pending m _ _ refl (if-pending (has_selected m) m _ _ same refl)

switch_focus-pending : (m : View) → (switch_focus m).pending ≡ m.pending
unfolding switch_focus
switch_focus-pending m = at m.focus
  where
    at :
        (focus : Focus)
        → Unmoved m (elim focus [
          | focus_details ↦ record m { focus = focus_torrents }
          | focus_torrents ↦
              if has_selected m
              then record m { focus = focus_details }
              else record m { focus = focus_torrents }
        ])
    at focus_details = refl
    at focus_torrents = if-pending (has_selected m) m _ _ refl refl

in_files-Guarded :
    (m : View) (r : View × Cmd)
    → Guarded m.pending r
    → Guarded m.pending (ite (ℕ_discrete m.details_tab 1) r (m, no_cmd))
in_files-Guarded m r fine =
    ite_cases (Guarded m.pending) (ℕ_discrete m.details_tab 1) (λ _. fine)
      (λ _. kept-Guarded m m refl)

details_key-Guarded : (key : Key) (m : View) → Guarded m.pending (details_key key m)
unfolding details_key select_previous_file select_next_file
details_key-Guarded left m = kept-Guarded m _ refl
details_key-Guarded right m = kept-Guarded m _ refl
details_key-Guarded up m = in_files-Guarded m _ (kept-Guarded m _ refl)
details_key-Guarded down m = in_files-Guarded m _ (
    kept-Guarded m _
      (if-pending (ltb (m.selected_file + 1) (length m.details.files)) m _ _ refl refl))
details_key-Guarded space m = in_files-Guarded m _ (set_selected_file_priority-Guarded m)
details_key-Guarded key m = kept-Guarded m _ refl

typed_key-Guarded : (typed : List ℕ) (m : View) → Guarded m.pending (typed_key typed m)
unfolding starts
typed_key-Guarded typed m =
    ite_cases (Guarded m.pending) (dec_text typed (113 ∷ [])) (λ _. quiet m.pending _ refl refl)
      (λ _.
        ite_cases (Guarded m.pending) (dec_text typed (97 ∷ []))
          (λ _. unless_busy-Guarded m _ (λ _. quiet m.pending _ refl refl))
          (λ _. quiet m.pending _ refl refl))

list_key-Guarded : (key : Key) (m : View) → Guarded m.pending (list_key key m)
unfolding list_key
list_key-Guarded up m =
    load_details_selected-Guarded m.pending (select_previous m) (select_previous-pending m)
list_key-Guarded down m =
    load_details_selected-Guarded m.pending (select_next m) (select_next-pending m)
list_key-Guarded space m = toggle_selected-Guarded m
list_key-Guarded enter m = kept-Guarded m _ (if_idle-pending m _ refl)
list_key-Guarded delete_key m = kept-Guarded m _ (if_idle-pending m _ refl)
list_key-Guarded shift_up m = move_selected-Guarded _ m
list_key-Guarded shift_down m = move_selected-Guarded _ m
list_key-Guarded (runes typed) m = typed_key-Guarded typed m
list_key-Guarded key m = kept-Guarded m _ refl

focused_key-Guarded : (key : Key) (m : View) → Guarded m.pending (focused_key key m)
unfolding starts
focused_key-Guarded ctrl_c m = quiet m.pending _ refl refl
focused_key-Guarded tab m = kept-Guarded m _ (switch_focus-pending m)
focused_key-Guarded key m = at m.focus
  where
    at :
        (focus : Focus)
        → Guarded m.pending (elim focus [
          | focus_details ↦ details_key (sideways (named key)) m
          | focus_torrents ↦ list_key (named key) m
        ])
    at focus_details = details_key-Guarded (sideways (named key)) m
    at focus_torrents = list_key-Guarded (named key) m

-- Whatever key comes, whichever dialog is open: after it `pending` is set just if it was before or the
-- key started a call of the daemon that changes something, and with `pending` set before it no key
-- starts one.
pub update_key-Guarded :
    (system : System) (key : Key) (m : View) → Guarded m.pending (update_key system key m)
unfolding update_key
update_key-Guarded system key m = at m.dialog
  where
    at :
        (dialog : Dialog)
        → Guarded m.pending (elim dialog [
          | dialog_add ↦ update_add_dialog system key m
          | dialog_remove ↦ update_remove key m
          | dialog_actions ↦ update_actions key m
          | dialog_none ↦ focused_key key m
        ])
    at dialog_add = update_add_dialog-Guarded system key m
    at dialog_remove = update_remove-Guarded key m
    at dialog_actions = update_actions-Guarded key m
    at dialog_none = focused_key-Guarded key m
