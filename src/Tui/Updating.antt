-- ===== src/Tui/Updating.antt =====
-- internal/tui/update.go: what Update does on a key. A method that changes the model is taken to run
-- before the model is returned beside its command. A text that spells the name of another key and
-- comes as one key is left out.
use torrcli.Base.{
  ℕ, negsuc, pos, ◌+◌, ◌%◌, Bool, true, false, none, some, List, [], ◌∷◌, ite, ℕ_discrete,
  if◌then◌else◌,
}
use torrcli.Tui.{
  View, focus_torrents, focus_details, dialog_none, dialog_add, dialog_remove, dialog_actions,
  selected_index, select_previous, select_next, select_previous_file, select_next_file,
}
use torrcli.Tui.Form.{
  dec_text, empty_form, Key, ctrl_c, enter, up, down, left, right, tab, shift_up, shift_down,
  delete_key, space, runes,
}
use torrcli.Tui.Actions.{
  Cmd, no_cmd, quit, load_defaults, move_selected, set_selected_file_priority, toggle_selected,
  load_details_selected, open_remove, update_remove, update_actions,
}
use torrcli.Tui.Adding.{System, update_add_dialog}

-- The names of keys that Update looks for, of those that are one rune or an arrow.
abbrev pub named : Key → Key
named (runes typed) =
    ite (dec_text typed (107 ∷ [])) up
      (ite (dec_text typed (106 ∷ [])) down (ite (dec_text typed (32 ∷ [])) space (runes typed)))
named key = key

-- "h" and "l" too.
abbrev pub sideways : Key → Key
sideways (runes typed) =
    ite (dec_text typed (104 ∷ [])) left (ite (dec_text typed (108 ∷ [])) right (runes typed))
sideways key = key

abbrev pub has_selected : View → Bool
has_selected m = elim (selected_index m) [ none ↦ false | some i ↦ true ]

unfoldable pub switch_focus : View → View
unfolding selected_index
switch_focus m = elim m.focus [
  | focus_details ↦ record m { focus = focus_torrents }
  | focus_torrents ↦
      if has_selected m
      then record m { focus = focus_details }
      else record m { focus = focus_torrents }
]

-- What only the tab of the files does.
abbrev in_files : View → (View × Cmd) → View × Cmd
in_files m done = ite (ℕ_discrete m.details_tab 1) done (m, no_cmd)

unfoldable pub details_key : Key → View → View × Cmd
unfolding select_previous_file select_next_file set_selected_file_priority
details_key left m = (record m { details_tab = (m.details_tab + 1) % 2 }, no_cmd)
details_key right m = (record m { details_tab = (m.details_tab + 1) % 2 }, no_cmd)
details_key up m = in_files m (select_previous_file m, no_cmd)
details_key down m = in_files m (select_next_file m, no_cmd)
details_key space m = in_files m (set_selected_file_priority m)
details_key _ m = (m, no_cmd)

-- `m.selectedIndex() >= 0 && !m.pending`.
abbrev pub if_idle : View → View → View
if_idle m opened = if m.pending then m else (if has_selected m then opened else m)

abbrev pub typed_key : List ℕ → View → View × Cmd
typed_key typed m =
    ite (dec_text typed (113 ∷ [])) (m, quit)
      (ite (dec_text typed (97 ∷ []))
        (if m.pending
          then (m, no_cmd)
          else (record m { form = empty_form; dialog = dialog_add }, load_defaults))
        (m, no_cmd))

unfoldable pub list_key : Key → View → View × Cmd
unfolding selected_index select_previous select_next load_details_selected toggle_selected
    move_selected
list_key up m = load_details_selected (select_previous m)
list_key down m = load_details_selected (select_next m)
list_key space m = toggle_selected m
list_key enter m = (if_idle m (record m { dialog = dialog_actions; action_index = 0 }), no_cmd)
list_key delete_key m = (if_idle m (open_remove m), no_cmd)
list_key shift_up m = move_selected (negsuc 0) m
list_key shift_down m = move_selected (pos 1) m
list_key (runes typed) m = typed_key typed m
list_key _ m = (m, no_cmd)

abbrev pub focused_key : Key → View → View × Cmd
focused_key ctrl_c m = (m, quit)
focused_key tab m = (switch_focus m, no_cmd)
focused_key key m = elim m.focus [
  | focus_details ↦ details_key (sideways (named key)) m
  | focus_torrents ↦ list_key (named key) m
]

-- The case of `tea.KeyMsg`.
unfoldable pub update_key : System → Key → View → View × Cmd
unfolding update_add_dialog update_remove update_actions switch_focus details_key list_key
update_key system key m = elim m.dialog [
  | dialog_add ↦ update_add_dialog system key m
  | dialog_remove ↦ update_remove key m
  | dialog_actions ↦ update_actions key m
  | dialog_none ↦ focused_key key m
]
