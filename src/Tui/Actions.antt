-- ===== src/Tui/Actions.antt =====
-- internal/tui/actions.go: the actions on the selected torrent, each of which starts a call of the
-- daemon, and the dialogs that lead to them.
use torrcli.Base.{
  ℕ, ◌+◌, ◌-◌, ℤ, Bool, true, false, not, Option, none, some, List, [], ◌∷◌, ite, dec_str,
  get_elem?, min, dec_list, if◌then◌else◌,
}
use torrcli.Model.{TorrentId, TorrentSnapshot, FilePriority}
use torrcli.Model.States
use torrcli.Tui.{View, Notice, doing, dialog_none, dialog_remove, selected_index, next_priority}
use torrcli.Tui.Form.{
  Text, dec_text, Key, ctrl_c, esc, enter, up, down, left, right, tab, shift_tab, space, runes,
}

-- What a `tea.Cmd` that changes something asks of the daemon; its answer comes as a message.
pub data Call : Type 0 where
  request_verify request_peers request_pause request_resume : TorrentId → Call
  request_move : TorrentId → ℤ → Call
  request_priority : TorrentId → ℕ → FilePriority → Call
  request_sequential : TorrentId → Bool → Call
  request_remove : TorrentId → Bool → Call
  request_add : Text → Text → Bool → Bool → Call

-- `tea.Cmd`: nothing, a call that changes something, or what only looks something up or ends the
-- program.
pub data Cmd : Type 0 where
  no_cmd quit load_defaults load_torrents : Cmd
  load_details : TorrentId → Cmd
  preview_source : Text → Cmd
  request : Call → Cmd

-- The torrent that is selected.
unfoldable pub selected : View → Option TorrentSnapshot
unfolding selected_index
selected m = elim (selected_index m) [ none ↦ none | some i ↦ get_elem? m.torrents i ]

-- `m.pending = true`, and a notice of what is being done.
abbrev pub waiting : Notice → View → View
waiting notice m = record m { pending = true; notice = notice; notice_err = false }

-- `if m.pending || m.selectedID == ""`.
abbrev pub unless_busy : View → (View × Cmd) → View × Cmd
unless_busy m started =
    if m.pending then (m, no_cmd) else ite (dec_str m.selected_id "") (m, no_cmd) started

unfoldable pub verify_selected : View → View × Cmd
verify_selected m =
    unless_busy m
      (waiting (doing "Checking torrent data…" "") m, request (request_verify m.selected_id))

unfoldable pub find_peers_selected : View → View × Cmd
find_peers_selected m =
    unless_busy m (waiting (doing "Looking for peers…" "") m, request (request_peers m.selected_id))

unfoldable pub move_selected : ℤ → View → View × Cmd
move_selected offset m =
    unless_busy m (record m { pending = true }, request (request_move m.selected_id offset))

-- `m.pending || index < 0`.
abbrev pub with_selected : View → (TorrentSnapshot → View × Cmd) → View × Cmd
with_selected m start =
    if m.pending then (m, no_cmd) else (elim (selected m) [ none ↦ (m, no_cmd) | some t ↦ start t ])

unfoldable pub set_selected_file_priority : View → View × Cmd
unfolding next_priority
set_selected_file_priority m =
    if m.pending then (m, no_cmd) else (elim (get_elem? m.details.files m.selected_file) [
      | none ↦ (m, no_cmd)
      | some file ↦ (
        waiting (doing "Updating" file.path) m,
        request (request_priority m.details.torrent.id file.index (next_priority file.priority)),
      )
    ])

unfoldable pub toggle_selected : View → View × Cmd
unfolding selected
toggle_selected m = with_selected m λ t.
    ite (dec_str t.state States.paused)
      (waiting (doing "Resuming" t.name) m, request (request_resume t.id))
      (waiting (doing "Pausing" t.name) m, request (request_pause t.id))

unfoldable pub toggle_sequential : View → View × Cmd
unfolding selected
toggle_sequential m =
    with_selected m
      λ t. (record m { pending = true }, request (request_sequential t.id (not t.sequential)))

unfoldable pub remove_selected : View → View × Cmd
unfolding selected
remove_selected m =
    with_selected m
      λ t. (waiting (doing "Removing" t.name) m, request (request_remove t.id m.remove_delete_data))

-- What only looks something up needs no guard.
unfoldable pub load_details_selected : View → View × Cmd
unfolding selected
load_details_selected m = elim (selected m) [
  | none ↦ (m, no_cmd)
  | some t ↦ (record m { details_loading = true }, load_details t.id)
]

-- The entries of the menu, by their index.
pub data Action : Type 0 where
  action_toggle action_verify action_find_peers action_sequential action_remove : Action

abbrev pub torrent_actions : List Action
torrent_actions =
    action_toggle ∷ action_verify ∷ action_find_peers ∷ action_sequential ∷ action_remove ∷ []

unfoldable pub action_enabled : Action → View → Bool
unfolding selected
action_enabled action_find_peers m = elim (selected m) [
  | none ↦ false
  | some t ↦ ite (dec_str t.state States.fetching_metadata) false true
]
action_enabled action m = true

abbrev pub open_remove : View → View
open_remove m = record m {
  dialog = dialog_remove;
  remove_cancel = false;
  remove_delete_data = false;
  remove_option = false;
}

abbrev pub run_action : Action → View → View × Cmd
run_action action_toggle m = toggle_selected m
run_action action_sequential m = toggle_sequential m
run_action action_verify m = verify_selected m
run_action action_find_peers m = find_peers_selected m
run_action action_remove m = (open_remove m, no_cmd)

unfoldable pub enter_actions : View → View × Cmd
unfolding action_enabled toggle_selected toggle_sequential verify_selected find_peers_selected
enter_actions m = elim (get_elem? torrent_actions m.action_index) [
  | none ↦ (record m { panicked = true }, no_cmd)
  | some action ↦
      if action_enabled action m
      then run_action action (record m { dialog = dialog_none })
      else (m, no_cmd)
]

unfoldable pub enter_remove : View → View × Cmd
unfolding remove_selected
enter_remove m =
    if m.remove_option
    then (record m { remove_delete_data = not m.remove_delete_data }, no_cmd)
    else (if m.remove_cancel
        then (record m { dialog = dialog_none }, no_cmd)
        else remove_selected (record m { dialog = dialog_none }))

abbrev next_button : View → View
next_button m =
    if m.remove_option
    then record m { remove_option = false; remove_cancel = false }
    else (if m.remove_cancel
        then record m { remove_option = true }
        else record m { remove_cancel = true })

-- The keys of the dialog that asks before removing, but Enter, Escape and Ctrl+C.
unfoldable pub remove_key : Key → View → View
remove_key left m = record m { remove_option = false; remove_cancel = not m.remove_cancel }
remove_key right m = record m { remove_option = false; remove_cancel = not m.remove_cancel }
remove_key up m = record m { remove_option = not m.remove_option }
remove_key down m = record m { remove_option = not m.remove_option }
remove_key space m =
    if m.remove_option then record m { remove_delete_data = not m.remove_delete_data } else m
remove_key tab m = next_button m
remove_key shift_tab m = next_button m
remove_key _ m = m

-- The keys of the menu, `k` and `j` among them.
unfoldable pub actions_key : Key → View → View
unfolding dec_list
actions_key up m = record m { action_index = m.action_index - 1 }
actions_key down m = record m { action_index = min 4 (m.action_index + 1) }
actions_key (runes typed) m =
    ite (dec_text typed (107 ∷ [])) (record m { action_index = m.action_index - 1 })
      (ite (dec_text typed (106 ∷ [])) (record m { action_index = min 4 (m.action_index + 1) }) m)
actions_key _ m = m

abbrev close_dialog : View → View
close_dialog m = record m { dialog = dialog_none; form = record m.form { source = [] } }

-- updateDialog for the two dialogs that are not the form.
unfoldable pub update_remove : Key → View → View × Cmd
unfolding enter_remove remove_key
update_remove esc m = (close_dialog m, no_cmd)
update_remove ctrl_c m = (close_dialog m, no_cmd)
update_remove enter m = enter_remove m
update_remove key m = (remove_key key m, no_cmd)

unfoldable pub update_actions : Key → View → View × Cmd
unfolding enter_actions actions_key
update_actions esc m = (close_dialog m, no_cmd)
update_actions ctrl_c m = (close_dialog m, no_cmd)
update_actions enter m = enter_actions m
update_actions key m = (actions_key key m, no_cmd)
