-- ===== src/Tui/Guarded/Dialogs.antt =====
-- internal/tui/actions.go: updateDialog, for `pending`, in the menu and in the dialog that asks before
-- removing.
use torrcli.Base.{true, ◌≡◌, refl, Option, none, some, [], ◌∷◌, get_elem?, if◌then◌else◌}
use torrcli.Base.Text.{ite_cases, if_cases}
use torrcli.Tui.{View, dialog_none}
use torrcli.Tui.Form.{dec_text, Key, ctrl_c, esc, enter, tab, shift_tab, space, runes}
use torrcli.Tui.Actions.{
  no_cmd, Action, action_toggle, action_sequential, action_verify, action_find_peers, action_remove,
  torrent_actions, action_enabled, run_action, remove_key, actions_key, enter_actions, enter_remove,
  update_remove, update_actions,
}
use torrcli.Tui.Guarded.{
  Guarded, starts, quiet, kept-Guarded, if-pending, toggle_selected-Guarded,
  toggle_sequential-Guarded, verify_selected-Guarded, find_peers_selected-Guarded,
  remove_selected-Guarded,
}

enter_actions-Guarded : (m : View) → Guarded m.pending (enter_actions m)
unfolding enter_actions starts
enter_actions-Guarded m = at (get_elem? torrent_actions m.action_index)
  where
    closed : View
    closed = record m { dialog = dialog_none }

    run : (action : Action) → Guarded m.pending (run_action action closed)
    run action_toggle = toggle_selected-Guarded closed
    run action_sequential = toggle_sequential-Guarded closed
    run action_verify = verify_selected-Guarded closed
    run action_find_peers = find_peers_selected-Guarded closed
    run action_remove = quiet m.pending _ refl refl

    at :
        (found : Option Action)
        → Guarded m.pending (elim found [
          | none ↦ (record m { panicked = true }, no_cmd)
          | some action ↦
              if action_enabled action m
              then run_action action (record m { dialog = dialog_none })
              else (m, no_cmd)
        ])
    at none = quiet m.pending _ refl refl
    at (some action) =
        if_cases (Guarded m.pending) (action_enabled action m) (λ _. run action)
          (λ _. quiet m.pending _ refl refl)

enter_remove-Guarded : (m : View) → Guarded m.pending (enter_remove m)
unfolding enter_remove starts
enter_remove-Guarded m =
    if_cases (Guarded m.pending) m.remove_option (λ _. quiet m.pending _ refl refl)
      (λ _.
        if_cases (Guarded m.pending) m.remove_cancel (λ _. quiet m.pending _ refl refl)
          (λ _. remove_selected-Guarded (record m { dialog = dialog_none })))

remove_key-pending : (key : Key) (m : View) → (remove_key key m).pending ≡ m.pending
unfolding remove_key
remove_key-pending space m = if-pending m.remove_option m _ _ refl refl
remove_key-pending tab m =
    if-pending m.remove_option m _ _ refl (if-pending m.remove_cancel m _ _ refl refl)
remove_key-pending shift_tab m =
    if-pending m.remove_option m _ _ refl (if-pending m.remove_cancel m _ _ refl refl)
remove_key-pending key m = refl

actions_key-pending : (key : Key) (m : View) → (actions_key key m).pending ≡ m.pending
unfolding actions_key
actions_key-pending (runes typed) m =
    ite_cases (λ (v : View). v.pending ≡ m.pending) (dec_text typed (107 ∷ [])) (λ _. refl)
      (λ _.
        ite_cases (λ (v : View). v.pending ≡ m.pending) (dec_text typed (106 ∷ [])) (λ _. refl)
          (λ _. refl))
actions_key-pending key m = refl

pub update_remove-Guarded : (key : Key) (m : View) → Guarded m.pending (update_remove key m)
unfolding update_remove
update_remove-Guarded enter m = enter_remove-Guarded m
update_remove-Guarded esc m = kept-Guarded m _ refl
update_remove-Guarded ctrl_c m = kept-Guarded m _ refl
update_remove-Guarded key m = kept-Guarded m _ (remove_key-pending key m)

pub update_actions-Guarded : (key : Key) (m : View) → Guarded m.pending (update_actions key m)
unfolding update_actions
update_actions-Guarded enter m = enter_actions-Guarded m
update_actions-Guarded esc m = kept-Guarded m _ refl
update_actions-Guarded ctrl_c m = kept-Guarded m _ refl
update_actions-Guarded key m = kept-Guarded m _ (actions_key-pending key m)
