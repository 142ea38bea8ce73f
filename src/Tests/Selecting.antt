-- ===== src/Tests/Selecting.antt =====
-- The terminal interface and sequential mode.
use torrcli.Base.{
  ℕ, ◌≡◌, refl, ◌≤◌, arith, dec_str, Bool, true, false, none, some, List, [], ◌∷◌, ℕ_discrete,
  length, ok, ◌++◌, lookup, inl, ltb,
}
use torrcli.Sequential.{PiecePriority, PieceFile, no_priority, window, update_sequential}
use torrcli.Sequential.Window.{IsUnfinished, update_sequential-IsUnfinished, sequential_off}
use torrcli.Tui.{
  View, ids, removed, focus_torrents, dialog_none, no_notice, handle_action_result, select_previous,
  select_next,
}
use torrcli.Tui.Form.{empty_form, space}
use torrcli.Tui.Adding.{System}
use torrcli.Tui.Updating.{update_key}
use torrcli.Tui.Guarded.{Guarded}
use torrcli.Tui.Guarded.Keys.{update_key-Guarded}
use torrcli.Tui.Selection.{IsSelected, handle_action_result-IsSelected}
use torrcli.Tui.Moving.{next_of, previous_of, select_lem}
use torrcli.Tests.{snapshot_of}

abbrev view_ab : View
view_ab = record {
  panicked = false;
  width = 80;
  height = 24;
  torrents = snapshot_of "a" ∷ snapshot_of "b" ∷ [];
  selected_id = "b";
  load_error = none;
  loading = false;
  pending = true;
  notice = no_notice;
  notice_err = false;
  notice_id = 0;
  dialog = dialog_none;
  form = empty_form;
  action_index = 0;
  remove_cancel = false;
  remove_delete_data = false;
  remove_option = false;
  details = record {
    torrent = snapshot_of "b";
    info = record {
      save_path = "";
      total_size = 0;
      piece_length = 0;
      piece_count = 0;
      info_hash_v1 = "";
      info_hash_v2 = "";
      created_by = "";
      comment = "";
    };
    files = [];
  };
  show_details = false;
  details_loading = false;
  details_tab = 0;
  details_err = none;
  focus = focus_torrents;
  selected_file = 0;
}

view_ab-IsSelected : IsSelected view_ab
unfolding dec_str
view_ab-IsSelected = inl (omega arith)

handle_action_result-IsSelected_example : IsSelected (handle_action_result (removed "b") view_ab)
handle_action_result-IsSelected_example =
    handle_action_result-IsSelected (removed "b") view_ab view_ab-IsSelected

select_lem_example :
    (select_previous view_ab
      ≡ record view_ab { selected_id = previous_of "b" (ids view_ab.torrents) })
    × (select_next view_ab ≡ record view_ab { selected_id = next_of "b" (ids view_ab.torrents) })
select_lem_example = select_lem view_ab

-- The name before "b" is "a".
before_b : previous_of "b" (ids view_ab.torrents) ≡ "a"
unfolding previous_of dec_str
before_b = refl

abbrev first_done : ℕ → Bool
first_done i = ltb i 1

abbrev files : List PieceFile
files =
    record { wanted = true; first = 0; end = 5 }
    ∷ record { wanted = false; first = 5; end = 9 }
    ∷ []

update_sequential-IsUnfinished_example :
    let next = (update_sequential first_done true (some 4194304) files [] (λ i. no_priority)).0 in
    IsUnfinished first_done next × (length next ≤ window 4194304)
update_sequential-IsUnfinished_example =
    update_sequential-IsUnfinished first_done true 4194304 files [] (λ i. no_priority)

sequential_off_example :
    let on = update_sequential first_done true (some 4194304) files [] (λ i. no_priority) in
    let off = update_sequential first_done false (some 4194304) files on.0 on.1 in
    (off.0 ≡ [])
    × ((lookup ℕ_discrete 0 on.0 ≡ none → off.1 0 ≡ no_priority)
        × ((p : PiecePriority) → lookup ℕ_discrete 0 on.0 ≡ some p → off.1 0 ≡ no_priority))
sequential_off_example = sequential_off first_done 4194304 4194304 files files (λ i. no_priority) 0

-- "/h" is the home directory, and every path is one from the root.
abbrev root_system : System
root_system = record {
  home = ok (47 ∷ 104 ∷ []);
  join = λ directory path. directory ++ 47 ∷ path;
  abs = λ path. ok path;
  describe = λ e. "error";
}

abbrev view_idle : View
view_idle = record view_ab { pending = false }

update_key-Guarded_example : Guarded false (update_key root_system space view_idle)
update_key-Guarded_example = update_key-Guarded root_system space view_idle
