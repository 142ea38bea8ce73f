-- ===== src/Tui/Guarded/Form.antt =====
-- internal/tui/add.go: updateAddDialog, for `pending`.
use torrcli.Base.{◌≡◌, refl, false, [], ◌∷◌, Result, ok, err}
use torrcli.Base.Text.{if_cases}
use torrcli.Tui.{View}
use torrcli.Tui.Form.{
  Text, Field, add_source, add_path, add_sequential, add_paused, add_submit, trim_space, Key,
  ctrl_c, esc, enter, up, down, tab, shift_tab,
}
use torrcli.Tui.Adding.{
  System, local_path, submit_path, submit_source, enter_field, leave_field, clear_field, idle_key,
  update_add_dialog, stop, start_add, has_lower_prefix, is_empty, magnet,
}
use torrcli.Tui.Guarded.{
  Guarded, starts, quiet, started, kept-Guarded, if-pending, unless_busy-Guarded,
}

submit_path-Guarded :
    (system : System) (source path : Text) (m : View)
    → m.pending ≡ false
    → Guarded m.pending (submit_path system source path m)
unfolding submit_path starts
submit_path-Guarded system source [] m idle = started m.pending _ idle refl refl
submit_path-Guarded system source (r ∷ rs) m idle = at (local_path system (r ∷ rs))
  where
    at :
        (found : Result Text)
        → Guarded m.pending
            (elim found [ err e ↦ stop system e m | ok path ↦ start_add system source path m ])
    at (err e) = quiet m.pending _ refl refl
    at (ok path) = started m.pending _ idle refl refl

submit_source-Guarded :
    (system : System) (source : Text) (m : View)
    → m.pending ≡ false
    → Guarded m.pending (submit_source system source m)
unfolding submit_source starts
submit_source-Guarded system [] m idle = quiet m.pending _ refl refl
submit_source-Guarded system (r ∷ rs) m idle =
    if_cases (Guarded m.pending) (has_lower_prefix magnet (r ∷ rs))
      (λ _. submit_path-Guarded system (r ∷ rs) (trim_space m.form.path) m idle)
      (λ _. at (local_path system (r ∷ rs)))
  where
    at :
        (found : Result Text)
        → Guarded m.pending (elim found [
          | err e ↦ stop system e m
          | ok path ↦ submit_path system path (trim_space m.form.path) m
        ])
    at (err e) = quiet m.pending _ refl refl
    at (ok path) = submit_path-Guarded system path (trim_space m.form.path) m idle

enter_field-Guarded :
    (system : System) (field : Field) (m : View)
    → m.pending ≡ false
    → Guarded m.pending (enter_field system field m)
unfolding starts
enter_field-Guarded system add_source m idle = quiet m.pending _ refl refl
enter_field-Guarded system add_path m idle = quiet m.pending _ refl refl
enter_field-Guarded system add_sequential m idle = quiet m.pending _ refl refl
enter_field-Guarded system add_paused m idle = quiet m.pending _ refl refl
enter_field-Guarded system add_submit m idle =
    if_cases (Guarded m.pending) m.form.cancel (λ _. quiet m.pending _ refl refl)
      (λ _. submit_source-Guarded system (trim_space m.form.source) m idle)

leave_field-Guarded :
    (system : System) (field next : Field) (m : View)
    → Guarded m.pending (leave_field system field next m)
unfolding starts
leave_field-Guarded system add_source next m = quiet m.pending _ refl refl
leave_field-Guarded system field next m = quiet m.pending _ refl refl

idle_key-Guarded :
    (system : System) (key : Key) (m : View)
    → m.pending ≡ false
    → Guarded m.pending (idle_key system key m)
unfolding idle_key
idle_key-Guarded system up m idle = leave_field-Guarded system m.form.field _ m
idle_key-Guarded system shift_tab m idle = leave_field-Guarded system m.form.field _ m
idle_key-Guarded system down m idle = leave_field-Guarded system m.form.field _ m
idle_key-Guarded system tab m idle = leave_field-Guarded system m.form.field _ m
idle_key-Guarded system enter m idle = enter_field-Guarded system m.form.field m idle
idle_key-Guarded system esc m idle = kept-Guarded m _ refl
idle_key-Guarded system key m idle = kept-Guarded m _ refl

clear_field-pending :
    (system : System) (field : Field) (m : View) → (clear_field system field m).pending ≡ m.pending
clear_field-pending system add_source m = if-pending (is_empty m.form.source) m _ _ refl refl
clear_field-pending system add_path m = if-pending (is_empty m.form.path) m _ _ refl refl
clear_field-pending system field m = refl

pub update_add_dialog-Guarded :
    (system : System) (key : Key) (m : View) → Guarded m.pending (update_add_dialog system key m)
unfolding update_add_dialog
update_add_dialog-Guarded system ctrl_c m =
    kept-Guarded m _ (if-pending m.pending m _ _ refl (clear_field-pending system m.form.field m))
update_add_dialog-Guarded system key m = unless_busy-Guarded m _ (idle_key-Guarded system key m)
