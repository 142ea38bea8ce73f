-- ===== src/Tui/Adding.antt =====
-- internal/tui/add.go: updateAddDialog, the keys of the form.
use torrcli.Base.{
  ℕ, ◌+◌, leb, Bool, true, false, not, ◌&&◌, String, [], ◌∷◌, ite, ℕ_discrete, Result, ok, err,
  Error, if◌then◌else◌,
}
use torrcli.Tui.{View, doing, dialog_none}
use torrcli.Tui.Form.{
  Text, Field, add_source, add_path, add_sequential, add_paused, add_submit, AddForm, empty_form,
  next_field, previous_field, Key, ctrl_c, esc, enter, up, down, left, right, tab, shift_tab, space,
  trim_space, edit_source, edit_path,
}
use torrcli.Tui.Actions.{Cmd, no_cmd, preview_source, request, request_add, waiting}

abbrev pub is_empty : Text → Bool
is_empty [] = true
is_empty (r ∷ rs) = false

abbrev lower : ℕ → ℕ
lower r = if leb 65 r && leb r 90 then r + 32 else r

-- `strings.HasPrefix(strings.ToLower(t), prefix)`, as far as ASCII letters go.
unfoldable pub has_lower_prefix : Text → Text → Bool
has_lower_prefix [] t = true
has_lower_prefix (p ∷ ps) [] = false
has_lower_prefix (p ∷ ps) (r ∷ rs) =
    let rest = has_lower_prefix ps rs in ite (ℕ_discrete (lower r) p) rest false

-- "magnet:".
abbrev pub magnet : Text
magnet = 109 ∷ 97 ∷ 103 ∷ 110 ∷ 101 ∷ 116 ∷ 58 ∷ []

-- `os.UserHomeDir`, `filepath.Join` and `filepath.Abs`, and the text of an error.
pub record System : Type 0 where
  pub home : Result Text
  pub join : Text → Text → Text
  pub abs : Text → Result Text
  pub describe : Error → String

module _ (system : System) where
  abbrev at_home : (Text → Text) → Result Text
  at_home place = elim system.home [ err e ↦ err e | ok home ↦ system.abs (place home) ]

  -- "~" is 126 and "/" is 47.
  unfoldable pub local_path : Text → Result Text
  local_path [] = system.abs []
  local_path (r ∷ []) = ite (ℕ_discrete r 126) (at_home (λ home. home)) (system.abs (r ∷ []))
  local_path (r ∷ q ∷ rs) =
      ite (ℕ_discrete r 126)
        (ite (ℕ_discrete q 47) (at_home (λ home. system.join home rs)) (system.abs (r ∷ q ∷ rs)))
        (system.abs (r ∷ q ∷ rs))

  abbrev pub with_form : AddForm → View → View
  with_form form m = record m { form = form }

  abbrev pub close : View → View
  close m = record m { dialog = dialog_none; form = empty_form }

  abbrev pub stop : Error → View → View × Cmd
  stop e m = (with_form (record m.form { error = system.describe e }) m, no_cmd)

  -- The call of addTorrent, which no guard precedes.
  abbrev pub start_add : Text → Text → View → View × Cmd
  start_add source path m =
      let m' = with_form (record m.form { error = "" }) m in
      (
        waiting (doing "Adding torrent…" "") m',
        request (request_add source path m.form.sequential m.form.paused),
      )

  unfoldable pub submit_path : Text → Text → View → View × Cmd
  unfolding local_path
  submit_path source [] m = start_add source [] m
  submit_path source (r ∷ rs) m = elim (local_path (r ∷ rs)) [
    | err e ↦ stop e m
    | ok path ↦ start_add source path m
  ]

  unfoldable pub submit_source : Text → View → View × Cmd
  unfolding local_path submit_path has_lower_prefix trim_space
  submit_source [] m = (
    with_form (record m.form { error = "Enter a magnet link or .torrent path"; field = add_source })
        m,
    no_cmd,
  )
  submit_source (r ∷ rs) m =
      if has_lower_prefix magnet (r ∷ rs)
      then submit_path (r ∷ rs) (trim_space m.form.path) m
      else (elim (local_path (r ∷ rs)) [
        | err e ↦ stop e m
        | ok path ↦ submit_path path (trim_space m.form.path) m
      ])

  abbrev pub preview : View → Cmd
  preview m = preview_source (trim_space m.form.source)

  abbrev pub enter_field : Field → View → View × Cmd
  enter_field add_source m = (with_form (record m.form { field = add_path }) m, preview m)
  enter_field add_path m = (with_form (record m.form { field = add_sequential }) m, preview m)
  enter_field add_sequential m =
      (with_form (record m.form { sequential = not m.form.sequential }) m, no_cmd)
  enter_field add_paused m = (with_form (record m.form { paused = not m.form.paused }) m, no_cmd)
  enter_field add_submit m =
      if m.form.cancel then (close m, no_cmd) else submit_source (trim_space m.form.source) m

  -- To the next field or the one before.
  abbrev pub leave_field : Field → Field → View → View × Cmd
  leave_field add_source field m =
      (with_form (record m.form { field = field; cancel = false }) m, preview m)
  leave_field _ field m = (with_form (record m.form { field = field; cancel = false }) m, no_cmd)

  -- Whether a key toggles an option.
  abbrev toggles : Key → Bool
  toggles space = true
  toggles left = true
  toggles right = true
  toggles key = false

  abbrev chooses : Key → Bool
  chooses left = true
  chooses right = true
  chooses key = false

  abbrev pub field_key : Field → Key → AddForm → AddForm
  field_key add_submit key form =
      if chooses key then record form { cancel = not form.cancel } else form
  field_key add_sequential key form =
      if toggles key then record form { sequential = not form.sequential } else form
  field_key add_paused key form =
      if toggles key then record form { paused = not form.paused } else form
  field_key add_source key form = edit_source key form
  field_key add_path key form = edit_path key form

  abbrev pub clear_field : Field → View → View
  clear_field add_source m =
      if is_empty m.form.source
      then close m
      else with_form (record m.form { source = []; source_cursor = 0; preview = ""; error = "" }) m
  clear_field add_path m =
      if is_empty m.form.path
      then close m
      else with_form (record m.form { path = []; path_cursor = 0; error = "" }) m
  clear_field _ m = close m

  -- The keys that are looked at while no call is pending.
  unfoldable pub idle_key : Key → View → View × Cmd
  unfolding trim_space edit_source edit_path submit_source
  idle_key esc m = (record m { dialog = dialog_none; form = record m.form { source = [] } }, no_cmd)
  idle_key up m = leave_field m.form.field (previous_field m.form.field) m
  idle_key shift_tab m = leave_field m.form.field (previous_field m.form.field) m
  idle_key down m = leave_field m.form.field (next_field m.form.field) m
  idle_key tab m = leave_field m.form.field (next_field m.form.field) m
  idle_key enter m = enter_field m.form.field m
  idle_key key m = (with_form (field_key m.form.field key m.form) m, no_cmd)

  unfoldable pub update_add_dialog : Key → View → View × Cmd
  unfolding idle_key
  update_add_dialog ctrl_c m = (if m.pending then close m else clear_field m.form.field m, no_cmd)
  update_add_dialog key m = if m.pending then (m, no_cmd) else idle_key key m
