-- ===== src/Tui/Guarded.antt =====
-- internal/tui: `pending`, the flag that keeps the interface from starting a call while another is
-- not answered, with what each key does to it.
pub mod Dialogs
pub mod Form
pub mod Keys
use torrcli.Base.{
  ◌≡◌, refl, sym, ◌∙◌, arith, ℕ, ℤ, Bool, true, false, ◌&&◌, ◌||◌, Option, none, some, String, List,
  [], ◌∷◌, get_elem?, Result, ok, err, dec_str, ite, if◌then◌else◌,
}
use torrcli.Base.Text.{ite_cases, if_cases}
use torrcli.Model.{TorrentSnapshot, FileSnapshot}
use torrcli.Model.States
use torrcli.Tui.{View, doing, next_priority, dialog_none, select_previous, select_next}
use torrcli.Tui.Form.{
  dec_text, Key, ctrl_c, esc, enter, up, down, left, right, tab, shift_tab, space, runes,
}
use torrcli.Tui.Actions.{
  Call, Cmd, no_cmd, quit, load_defaults, load_torrents, load_details, preview_source, request,
  selected, verify_selected, find_peers_selected, move_selected, set_selected_file_priority,
  toggle_selected, toggle_sequential, remove_selected, load_details_selected, waiting,
  request_priority, Action, action_toggle, action_sequential, action_verify, action_find_peers,
  action_remove, torrent_actions, action_enabled, run_action, remove_key, actions_key,
  enter_actions, enter_remove, update_remove, update_actions,
}

unfoldable pub starts : Cmd → Bool
starts (request c) = true
starts c = false

-- After a key the flag is set just if it was before or a call was started, and none was if it was
-- set before.
pub Guarded : Bool → View × Cmd → Type 0
Guarded before r = (r.0.pending ≡ (before || starts r.1)) × ((before && starts r.1) ≡ false)

pub quiet :
    (before : Bool) (r : View × Cmd) → r.0.pending ≡ before → starts r.1 ≡ false → Guarded before r
unfolding Guarded
quiet true r same nothing = (same, nothing)
quiet false r same nothing = (same ∙ sym nothing, refl)

pub started :
    (before : Bool) (r : View × Cmd)
    → before ≡ false
    → r.0.pending ≡ true
    → starts r.1 ≡ true
    → Guarded before r
unfolding Guarded
started true r idle set calls = ground arith
started false r idle set calls = (set ∙ sym calls, refl)

pub unless_busy-Guarded :
    (m : View) (r : View × Cmd)
    → (m.pending ≡ false → Guarded m.pending r)
    → Guarded m.pending (if m.pending then (m, no_cmd) else r)
unfolding starts
unless_busy-Guarded m r fine =
    if_cases (Guarded m.pending) m.pending (λ busy. quiet m.pending (m, no_cmd) refl refl) fine

selected-Guarded :
    (m : View) (found : Option TorrentSnapshot) (start : TorrentSnapshot → View × Cmd)
    → m.pending ≡ false
    → ((t : TorrentSnapshot) → (start t).0.pending ≡ true)
    → ((t : TorrentSnapshot) → starts (start t).1 ≡ true)
    → Guarded m.pending (elim found [ none ↦ (m, no_cmd) | some t ↦ start t ])
unfolding starts
selected-Guarded m none start idle set calls = quiet m.pending (m, no_cmd) refl refl
selected-Guarded m (some t) start idle set calls =
    started m.pending (start t) idle (set t) (calls t)

pub verify_selected-Guarded : (m : View) → Guarded m.pending (verify_selected m)
unfolding verify_selected starts
verify_selected-Guarded m = unless_busy-Guarded m _ λ idle.
    ite_cases (Guarded m.pending) (dec_str m.selected_id "") (λ _. quiet m.pending _ refl refl)
      (λ _. started m.pending _ idle refl refl)

pub find_peers_selected-Guarded : (m : View) → Guarded m.pending (find_peers_selected m)
unfolding find_peers_selected starts
find_peers_selected-Guarded m = unless_busy-Guarded m _ λ idle.
    ite_cases (Guarded m.pending) (dec_str m.selected_id "") (λ _. quiet m.pending _ refl refl)
      (λ _. started m.pending _ idle refl refl)

pub move_selected-Guarded : (offset : ℤ) (m : View) → Guarded m.pending (move_selected offset m)
unfolding move_selected starts
move_selected-Guarded offset m = unless_busy-Guarded m _ λ idle.
    ite_cases (Guarded m.pending) (dec_str m.selected_id "") (λ _. quiet m.pending _ refl refl)
      (λ _. started m.pending _ idle refl refl)

pub toggle_selected-Guarded : (m : View) → Guarded m.pending (toggle_selected m)
unfolding toggle_selected starts
toggle_selected-Guarded m = unless_busy-Guarded m _ λ idle.
    selected-Guarded m (selected m) _ idle
      (λ t.
        ite_cases (λ (r : View × Cmd). r.0.pending ≡ true) (dec_str t.state States.paused)
          (λ _. refl) (λ _. refl))
      (λ t.
        ite_cases (λ (r : View × Cmd). starts r.1 ≡ true) (dec_str t.state States.paused)
          (λ _. refl) (λ _. refl))

pub toggle_sequential-Guarded : (m : View) → Guarded m.pending (toggle_sequential m)
unfolding toggle_sequential starts
toggle_sequential-Guarded m =
    unless_busy-Guarded m _ λ idle. selected-Guarded m (selected m) _ idle (λ t. refl) (λ t. refl)

pub remove_selected-Guarded : (m : View) → Guarded m.pending (remove_selected m)
unfolding remove_selected starts
remove_selected-Guarded m =
    unless_busy-Guarded m _ λ idle. selected-Guarded m (selected m) _ idle (λ t. refl) (λ t. refl)

pub set_selected_file_priority-Guarded :
    (m : View) → Guarded m.pending (set_selected_file_priority m)
unfolding set_selected_file_priority starts
set_selected_file_priority-Guarded m =
    unless_busy-Guarded m _ (λ idle. at (get_elem? m.details.files m.selected_file) idle)
  where
    at :
        (found : Option FileSnapshot)
        → m.pending ≡ false
        → Guarded m.pending (elim found [
          | none ↦ (m, no_cmd)
          | some file ↦ (
            waiting (doing "Updating" file.path) m,
            request
                (request_priority m.details.torrent.id file.index (next_priority file.priority)),
          )
        ])
    at none idle = quiet m.pending _ refl refl
    at (some file) idle = started m.pending _ idle refl refl

pub load_details_selected-Guarded :
    (before : Bool) (m : View) → m.pending ≡ before → Guarded before (load_details_selected m)
unfolding load_details_selected starts
load_details_selected-Guarded before m same = at (selected m)
  where
    at :
        (found : Option TorrentSnapshot)
        → Guarded before (elim found [
          | none ↦ (m, no_cmd)
          | some t ↦ (record m { details_loading = true }, load_details t.id)
        ])
    at none = quiet before _ same refl
    at (some t) = quiet before _ same refl

-- A key that keeps the flag and has no command.
pub kept-Guarded : (m m' : View) → m'.pending ≡ m.pending → Guarded m.pending (m', no_cmd)
unfolding starts
kept-Guarded m m' same = quiet m.pending (m', no_cmd) same refl

pub if-pending :
    (x : Bool) (m a b : View)
    → a.pending ≡ m.pending
    → b.pending ≡ m.pending
    → (if x then a else b).pending ≡ m.pending
if-pending x m a b p q = if_cases (λ (v : View). v.pending ≡ m.pending) x (λ _. p) (λ _. q)
