-- ===== src/Tui.antt =====
-- internal/tui: the list of torrents that the terminal interface keeps, with the one selected, and
-- what the result of an action does to it. Of the model's fields those are kept that this code
-- reads or writes.
pub mod Selection
pub mod Moving
pub mod Form
pub mod Actions
pub mod Adding
pub mod Updating
pub mod Messages
pub mod Guarded
use torrcli.Base.{
  ℕ, zero, suc, ◌+◌, ◌-◌, ltb, Bool, true, false, not, String, Option, none, some, List, [], ◌∷◌,
  ◌++◌, dec_str, ite, index_of, get_elem?, length, map, if◌then◌else◌,
}
use torrcli.Model.{TorrentId, TorrentSnapshot, TorrentDetails, FilePriority}
use torrcli.Model.Priorities
use torrcli.Tui.Form.{AddForm}

pub data Focus : Type 0 where
  focus_torrents focus_details : Focus

pub data Dialog : Type 0 where
  dialog_none dialog_add dialog_remove dialog_actions : Dialog

-- A notice, in its parts.
pub data Notice : Type 0 where
  no_notice : Notice
  could_not : String → String → Notice
  done : String → Notice
  doing : String → String → Notice
  added set_to : String → Notice

-- `panicked` is not of the model: it is set where an index out of range would end the program.
pub record View : Type 0 where
  pub panicked : Bool
  pub width : ℕ
  pub height : ℕ
  pub torrents : List TorrentSnapshot
  pub selected_id : TorrentId
  pub load_error : Option String
  pub loading : Bool
  pub pending : Bool
  pub notice : Notice
  pub notice_err : Bool
  pub notice_id : ℕ
  pub dialog : Dialog
  pub form : AddForm
  pub action_index : ℕ
  pub remove_cancel : Bool
  pub remove_delete_data : Bool
  pub remove_option : Bool
  pub details : TorrentDetails
  pub show_details : Bool
  pub details_loading : Bool
  pub details_tab : ℕ
  pub details_err : Option String
  pub focus : Focus
  pub selected_file : ℕ

abbrev pub ids : List TorrentSnapshot → List TorrentId
ids [] = []
ids (t ∷ ts) = t.id ∷ ids ts

-- `none` is the source's -1.
unfoldable pub selected_index : View → Option ℕ
selected_index m = index_of dec_str m.selected_id (ids m.torrents)

-- `m.selectedID = m.torrents[i].ID`.
abbrev pub select_at : ℕ → View → View
select_at i m = elim (get_elem? m.torrents i) [
  | none ↦ record m { panicked = true }
  | some t ↦ record m { selected_id = t.id }
]

unfoldable pub select_previous : View → View
unfolding selected_index
select_previous m = elim (selected_index m) [
  | none ↦ m
  | some i ↦ if ltb 0 i then select_at (i - 1) m else m
]

unfoldable pub select_next : View → View
unfolding selected_index
select_next m = elim (selected_index m) [
  | none ↦ m
  | some i ↦ if ltb (i + 1) (length m.torrents) then select_at (i + 1) m else m
]

abbrev pub first_selected : List TorrentSnapshot → View → View
first_selected [] m = record m { selected_id = ""; focus = focus_torrents }
first_selected (t ∷ ts) m = elim (selected_index m) [
  | none ↦ record m { selected_id = t.id }
  | some i ↦ m
]

unfoldable pub ensure_selection : View → View
unfolding selected_index
ensure_selection m = first_selected m.torrents m

unfoldable pub update_details_snapshot : View → View
unfolding selected_index
update_details_snapshot m = elim (selected_index m) [
  | none ↦ m
  | some i ↦
      ite (dec_str m.details.torrent.id m.selected_id)
        (elim (get_elem? m.torrents i) [
          | none ↦ record m { panicked = true }
          | some t ↦ record m { details = record m.details { torrent = t } }
        ])
        m
]

unfoldable pub select_previous_file : View → View
select_previous_file m = record m { selected_file = m.selected_file - 1 }

unfoldable pub select_next_file : View → View
select_next_file m =
    if ltb (m.selected_file + 1) (length m.details.files)
    then record m { selected_file = m.selected_file + 1 }
    else m

unfoldable pub next_priority : FilePriority → FilePriority
next_priority p =
    ite (dec_str p Priorities.skip) Priorities.normal
      (ite (dec_str p Priorities.normal) Priorities.high Priorities.skip)

-- The first torrent of an ID replaced, or none.
unfoldable pub replaced : TorrentSnapshot → List TorrentSnapshot → List TorrentSnapshot
replaced u [] = []
replaced u (t ∷ ts) = ite (dec_str t.id u.id) (u ∷ ts) (t ∷ replaced u ts)

unfoldable pub upserted : TorrentSnapshot → List TorrentSnapshot → List TorrentSnapshot
upserted u [] = u ∷ []
upserted u (t ∷ ts) = ite (dec_str t.id u.id) (u ∷ ts) (t ∷ upserted u ts)

unfoldable pub without_first : TorrentId → List TorrentSnapshot → List TorrentSnapshot
without_first id [] = []
without_first id (t ∷ ts) = ite (dec_str t.id id) ts (t ∷ without_first id ts)

unfoldable pub replace_torrent : TorrentSnapshot → View → View
unfolding replaced
replace_torrent u m = record m { torrents = replaced u m.torrents }

unfoldable pub upsert_torrent : TorrentSnapshot → View → View
unfolding upserted
upsert_torrent u m = record m { torrents = upserted u m.torrents }

unfoldable pub remove_torrent : TorrentId → View → View
unfolding without_first ensure_selection
remove_torrent id m = elim (index_of dec_str id (ids m.torrents)) [
  | none ↦ m
  | some i ↦ ensure_selection (record m { torrents = without_first id m.torrents })
]

-- The command that clears the notice after four seconds is left out.
unfoldable pub set_notice : Notice → Bool → View → View
set_notice notice is_error m = record m {
  notice_id = m.notice_id + 1;
  notice = notice;
  notice_err = is_error;
}

-- `actionResultMsg`, by its action.
pub data Outcome : Type 0 where
  failed : String → String → Outcome
  paused resumed sequential verified add : TorrentSnapshot → Outcome
  peers_found : Outcome
  removed : TorrentId → Outcome

abbrev pub add_failed : String → String → View → View
add_failed action e m =
    ite (dec_str action "add") (record m { form = record m.form { error = e } }) m

unfoldable pub handle_action_result : Outcome → View → View
unfolding replace_torrent upsert_torrent remove_torrent ensure_selection set_notice
handle_action_result (failed action e) m =
    set_notice (could_not action e) true (add_failed action e (record m { pending = false }))
handle_action_result (paused t) m =
    set_notice (done "Pause") false (replace_torrent t (record m { pending = false }))
handle_action_result (resumed t) m =
    set_notice (done "Resume") false (replace_torrent t (record m { pending = false }))
handle_action_result (sequential t) m =
    set_notice
      (if t.sequential
        then done "Sequential download enabled"
        else done "Sequential download disabled")
      false (replace_torrent t (record m { pending = false }))
handle_action_result (verified t) m =
    set_notice (done "Verification complete") false
      (replace_torrent t (record m { pending = false }))
handle_action_result peers_found m =
    set_notice (done "Searching DHT for peers") false (record m { pending = false })
handle_action_result (add t) m = set_notice (added t.name) false (
    ensure_selection (
      upsert_torrent t
        (record m { pending = false; dialog = dialog_none; form = record m.form { source = [] } })))
handle_action_result (removed id) m =
    set_notice (done "Removed torrent") false (remove_torrent id (record m { pending = false }))

-- `torrentsLoadedMsg` without an error; the command that loads details is left out.
unfoldable pub torrents_loaded : List TorrentSnapshot → View → View
unfolding ensure_selection update_details_snapshot
torrents_loaded ts m =
    let shown = ensure_selection (record m { torrents = ts }) in
    let updated = update_details_snapshot shown in
    ite (dec_str shown.selected_id "") updated
      (ite (dec_str shown.details.torrent.id shown.selected_id) updated shown)

-- `torrentsMovedMsg` without an error.
unfoldable pub torrents_moved : List TorrentSnapshot → View → View
unfolding ensure_selection set_notice
torrents_moved ts m =
    set_notice (done "Torrent moved") false
      (ensure_selection (record m { pending = false; torrents = ts }))
