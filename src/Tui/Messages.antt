-- ===== src/Tui/Messages.antt =====
-- internal/tui/update.go: what Update does on the messages that are no keys, and Update as a whole.
use torrcli.Base.{
  ℕ, true, false, String, Option, none, some, List, [], ◌∷◌, ite, dec_str, ℕ_discrete, Result, ok,
  err, Error,
}
use torrcli.Model.{TorrentId, TorrentSnapshot, TorrentDetails, FileSnapshot, FilePriority}
use torrcli.Tui.{
  View, no_notice, set_to, could_not, Dialog, dialog_add, Outcome, handle_action_result,
  torrents_loaded, torrents_moved, set_notice, replace_torrent, update_details_snapshot,
}
use torrcli.Tui.Form.{Text, dec_text, trim_space, Key}
use torrcli.Tui.Actions.{Cmd, no_cmd, load_torrents, load_details_selected}
use torrcli.Tui.Adding.{System}
use torrcli.Tui.Updating.{update_key}

pub data Msg : Type 0 where
  key_msg : Key → Msg
  add_defaults : String → Msg
  add_preview : Text → String → Msg
  window_size : ℕ → ℕ → Msg
  torrents_loaded_msg : Result (List TorrentSnapshot) → Msg
  refresh_msg : Msg
  action_result : Outcome → Msg
  notice_cleared : ℕ → Msg
  details_loaded : TorrentId → Result TorrentDetails → Msg
  file_priority_result : TorrentSnapshot → ℕ → FilePriority → Option Error → Msg
  torrents_moved_msg : Result (List TorrentSnapshot) → Msg

-- The first file of an index.
unfoldable pub prioritised : ℕ → FilePriority → List FileSnapshot → List FileSnapshot
prioritised index p [] = []
prioritised index p (f ∷ fs) =
    let rest = prioritised index p fs in
    ite (ℕ_discrete f.index index) (record f { priority = p } ∷ fs) (f ∷ rest)

module _ (system : System) where
  abbrev on_defaults : Dialog → String → View → View
  on_defaults dialog_add path m = record m { form = record m.form { default_path = path } }
  on_defaults dialog path m = m

  abbrev on_preview : Dialog → Text → String → View → View
  on_preview dialog_add source text m =
      ite (dec_text source (trim_space m.form.source))
        (record m { form = record m.form { preview = text } }) m
  on_preview dialog source text m = m

  -- Details are asked for when they are not those of the torrent that is selected.
  unfoldable pub on_loaded : Result (List TorrentSnapshot) → View → View × Cmd
  unfolding torrents_loaded load_details_selected
  on_loaded (err e) m =
      (record m { loading = false; load_error = some (system.describe e) }, no_cmd)
  on_loaded (ok ts) m =
      let shown = torrents_loaded ts (record m { loading = false; load_error = none }) in
      ite (dec_str shown.selected_id "") (shown, no_cmd)
        (ite (dec_str shown.details.torrent.id shown.selected_id) (shown, no_cmd)
          (load_details_selected shown))

  abbrev on_details : Result TorrentDetails → View → View
  on_details (err e) m = record m {
    details_loading = false;
    details_err = some (system.describe e);
    show_details = false;
  }
  on_details (ok details) m =
      let updated =
        update_details_snapshot (record m { details_loading = false; details = details }) in
      record updated { selected_file = 0; details_err = none; show_details = false }

  abbrev on_priority : TorrentSnapshot → ℕ → FilePriority → Option Error → View → View
  on_priority t index p (some e) m =
      set_notice (could_not "update priority" (system.describe e)) true m
  on_priority t index p none m =
      let replaced = replace_torrent t (record m { details = record m.details { torrent = t } }) in
      set_notice (set_to p) false (record replaced {
        details = record replaced.details { files = prioritised index p replaced.details.files };
      })

  abbrev on_moved : Result (List TorrentSnapshot) → View → View
  on_moved (err e) m = set_notice (could_not "move torrent" (system.describe e)) true m
  on_moved (ok ts) m = torrents_moved ts m

  -- The timers that a message starts are left out.
  unfoldable pub update : Msg → View → View × Cmd
  unfolding update_key trim_space on_loaded handle_action_result set_notice prioritised
      replace_torrent torrents_moved
  update (key_msg key) m = update_key system key m
  update (add_defaults path) m = (on_defaults m.dialog path m, no_cmd)
  update (add_preview source text) m = (on_preview m.dialog source text m, no_cmd)
  update (window_size width height) m = (record m { width = width; height = height }, no_cmd)
  update (torrents_loaded_msg r) m = on_loaded r m
  update refresh_msg m = (m, load_torrents)
  update (action_result outcome) m = (handle_action_result outcome m, no_cmd)
  update (notice_cleared id) m =
      ite (ℕ_discrete id m.notice_id) (record m { notice = no_notice; notice_err = false }, no_cmd)
        (m, no_cmd)
  update (details_loaded id r) m =
      ite (dec_str id m.selected_id) (on_details r m, no_cmd) (m, no_cmd)
  update (file_priority_result t index p e) m =
      (on_priority t index p e (record m { pending = false }), no_cmd)
  update (torrents_moved_msg r) m = (on_moved r (record m { pending = false }), no_cmd)
