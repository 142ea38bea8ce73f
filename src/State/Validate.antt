-- ===== src/State/Validate.antt =====
-- internal/state/store.go: validateConfig and validateSession.
pub mod Counting
pub mod Sound
pub mod Complete
use torrcli.Base.{
  ℕ, suc, ℤ, is_negative, at_most, ◌≡◌, Bool, true, false, not, ◌&&◌, ◌||◌, String, Option, none,
  some, List, [], ◌∷◌, ite, dite, dec_str, ℕ_discrete, length, lookup, put, if◌then◌else◌, Error,
  not_found, plain, about, Bool-cases, Option-cases,
}
use torrcli.Model.{Config, Session, TorrentId, TorrentRecord}
use torrcli.Model.States

unfoldable pub validate_config : Config → Option Error
validate_config config =
    ite (dec_str config.download_directory "") (some (plain "download directory is required")) (
      if is_negative config.max_active_downloads || is_negative config.max_active_seeds
      then some (plain "active torrent limits cannot be negative")
      else if is_negative config.download_limit || is_negative config.upload_limit
      then some (plain "transfer limits cannot be negative")
      else if is_negative config.listen_port || not (at_most config.listen_port 65535)
      then some (plain "listen port must be between 0 and 65535")
      else none)

-- `record.Source == "" || record.SavePath == ""`, and the test on the desired state.
unfoldable pub check_record : TorrentId → TorrentRecord → Option Error
check_record id r = ite (dec_str r.source "") (some (about id "is incomplete")) (
    ite (dec_str r.save_path "") (some (about id "is incomplete")) (
      ite (dec_str r.desired_state States.downloading) none (
        ite (dec_str r.desired_state States.paused) none
          (some (about id "has an invalid desired state")))))

-- The body of the loop over the order: the checks of one id against the ids seen before it.
unfoldable pub check_entry :
    List (TorrentId × Unit {0}) → List (TorrentId × TorrentRecord) → TorrentId → Option Error
unfolding check_record
check_entry seen torrents id =
    ite (dec_str id "") (some (plain "session torrent ID is required"))
      (elim (lookup dec_str id seen) [
        | some _ ↦ some (about id "appears more than once")
        | none ↦ elim (lookup dec_str id torrents) [
          | none ↦ some (about id "is missing its record")
          | some r ↦ check_record id r
        ]
      ])

-- The loop over the order, and the comparison of lengths behind it.
unfoldable pub check_order :
    List (TorrentId × Unit {0}) → List (TorrentId × TorrentRecord) → List TorrentId → Option Error
check_order seen torrents [] =
    ite (ℕ_discrete (length seen) (length torrents)) none
      (some (plain "session torrent records must appear in order"))
check_order seen torrents (id ∷ ids) =
    let rest = check_order (put dec_str id tt seen) torrents ids in
    elim (check_entry seen torrents id) [ some e ↦ some e | none ↦ rest ]

unfoldable pub validate_session : Session → Option Error
validate_session session = elim session.order [
  | none ↦ some (plain "session order is required")
  | some order ↦ elim session.torrents [
    | none ↦ some (plain "session torrents are required")
    | some torrents ↦ check_order [] torrents order
  ]
]
