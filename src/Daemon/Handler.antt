-- ===== src/Daemon/Handler.antt =====
-- internal/daemon/rpc.go: handleRPC, the daemon's answer to each method.
use torrcli.Base.{
  ℕ, zero, suc, lookup, ℤ, pos, negsuc, is_negative, Bool, true, false, not, ◌||◌, Option, none,
  some, String, List, [], ◌∷◌, dec_str, ite, Result, ok, err, Exec, if◌then◌else◌,
}
use torrcli.Model.{Session, TorrentId, TorrentSnapshot, TorrentDetails, zero_snapshot}
use torrcli.State.Files.{Codec}
use torrcli.Engine.{Engine, request}
use torrcli.Rpc
use torrcli.Rpc.{
  Request, RpcError, Reply, reply, refuse, AddTorrentParams, MoveTorrentParams, RemoveTorrentParams,
  SetFilePriorityParams, SetSequentialParams,
}
use torrcli.Rpc.Server.{method_not_found, invalid_params, operation_failed}
use torrcli.Torrents
use torrcli.Daemon.{Daemon, run_torrents, call_engine}
use torrcli.Daemon.Add.{add_torrent}
use torrcli.Daemon.Controls.{
  Strconv, valid_file_priority, pause_torrent, resume_torrent, verify_torrent, find_peers,
  set_file_priority, set_sequential, remove_torrent, move_torrent,
}

-- `json.Unmarshal(request.Params, &p)` at each type of parameters.
pub record Decoders (R : Type 0) : Type 0 where
  pub add_params : R → Option AddTorrentParams
  pub torrent_params : R → Option TorrentId
  pub move_params : R → Option MoveTorrentParams
  pub remove_params : R → Option RemoveTorrentParams
  pub sequential_params : R → Option SetSequentialParams
  pub priority_params : R → Option SetFilePriorityParams

pub record DaemonInfo : Type 0 where
  pub download_directory : String
  pub daemon_version : String
  pub protocol_version : String
  pub started_at : ℕ
  pub config_file : String
  pub session_file : String
  pub socket_path : String

-- The results of the methods. The JSON of `unit` is `{}`.
pub data Answer : Type 0 where
  ping : String → Answer
  info : DaemonInfo → Answer
  added : TorrentSnapshot → Answer
  torrents : List TorrentSnapshot → Answer
  details : TorrentDetails → Answer
  torrent : TorrentSnapshot → Answer
  unit : Answer

-- The methods, by their names.
pub data Method : Type 0 where
  daemon_ping daemon_info torrent_add torrent_list torrent_get torrent_move : Method
  torrent_pause torrent_resume torrent_verify torrent_find_peers torrent_remove : Method
  torrent_set_sequential torrent_set_file_priority : Method

abbrev pub method_names : List (String × Method)
method_names =
    ("daemon.ping", daemon_ping)
    ∷ ("daemon.info", daemon_info)
    ∷ ("torrent.add", torrent_add)
    ∷ ("torrent.list", torrent_list)
    ∷ ("torrent.get", torrent_get)
    ∷ ("torrent.move", torrent_move)
    ∷ ("torrent.pause", torrent_pause)
    ∷ ("torrent.resume", torrent_resume)
    ∷ ("torrent.verify", torrent_verify)
    ∷ ("torrent.find_peers", torrent_find_peers)
    ∷ ("torrent.remove", torrent_remove)
    ∷ ("torrent.set_sequential", torrent_set_sequential)
    ∷ ("torrent.set_file_priority", torrent_set_file_priority)
    ∷ []

abbrev pub daemon_version : String
daemon_version = "0.1.0-dev"

-- `p.ID == ""`, and the further tests on the parameters.
abbrev pub empty_id : TorrentId → Bool
empty_id id = ite (dec_str id "") true false

abbrev pub one_place : ℤ → Bool
one_place (pos (suc zero)) = true
one_place (negsuc zero) = true
one_place _ = false

module _ {E T : Type 0} where
  -- The handlers' common shape: decode and check the parameters, run the operation, and name it in
  -- the error.
  abbrev pub with_params :
      {P : Type 0}
      → Option P
      → (P → Bool)
      → (P → Daemon E T → Daemon E T × Reply Answer)
      → Daemon E T
      → Daemon E T × Reply Answer
  with_params none bad run d = (d, refuse invalid_params)
  with_params (some p) bad run d = if bad p then (d, refuse invalid_params) else run p d

  abbrev pub answered :
      {A : Type 0} → String → (A → Answer) → Daemon E T → Result A → Daemon E T × Reply Answer
  answered operation answer d (ok a) = (d, reply (answer a))
  answered operation answer d (err e) = (d, refuse (operation_failed operation e))

  abbrev pub replying :
      {A : Type 0}
      → String
      → (A → Answer)
      → Exec (Daemon E T) A
      → Daemon E T
      → Daemon E T × Reply Answer
  replying operation answer m d = answered operation answer (m d).0 (m d).1

  unfoldable pub daemon_info_of : Daemon E T → DaemonInfo
  daemon_info_of d = record {
    download_directory = d.config.download_directory;
    daemon_version = daemon_version;
    protocol_version = Rpc.version;
    started_at = d.started;
    config_file = d.paths.config_file;
    session_file = d.paths.session_file;
    socket_path = d.paths.socket_path;
  }

module _ {E T R : Type 0} (engine : Engine E) (codec : Codec Session T) (strconv : Strconv)
    (json : Decoders R) where
  unfoldable pub handle_method : Method → R → Daemon E T → Daemon E T × Reply Answer
  unfolding run_torrents call_engine Torrents.list valid_file_priority daemon_info_of
  handle_method daemon_ping p d = (d, reply (ping Rpc.version))
  handle_method daemon_info p d = (d, reply (info (daemon_info_of d)))
  handle_method torrent_add p d =
      with_params (json.add_params p) (λ q. false)
        (λ q. replying "add" added (add_torrent engine codec q)) d
  handle_method torrent_list p d =
      replying "list" torrents (run_torrents request (Torrents.list zero_snapshot)) d
  handle_method torrent_get p d =
      with_params (json.torrent_params p) empty_id
        (λ id. replying "get torrent details" details (call_engine (engine.details request id))) d
  handle_method torrent_move p d =
      with_params (json.move_params p) (λ q. empty_id q.id || not (one_place q.offset))
        (λ q. replying "move" torrents (move_torrent engine codec q.id q.offset)) d
  handle_method torrent_pause p d =
      with_params (json.torrent_params p) empty_id
        (λ id. replying "pause" torrent (pause_torrent engine codec id)) d
  handle_method torrent_resume p d =
      with_params (json.torrent_params p) empty_id
        (λ id. replying "resume" torrent (resume_torrent engine codec id)) d
  handle_method torrent_verify p d =
      with_params (json.torrent_params p) empty_id
        (λ id. replying "verify" torrent (verify_torrent engine codec id)) d
  handle_method torrent_find_peers p d =
      with_params (json.torrent_params p) empty_id
        (λ id. replying "find peers" (λ u. unit) (find_peers engine codec id)) d
  handle_method torrent_remove p d =
      with_params (json.remove_params p) (λ q. empty_id q.id)
        (λ q. replying "remove" (λ u. unit) (remove_torrent engine codec q.id q.delete_data)) d
  handle_method torrent_set_sequential p d =
      with_params (json.sequential_params p) (λ q. empty_id q.id)
        (λ q.
          replying "set sequential download" torrent (set_sequential engine codec q.id q.enabled))
        d
  handle_method torrent_set_file_priority p d =
      with_params (json.priority_params p)
        (λ q. empty_id q.id || is_negative q.file_index || not (valid_file_priority q.priority))
        (λ q.
          replying "priority" torrent
            (set_file_priority engine codec strconv q.id q.file_index q.priority))
        d

  unfoldable pub handle_rpc : Request R → Daemon E T → Daemon E T × Reply Answer
  handle_rpc r d = elim (lookup dec_str r.method method_names) [
    | none ↦ (d, refuse (method_not_found r.method))
    | some method ↦ handle_method method r.params d
  ]
