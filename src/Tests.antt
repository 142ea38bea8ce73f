-- ===== src/Tests.antt =====
-- A daemon with one torrent, on a disk whose texts are the values themselves, and an engine that
-- does what it is asked.
pub mod Storing
pub mod Showing
pub mod Answering
pub mod Running
pub mod Selecting
pub mod Starting
pub mod Bounding
pub mod Seeding
pub mod Deleting
use torrcli.Base.{
  ℕ, ℤ, pos, ◌≡◌, ◌≢◌, ◌⊎◌, ◌+◌, ◌++◌, refl, arith, Bool, true, false, String, Option, none, some,
  List, [], ◌∷◌, dec_str, ℕ_discrete, put, lookup, present, Exec, Result, ok, err, Error, canceled,
  not_exist,
}
use torrcli.Model.{
  Config, Session, TorrentId, TorrentRecord, TorrentSnapshot, FileSnapshot, TorrentDetails,
  zero_record, zero_snapshot, default_config, default_session,
}
use torrcli.Model.States
use torrcli.State.Files.{
  File, absent, unreadable, holds, Files, Attempt, smooth, Codec, write_json, read_json, back_up,
  install,
}
use torrcli.State.Validate.{
  validate_config, validate_session, check_order, check_entry, check_record,
}
use torrcli.State.Validate.Complete.{IsMap, IsValidSession, validate_session_iff}
use torrcli.State.Store.{save_config, load_or_create_config, save_session, load_or_create_session}
use torrcli.State.Store.Recovery.{
  load-save, save_failure, load-valid, session_lost, load-save_config, load_config-valid,
}
use torrcli.Platform.{Paths}
use torrcli.Torrents
use torrcli.Torrents.{SessionState, new_state}
use torrcli.Torrents.Order.{IsOrdered, put-IsOrdered, remove-IsOrdered, move-IsOrdered}
use torrcli.Torrents.View.{IsKeyed, view, upsert, without, view-put, view-remove}
use torrcli.Torrents.Loop.{
  Point, start, finished, Reach, here, next, receive, answer, exit, shut_down, Explained, IsStuck,
  Reach-Explained, Reach-IsStuck,
}
use torrcli.Engine.{Engine}
use torrcli.Rpc.{Request, Reply, reply, Response}
use torrcli.Rpc.Server.{Wire, handle, serve_conn}
use torrcli.Rpc.Serving.{responses, serve_conn-responses, handle_cases}
use torrcli.Daemon.{Daemon}
use torrcli.Daemon.Controls.{Strconv}
use torrcli.Daemon.Handler.{Decoders, Answer, handle_rpc}
use torrcli.Daemon.Refusals.{IsAnswered, handle_rpc-IsAnswered}
use torrcli.Daemon.Steady.Saving.{IsSteady}
use torrcli.Daemon.Steady.Adding.{IsNamed}
use torrcli.Daemon.Steady.Requests.{handle_rpc-IsSteady}

abbrev pub record_a : TorrentRecord
record_a = record zero_record {
  source = "magnet:a";
  save_path = "/data";
  desired_state = States.downloading;
}

abbrev pub session_a : Session
session_a = record { order = some ("a" ∷ []); torrents = some (("a", record_a) ∷ []) }

abbrev pub snapshot_of : TorrentId → TorrentSnapshot
snapshot_of id = record zero_snapshot { id = id }

abbrev pub state_a : SessionState
state_a = record { torrents = ("a", snapshot_of "a") ∷ []; order = "a" ∷ [] }

abbrev pub plain_text : {A : Type 0} → Codec A A
plain_text = record { encode = λ a. a; decode_into = λ left text. (text, none) }

abbrev pub empty_disk : Files Session
empty_disk = record { main = absent; backup = absent }

abbrev pub disk_a : Files Session
disk_a = record { main = holds session_a; backup = absent }

abbrev pub willing : Engine (Unit {0})
willing = record {
  add = λ c input e. (e, ok (input.source, true));
  pause = λ c id e. (e, ok tt);
  resume = λ c id e. (e, ok tt);
  verify = λ c id e. (e, ok tt);
  find_peers = λ c id e. (e, ok tt);
  remove = λ c id delete_data e. (e, ok tt);
  set_sequential = λ c id enabled e. (e, ok tt);
  set_file_priority = λ c id index p e. (e, ok tt);
  snapshot = λ c id e. (e, ok (snapshot_of id));
  details = λ c id e. (e, err canceled);
}

pub willing-IsNamed : IsNamed willing
willing-IsNamed = record { named = λ c id e t h. ground arith }

abbrev pub daemon_a : Daemon (Unit {0}) Session
daemon_a = record {
  paths = record {
    config_dir = "";
    state_dir = "";
    runtime_dir = "";
    config_file = "";
    session_file = "";
    socket_path = "";
    lock_file = "";
  };
  started = 0;
  config = default_config "/data";
  session = session_a;
  torrents = state_a;
  engine = tt;
  scheduled = [];
  files = disk_a;
  attempts = [];
  deliveries = [];
}

abbrev pub digits : Strconv
digits = record { itoa = λ n. "0"; atoi = λ s. none }

abbrev pub json : Decoders String
json = record {
  add_params = λ s. none;
  torrent_params = λ s. some s;
  move_params = λ s. none;
  remove_params = λ s. some (record { id = s; delete_data = true });
  sequential_params = λ s. none;
  priority_params = λ s. none;
}

abbrev pub pause_a : Request String
pause_a = record { jsonrpc = "2.0"; id = some "1"; method = "torrent.pause"; params = "a" }

abbrev pub remove_a : Request String
remove_a = record { jsonrpc = "2.0"; id = some "1"; method = "torrent.remove"; params = "a" }

pub session_a-valid : validate_session session_a ≡ none
unfolding validate_session check_order check_entry check_record lookup ℕ_discrete dec_str put
session_a-valid = refl

pub state_a-IsOrdered : IsOrdered state_a
unfolding present lookup
state_a-IsOrdered id = ground arith

pub state_a-IsKeyed : IsKeyed state_a.torrents
unfolding lookup
state_a-IsKeyed id t e = ground arith

pub daemon_a-IsSteady : IsSteady plain_text daemon_a
daemon_a-IsSteady = record {
  valid = session_a-valid;
  saved = refl;
  synced = refl;
  ordered = state_a-IsOrdered;
  keyed = state_a-IsKeyed;
  calm = refl;
}
