-- ===== src/Model.antt =====
-- internal/model: the data that the daemon, its engine and its clients share. The string types are
-- texts, as in the source: a decoded file or request may hold any text. A `time.Time` is a number,
-- 0 for the zero time. Of a `[]T` or `map` where the code tells nil from empty, `none` is nil.
pub mod States
pub mod Priorities
use torrcli.Base.{ℕ, ℤ, pos, ◌&&◌, Bool, false, String, Option, none, some, List, [], leb, ltb}

abbrev pub TorrentId : Type 0
TorrentId = String

abbrev pub TorrentState : Type 0
TorrentState = String

abbrev pub FilePriority : Type 0
FilePriority = String

pub record Config : Type 0 where
  pub download_directory : String
  pub max_active_downloads : ℤ
  pub max_active_seeds : ℤ
  pub download_limit : ℤ
  pub upload_limit : ℤ
  pub listen_port : ℤ

unfoldable pub default_config : String → Config
default_config download_directory = record {
  download_directory = download_directory;
  max_active_downloads = pos 3;
  max_active_seeds = pos 5;
  download_limit = pos 0;
  upload_limit = pos 0;
  listen_port = pos 0;
}

pub record TorrentRecord : Type 0 where
  pub source : String
  pub name : String
  pub save_path : String
  pub desired_state : TorrentState
  pub added_at : ℕ
  pub sequential : Bool
  pub file_priorities : Option (List (String × FilePriority))

-- `model.TorrentRecord{}`.
abbrev pub zero_record : TorrentRecord
zero_record = record {
  source = "";
  name = "";
  save_path = "";
  desired_state = "";
  added_at = 0;
  sequential = false;
  file_priorities = none;
}

pub record Session : Type 0 where
  pub order : Option (List TorrentId)
  pub torrents : Option (List (TorrentId × TorrentRecord))

unfoldable pub default_session : Session
default_session = record { order = some []; torrents = some [] }

-- The float64 of `completed / total`, kept as the two numbers; 0 where `total` is 0.
pub record Progress : Type 0 where
  pub completed : ℕ
  pub total : ℕ

-- `progress >= 1`.
unfoldable pub is_complete : Progress → Bool
is_complete p = ltb 0 p.total && leb p.total p.completed

pub record AddInput : Type 0 where
  pub paused : Bool
  pub source : String
  pub save_path : String
  pub sequential : Bool
  pub file_priorities : List (ℕ × FilePriority)

pub record TorrentSnapshot : Type 0 where
  pub id : TorrentId
  pub name : String
  pub state : TorrentState
  pub progress : Progress
  pub download_rate : ℤ
  pub upload_rate : ℤ
  pub eta_seconds : ℤ
  pub connected_peers : ℤ
  pub seeders : ℤ
  pub leechers : ℤ
  pub sequential : Bool
  pub added_at : ℕ
  pub error : String

pub record FileSnapshot : Type 0 where
  pub index : ℕ
  pub path : String
  pub length : ℕ
  pub completed : ℕ
  pub priority : FilePriority

pub record TorrentInfo : Type 0 where
  pub save_path : String
  pub total_size : ℕ
  pub piece_length : ℕ
  pub piece_count : ℕ
  pub info_hash_v1 : String
  pub info_hash_v2 : String
  pub created_by : String
  pub comment : String

pub record TorrentDetails : Type 0 where
  pub torrent : TorrentSnapshot
  pub info : TorrentInfo
  pub files : List FileSnapshot

-- `model.TorrentSnapshot{}`.
abbrev pub zero_snapshot : TorrentSnapshot
zero_snapshot = record {
  id = "";
  name = "";
  state = "";
  progress = record { completed = 0; total = 0 };
  download_rate = pos 0;
  upload_rate = pos 0;
  eta_seconds = pos 0;
  connected_peers = pos 0;
  seeders = pos 0;
  leechers = pos 0;
  sequential = false;
  added_at = 0;
  error = "";
}
