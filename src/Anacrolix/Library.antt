-- ===== src/Anacrolix/Library.antt =====
-- What internal/engine/anacrolix asks of github.com/anacrolix/torrent, of the clock and of the
-- contexts. `L` is what lies outside of the program, the library's client and the disk; `H` is a
-- `*torrent.Torrent`, `S` its storage, `M` what the library makes of a source, `F` a `metainfo.MetaInfo`.
-- The library runs on its own between two operations; within one, it is only changed by the calls.
use torrcli.Base.{ℕ, Bool, String, Option, List, Exec, Result, Error}
use torrcli.Model.{TorrentId}
use torrcli.Engine.{Context}
use torrcli.Sequential.{PiecePriority}
use torrcli.Anacrolix.Removal.{Info}

-- `torrent.TorrentSpec`: what the library read, and the fields that the engine sets.
pub record Spec (M S : Type 0) : Type 0 where
  pub source : M
  pub storage : S
  pub disallow_download : Bool
  pub disallow_upload : Bool

-- `*metainfo.MetaInfo`, with the two texts that are shown.
pub record MetaInfo (F : Type 0) : Type 0 where
  pub file : F
  pub created_by : String
  pub comment : String

pub record TorrentFile : Type 0 where
  pub display_path : String
  pub length : ℕ
  pub bytes_completed : ℕ
  pub priority : PiecePriority
  pub begin_piece : ℕ
  pub end_piece : ℕ

-- `torrent.TorrentStats`.
pub record Stats : Type 0 where
  pub bytes_read : ℕ
  pub bytes_written : ℕ
  pub active_peers : ℕ
  pub connected_seeders : ℕ

pub record Library (L H S M F : Type 0) : Type 0 where
  pub context_error : Context → L → Option Error
  pub make_directory : String → Exec L (Unit {0})
  pub spec_from_magnet : String → Result M
  pub load_from_file : String → Exec L (MetaInfo F)
  pub spec_from_metainfo : F → Result M
  pub new_file_storage : String → L → L × S
  pub close_storage : S → Exec L (Unit {0})
  pub add_torrent_spec : Spec M S → Exec L (H × Bool)
  pub same_torrent : Discrete H
  pub info_hash : H → TorrentId
  pub drop : H → L → L
  pub allow_data_download : H → L → L
  pub allow_data_upload : H → L → L
  pub disallow_data_download : H → L → L
  pub disallow_data_upload : H → L → L
  pub peer_conns : H → L → List ℕ
  pub webseed_peer_conns : H → L → List ℕ
  pub close_peer : ℕ → L → L
  pub info : H → L → Option Info
  pub metainfo : H → L → F
  pub info_hash_v2 : F → String
  pub verify_data : Context → H → Exec L (Unit {0})
  pub dht_servers : L → List ℕ
  pub announce_to_dht : H → ℕ → Exec L (Unit {0})
  pub files : H → L → List TorrentFile
  pub set_file_priority : H → ℕ → PiecePriority → L → L
  pub complete : H → L → ℕ → Bool
  pub piece_priority : H → L → ℕ → PiecePriority
  pub set_piece_priorities : H → (ℕ → PiecePriority) → L → L
  pub name : H → L → String
  pub length : H → L → ℕ
  pub bytes_completed : H → L → ℕ
  pub stats : H → L → Stats
  pub now : L → ℕ
  pub close_client : L → L × List Error
