-- ===== src/Anacrolix/Snapshots.antt =====
-- internal/engine/anacrolix/engine.go: what is told of a torrent. A float64 that is a quotient is
-- taken as exact.
pub mod Facts
use torrcli.Base.{
  ℕ, zero, suc, ◌+◌, ◌-◌, ◌*◌, ◌/◌, ℤ, pos, negsuc, Bool, true, false, ◌&&◌, Option, none, some,
  String, List, [], ◌∷◌, ltb, leb, if◌then◌else◌, Exec, ok, pure, ◌>>=◌, ◌>>◌, put, dec_str,
}
use torrcli.Model.{
  TorrentId, TorrentState, TorrentSnapshot, TorrentDetails, TorrentInfo, FileSnapshot,
}
use torrcli.Model.States
use torrcli.Engine.{Context}
use torrcli.Anacrolix.Removal.{Info}
use torrcli.Anacrolix.Library.{Library, MetaInfo, TorrentFile, Stats}
use torrcli.Anacrolix.Priorities.{file_priority}
use torrcli.Anacrolix.Entries.{State, Entry, entry, check, boost_entry}

-- `int64(float64(new-old) / seconds)`, the quotient cut off towards 0.
abbrev negated : ℕ → ℤ
negated zero = pos 0
negated (suc n) = negsuc n

unfoldable pub rate : ℕ → ℕ → ℕ → ℤ
rate new old nanoseconds =
    if leb old new
    then pos ((new - old) * 1000000000 / nanoseconds)
    else negated ((old - new) * 1000000000 / nanoseconds)

-- `int64(math.Ceil(float64(remaining) / float64(rate)))`, 0 where nothing remains or comes in.
unfoldable pub eta : ℕ → ℤ → ℕ
eta remaining (negsuc n) = 0
eta remaining (pos zero) = 0
eta remaining (pos (suc n)) = (remaining + n) / suc n

-- The difference of two counts.
unfoldable pub difference : ℕ → ℕ → ℤ
difference a b = if leb b a then pos (a - b) else negated (b - a)

unfoldable pub state_of : Bool → Option Info → ℕ → ℕ → TorrentState
state_of true info completed length = States.paused
state_of false none completed length = States.fetching_metadata
state_of false (some info) completed length =
    if leb length completed then States.seeding else States.downloading

module _ {L H S M F : Type 0} (library : Library L H S M F) where
  unfoldable pub snapshot : TorrentId → Entry H S F → ℤ → ℤ → L → TorrentSnapshot
  unfolding eta difference state_of
  snapshot id e download_rate upload_rate l =
      let t = e.torrent in
      let completed = library.bytes_completed t l in
      let length = library.length t l in
      let stats = library.stats t l in
      record {
        id = id;
        name = library.name t l;
        state = state_of e.paused (library.info t l) completed length;
        progress = record { completed = completed; total = length };
        download_rate = download_rate;
        upload_rate = upload_rate;
        eta_seconds = pos (eta (length - completed) download_rate);
        connected_peers = pos stats.active_peers;
        seeders = pos stats.connected_seeders;
        leechers = difference stats.active_peers stats.connected_seeders;
        sequential = e.sequential;
        added_at = e.added_at;
        error = "";
      }

  -- The entry with the next sample: no rate at the first, and none where no time has passed.
  unfoldable pub sampled : Entry H S F → L → Entry H S F
  unfolding rate
  sampled e l =
      let stats = library.stats e.torrent l in
      let now = library.now l in
      let measured = ltb 0 e.last_sample && ltb e.last_sample now in
      record e {
        last_download = stats.bytes_read;
        last_upload = stats.bytes_written;
        last_sample = now;
        last_download_rate =
            if measured then rate stats.bytes_read e.last_download (now - e.last_sample) else pos 0;
        last_upload_rate =
            if measured
            then rate stats.bytes_written e.last_upload (now - e.last_sample)
            else pos 0;
      }

  unfoldable pub snapshot_locked : TorrentId → Entry H S F → Exec (State L H S F) TorrentSnapshot
  unfolding boost_entry sampled snapshot
  snapshot_locked id e s =
      let (l, boosted) = boost_entry library e s.outside in
      let e' = sampled boosted l in
      (
        record { outside = l; torrents = put dec_str id e' s.torrents },
        ok (snapshot id e' e'.last_download_rate e'.last_upload_rate l),
      )

  -- `Snapshot`.
  unfoldable pub take_snapshot : Context → TorrentId → Exec (State L H S F) TorrentSnapshot
  unfolding check entry snapshot_locked
  take_snapshot context id = do check library context; e ← entry id; snapshot_locked id e

  abbrev created_by_of : Option (MetaInfo F) → String
  created_by_of none = ""
  created_by_of (some meta) = meta.created_by

  abbrev comment_of : Option (MetaInfo F) → String
  comment_of none = ""
  comment_of (some meta) = meta.comment

  unfoldable pub file_snapshots : ℕ → List TorrentFile → List FileSnapshot
  unfolding file_priority
  file_snapshots index [] = []
  file_snapshots index (f ∷ fs) =
      record {
        index = index;
        path = f.display_path;
        length = f.length;
        completed = f.bytes_completed;
        priority = file_priority f.priority;
      }
      ∷ file_snapshots (suc index) fs

  abbrev no_info : String → TorrentInfo
  no_info save_path = record {
    save_path = save_path;
    total_size = 0;
    piece_length = 0;
    piece_count = 0;
    info_hash_v1 = "";
    info_hash_v2 = "";
    created_by = "";
    comment = "";
  }

  unfoldable pub details_of : TorrentId → Entry H S F → L → TorrentDetails
  unfolding snapshot file_snapshots
  details_of id e l =
      let told = snapshot id e e.last_download_rate e.last_upload_rate l in
      elim (library.info e.torrent l) [
        | none ↦ record { torrent = told; info = no_info e.save_path; files = [] }
        | some info ↦ record {
          torrent = told;
          info = record {
            save_path = e.save_path;
            total_size = library.length e.torrent l;
            piece_length = info.piece_length;
            piece_count = info.num_pieces;
            info_hash_v1 = if info.has_pieces then library.info_hash e.torrent else "";
            info_hash_v2 =
                if leb 2 info.meta_version
                then library.info_hash_v2 (library.metainfo e.torrent l)
                else "";
            created_by = created_by_of e.meta_info;
            comment = comment_of e.meta_info;
          };
          files = file_snapshots 0 (library.files e.torrent l);
        }
      ]

  -- `Details`.
  unfoldable pub details : Context → TorrentId → Exec (State L H S F) TorrentDetails
  unfolding check entry details_of
  details context id = do
    check library context
    e ← entry id
    λ s. (s, ok (details_of id e s.outside))
