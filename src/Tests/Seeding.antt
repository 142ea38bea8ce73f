-- ===== src/Tests/Seeding.antt =====
-- A torrent library with two torrents of a file each, and a disk that takes what is asked of it.
use torrcli.Base.{
  ℕ, zero, suc, ◌+◌, pos, ◌≡◌, refl, arith, true, false, none, some, List, [], ◌∷◌, ℕ_discrete,
  dec_str, lookup, put, get_elem?, ok, err, not_exist, dec_list,
}
use torrcli.Model.{TorrentSnapshot, FileSnapshot, Session}
use torrcli.Model.Priorities
use torrcli.Model.States
use torrcli.Engine.{request}
use torrcli.Sequential.{update_sequential as update_boosted, PiecePriority, normal}
use torrcli.Daemon.{Daemon}
use torrcli.Daemon.Steady.Saving.{IsSteady}
use torrcli.Daemon.Steady.History.{arrival, tick, after}
use torrcli.Anacrolix.Paths.{
  Names, parent, split, join, clean, starts_with_slash, descend_all, descend, go_up, is_local,
}
use torrcli.Anacrolix.Disk.{Disk}
use torrcli.Anacrolix.Removal.{
  Info, directories_above, file_paths, torrent_file_path, torrent_file_paths,
}
use torrcli.Anacrolix.Removal.Inside.{Each, torrent_file_paths-Each}
use torrcli.Anacrolix.Removal.Ending.{Climbed, directories_above_end}
use torrcli.Anacrolix.Library.{Library, TorrentFile}
use torrcli.Anacrolix.Entries.{State, Entry, check, entry, called, boost_entry}
use torrcli.Anacrolix.Removing.{remove, engine}
use torrcli.Anacrolix.Removing.Outcomes.{Removed, remove-Removed}
use torrcli.Anacrolix.Composed.{after_engine-IsSteady}
use torrcli.Anacrolix.Operations.{info_of as known_info, set_file_priority}
use torrcli.Anacrolix.Priorities.{piece_priority}
use torrcli.Anacrolix.Operations.Shown.{KeepsPriorities, raised, priority_shown}
use torrcli.Anacrolix.Snapshots.{
  take_snapshot, snapshot_locked, snapshot, sampled, rate, eta, difference, state_of, details,
  details_of,
}
use torrcli.Anacrolix.Snapshots.Facts.{Taken, take_snapshot-Taken}
use torrcli.Tests.{plain_text, daemon_a, digits, json, remove_a, daemon_a-IsSteady}

-- The files of the torrents, and the names that were removed.
pub record World : Type 0 where
  pub files : List TorrentFile
  pub removed : List Names

abbrev pub toy_info : ℕ → Info
toy_info h = record {
  best_name = some (100 ∷ []);
  files = (((97 + h) ∷ []) ∷ []) ∷ [];
  piece_length = 16384;
  num_pieces = 1;
  has_pieces = true;
  meta_version = 1;
  is_private = none;
}

abbrev set_priority : ℕ → PiecePriority → List TorrentFile → List TorrentFile
set_priority i p [] = []
set_priority zero p (f ∷ fs) = record f { priority = p } ∷ fs
set_priority (suc i) p (f ∷ fs) = f ∷ set_priority i p fs

abbrev pub toy : Library World ℕ (Unit {0}) (Unit {0}) (Unit {0})
toy = record {
  context_error = λ c l. none;
  make_directory = λ p l. (l, ok tt);
  spec_from_magnet = λ s. ok tt;
  load_from_file = λ s l. (l, ok (record { file = tt; created_by = ""; comment = "" }));
  spec_from_metainfo = λ f. ok tt;
  new_file_storage = λ p l. (l, tt);
  close_storage = λ s l. (l, ok tt);
  add_torrent_spec = λ x l. (l, ok (0, true));
  same_torrent = ℕ_discrete;
  info_hash = λ h. "a";
  drop = λ h l. l;
  allow_data_download = λ h l. l;
  allow_data_upload = λ h l. l;
  disallow_data_download = λ h l. l;
  disallow_data_upload = λ h l. l;
  peer_conns = λ h l. [];
  webseed_peer_conns = λ h l. [];
  close_peer = λ p l. l;
  info = λ h l. some (toy_info h);
  metainfo = λ h l. tt;
  info_hash_v2 = λ f. "";
  verify_data = λ c h l. (l, ok tt);
  dht_servers = λ l. [];
  announce_to_dht = λ h s l. (l, ok tt);
  files = λ h l. l.files;
  set_file_priority = λ h i p l. record l { files = set_priority i p l.files };
  complete = λ h l i. false;
  piece_priority = λ h l i. normal;
  set_piece_priorities = λ h g l. l;
  name = λ h l. "a";
  length = λ h l. 1000;
  bytes_completed = λ h l. 100;
  stats = λ h l. record {
    bytes_read = 500;
    bytes_written = 0;
    active_peers = 3;
    connected_seeders = 1;
  };
  now = λ l. 3000000000;
  close_client = λ l. (l, []);
}

abbrev pub shelf : Disk World (Unit {0})
shelf = record {
  open_root = λ p l. (l, ok tt);
  close_root = λ r l. l;
  lstat = λ r p l. (l, err not_exist);
  link = λ r p q l. (l, ok tt);
  remove = λ r p l. (record l { removed = p ∷ l.removed }, ok tt);
  eval_symlinks = λ p l. (l, ok p);
  abs = λ p l. (l, ok ((115 ∷ []) ∷ []));
}

abbrev file_a : TorrentFile
file_a = record {
  display_path = "a";
  length = 1000;
  bytes_completed = 100;
  priority = normal;
  begin_piece = 0;
  end_piece = 1;
}

abbrev pub entry_of : ℕ → Entry ℕ (Unit {0}) (Unit {0})
entry_of h = record {
  torrent = h;
  storage = tt;
  save_path = "/data";
  meta_info = none;
  added_at = 1;
  file_priorities = [];
  sequential = false;
  boosted = [];
  paused = false;
  last_download = 100;
  last_upload = 0;
  last_download_rate = pos 0;
  last_upload_rate = pos 0;
  last_sample = 1000000000;
}

abbrev pub world : World
world = record { files = file_a ∷ []; removed = [] }

abbrev pub seedbox : State World ℕ (Unit {0}) (Unit {0})
seedbox = record { outside = world; torrents = ("a", entry_of 0) ∷ ("b", entry_of 1) ∷ [] }

-- "d/a" and "d/b".
abbrev pub path_of : ℕ → Names
path_of h = (100 ∷ []) ∷ ((97 + h) ∷ []) ∷ []

pub path_found : torrent_file_paths (toy_info 0) ≡ ok (path_of 0 ∷ [])
unfolding torrent_file_paths file_paths torrent_file_path join clean starts_with_slash split
    descend_all descend go_up is_local parent dec_list ℕ_discrete
path_found = refl

pub path_found_b : torrent_file_paths (toy_info 1) ≡ ok (path_of 1 ∷ [])
unfolding torrent_file_paths file_paths torrent_file_path join clean starts_with_slash split
    descend_all descend go_up is_local parent dec_list ℕ_discrete
path_found_b = refl

torrent_file_paths-Each_example : Each (toy_info 0) (toy_info 0).files (path_of 0 ∷ [])
torrent_file_paths-Each_example = torrent_file_paths-Each (toy_info 0) (path_of 0 ∷ []) path_found

abbrev pub daemon_s : Daemon (State World ℕ (Unit {0}) (Unit {0})) Session
daemon_s = record {
  paths = daemon_a.paths;
  started = 0;
  config = daemon_a.config;
  session = daemon_a.session;
  torrents = daemon_a.torrents;
  engine = seedbox;
  scheduled = [];
  files = daemon_a.files;
  attempts = [];
  deliveries = [];
}

remove-Removed_example : Removed toy shelf "a" seedbox (remove toy shelf request "a" true seedbox)
remove-Removed_example = remove-Removed toy shelf request "a" true seedbox

after_engine-IsSteady_example :
    IsSteady plain_text (
      after
        (engine toy shelf)
        plain_text
        digits
        json
        (tick ∷ arrival remove_a ∷ tick ∷ [])
        daemon_s)
after_engine-IsSteady_example =
    after_engine-IsSteady toy shelf plain_text digits json (tick ∷ arrival remove_a ∷ tick ∷ [])
      daemon_s
      (record {
        valid = daemon_a-IsSteady.valid;
        saved = daemon_a-IsSteady.saved;
        synced = daemon_a-IsSteady.synced;
        ordered = daemon_a-IsSteady.ordered;
        keyed = daemon_a-IsSteady.keyed;
        calm = daemon_a-IsSteady.calm;
      })

toy-KeepsPriorities : KeepsPriorities toy
toy-KeepsPriorities = record {
  sets = λ t i p l f h. set i p l.files f h;
  keeps_files = λ t g l. refl;
  keeps_info = λ t g l. refl;
  keeps_info_of_files = λ t i p l. refl;
}
  where
    set :
        (i : ℕ) (p : PiecePriority) (fs : List TorrentFile) (f : TorrentFile)
        → get_elem? fs i ≡ some f
        → get_elem? (set_priority i p fs) i ≡ some (record f { priority = p })
    set i p [] f h = absurd (ground (arith, h))
    set zero p (g ∷ fs) f h = ground (arith, h)
    set (suc i) p (g ∷ fs) f h = set i p fs f h

directories_above_end_example : Climbed (directories_above 5 (path_of 0) []) (path_of 0) []
directories_above_end_example = directories_above_end 4 (path_of 0) [] (omega arith)

told : (set_file_priority toy request "a" (pos 0) Priorities.high seedbox).1 ≡ ok tt
unfolding set_file_priority check entry called known_info piece_priority lookup dec_str
told = refl

abbrev after_told : State World ℕ (Unit {0}) (Unit {0})
after_told = (set_file_priority toy request "a" (pos 0) Priorities.high seedbox).0

-- The entry with the priority of its file.
abbrev entry_of_a : Entry ℕ (Unit {0}) (Unit {0})
entry_of_a = record (entry_of 0) { file_priorities = (0, Priorities.high) ∷ [] }

listed :
    (details toy request "a" after_told).1 ≡ ok (details_of toy "a" entry_of_a after_told.outside)
unfolding details set_file_priority check entry called known_info piece_priority lookup dec_str put
listed = refl

abbrev snapshot_a : TorrentSnapshot
snapshot_a = record {
  id = "a";
  name = "a";
  state = States.downloading;
  progress = record { completed = 100; total = 1000 };
  download_rate = pos 200;
  upload_rate = pos 0;
  eta_seconds = pos 5;
  connected_peers = pos 3;
  seeders = pos 1;
  leechers = pos 2;
  sequential = false;
  added_at = 1;
  error = "";
}

taken : (take_snapshot toy request "a" seedbox).1 ≡ ok snapshot_a
unfolding take_snapshot snapshot_locked snapshot sampled rate eta difference state_of check entry
    boost_entry update_boosted lookup dec_str
taken = refl

take_snapshot-Taken_example :
    Taken toy "a" seedbox (take_snapshot toy request "a" seedbox).0 snapshot_a
take_snapshot-Taken_example = take_snapshot-Taken toy request "a" seedbox snapshot_a taken

priority_shown_example :
    (u : FileSnapshot) × (get_elem? (details_of toy "a" entry_of_a after_told.outside).files 0
      ≡ some u)
    × (u.priority ≡ Priorities.high)
    × (u.index ≡ 0)
priority_shown_example =
    priority_shown toy request request "a" 0 Priorities.high seedbox
      (details_of toy "a" entry_of_a after_told.outside) toy-KeepsPriorities raised told listed
