-- ===== src/Tests/Storing.antt =====
-- Saving and loading.
use torrcli.Base.{
  ◌↔◌, ◌≡◌, ◌≢◌, ◌⊎◌, refl, arith, none, some, List, dec_str, lookup, present, ok, canceled,
}
use torrcli.Model.{Config, TorrentId, TorrentRecord, default_config, default_session}
use torrcli.State.Files.{
  File, absent, holds, Files, Attempt, smooth, write_json, read_json, back_up, install,
}
use torrcli.State.Validate.{validate_config, validate_session}
use torrcli.State.Validate.Complete.{IsMap, IsValidSession, validate_session_iff}
use torrcli.State.Store.{save_config, load_or_create_config, save_session, load_or_create_session}
use torrcli.State.Store.Recovery.{
  load-save, save_failure, load-valid, session_lost, load-save_config, load_config-valid,
}
use torrcli.Tests.{session_a, plain_text, empty_disk, disk_a, session_a-valid}

save_a : save_session plain_text smooth session_a empty_disk ≡ (disk_a, ok tt)
unfolding save_session write_json back_up install
save_a = rw (session_a-valid, save_session) refl

load_a : (load_or_create_session plain_text smooth disk_a).1 ≡ ok session_a
unfolding load_or_create_session read_json
load_a = rw (session_a-valid, load_or_create_session) refl

load-save_example :
    (load_or_create_session plain_text smooth disk_a ≡ (disk_a, ok session_a))
    × ((empty_disk.main ≢ absent) → disk_a.backup ≡ empty_disk.main)
load-save_example = load-save plain_text smooth smooth session_a empty_disk disk_a refl save_a

abbrev broken : Attempt
broken = record smooth { rename = some canceled }

broken-fails : (save_session plain_text broken session_a disk_a).1 ≢ ok tt
unfolding save_session write_json back_up install
broken-fails = ground (arith, session_a-valid)

save_failure_example :
    ((save_session plain_text broken session_a disk_a).0 ≡ disk_a)
    ⊎ ((disk_a.main ≢ absent)
        × ((save_session plain_text broken session_a disk_a).0.main ≡ absent)
        × ((save_session plain_text broken session_a disk_a).0.backup ≡ disk_a.main))
save_failure_example = save_failure plain_text broken session_a disk_a broken-fails

load-valid_example : validate_session session_a ≡ none
load-valid_example = load-valid plain_text smooth disk_a session_a load_a

session_lost_example :
    let failed = (save_session plain_text broken session_a disk_a).0 in
    let loaded = load_or_create_session plain_text smooth failed in
    (failed.backup ≡ holds session_a)
    × (loaded.1 ≡ ok default_session)
    × (loaded.0.main ≡ holds default_session)
    × ((save_session plain_text smooth session_a loaded.0).0.backup ≡ holds default_session)
session_lost_example =
    session_lost plain_text session_a canceled session_a session_a disk_a refl session_a-valid
      session_a-valid

IsMap-a :
    (torrents : List (TorrentId × TorrentRecord))
    → session_a.torrents ≡ some torrents
    → IsMap torrents
unfolding present lookup
IsMap-a torrents e k = ground arith

validate_session_iff_example : (validate_session session_a ≡ none) ↔ IsValidSession session_a
validate_session_iff_example = validate_session_iff session_a IsMap-a

abbrev config_a : Config
config_a = default_config "/data"

abbrev config_disk : File Config → Files Config
config_disk main = record { main = main; backup = absent }

save_config_a :
    save_config plain_text smooth config_a (config_disk absent)
    ≡ (config_disk (holds config_a), ok tt)
unfolding save_config write_json back_up install validate_config default_config dec_str
save_config_a = refl

load-save_config_example :
    load_or_create_config plain_text smooth "/other" (config_disk (holds config_a))
    ≡ (config_disk (holds config_a), ok config_a)
load-save_config_example =
    load-save_config plain_text smooth smooth config_a "/other" (config_disk absent)
      (config_disk (holds config_a)) refl save_config_a

load_config_a :
    (load_or_create_config plain_text smooth "/data" (config_disk absent)).1 ≡ ok config_a
unfolding load_or_create_config read_json save_config write_json back_up install validate_config
    default_config dec_str
load_config_a = refl

load_config-valid_example : validate_config config_a ≡ none
load_config-valid_example =
    load_config-valid plain_text smooth config_a "/data" (config_disk absent) load_config_a
