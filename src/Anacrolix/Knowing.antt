-- ===== src/Anacrolix/Knowing.antt =====
-- internal/engine/anacrolix/engine.go: the torrents that the engine has, while the scheduler pauses,
-- resumes and looks at torrents.
use torrcli.Base.{◌≡◌, none, some, dec_str, lookup}
use torrcli.Model.{TorrentId}
use torrcli.Engine.{request}
use torrcli.Daemon.{Daemon}
use torrcli.Anacrolix.Disk.{Disk}
use torrcli.Anacrolix.Library.{Library}
use torrcli.Anacrolix.Entries.{State, Entry}

-- `e.torrents` has an entry of the torrent.
abbrev pub Has : {L H S F : Type 0} → State L H S F → TorrentId → Type 0
Has {H = H} {S = S} {F = F} s id = (e : Entry H S F) × (lookup dec_str id s.torrents ≡ some e)

module _ {L H S M F R : Type 0} (library : Library L H S M F) (disk : Disk L R) where
  -- The scheduler's context is not done.
  abbrev pub IsLive : Type 0
  IsLive = (l : L) → library.context_error request l ≡ none
