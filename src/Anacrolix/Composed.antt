-- ===== src/Anacrolix/Composed.antt =====
-- The daemon with the engine that the program is built with.
use torrcli.Base.{List}
use torrcli.Model.{Session}
use torrcli.State.Files.{Codec}
use torrcli.Daemon.{Daemon}
use torrcli.Daemon.Controls.{Strconv}
use torrcli.Daemon.Handler.{Decoders}
use torrcli.Daemon.Steady.Saving.{IsSteady}
use torrcli.Daemon.Steady.Adding.{IsNamed}
use torrcli.Daemon.Steady.History.{Event, after, after-IsSteady}
use torrcli.Anacrolix.Disk.{Disk}
use torrcli.Anacrolix.Library.{Library}
use torrcli.Anacrolix.Entries.{State}
use torrcli.Anacrolix.Removing.{engine}
use torrcli.Anacrolix.Snapshots.Facts.{take_snapshot-Taken}

module _ {L H S M F R : Type 0} (library : Library L H S M F) (disk : Disk L R) where
  pub engine-IsNamed : IsNamed (engine library disk)
  unfolding engine
  engine-IsNamed = record {
    named = λ c id s t h. (take_snapshot-Taken library c id s t h).true_of.named;
  }

  -- With this engine, a steady daemon stays steady, whatever requests come, whenever the scheduler
  -- runs between them, and whatever the torrent library and the disk under it answer.
  pub after_engine-IsSteady :
      {T Q : Type 0} (codec : Codec Session T) (strconv : Strconv) (json : Decoders Q)
      (events : List (Event Q)) (d : Daemon (State L H S F) T)
      → IsSteady codec d
      → IsSteady codec (after (engine library disk) codec strconv json events d)
  after_engine-IsSteady codec strconv json events d h =
      after-IsSteady (engine library disk) codec strconv json events d engine-IsNamed h
