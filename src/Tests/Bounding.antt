-- ===== src/Tests/Bounding.antt =====
-- A round of the scheduler over an engine of two torrents.
use torrcli.Base.{ℕ, pos, put as put_entry}
use torrcli.Model.{Session, default_config}
use torrcli.Daemon.{Daemon}
use torrcli.Anacrolix.Entries.{State}
use torrcli.Tests.Seeding.{World, daemon_s}

abbrev daemon_t : Daemon (State World ℕ (Unit {0}) (Unit {0})) Session
daemon_t = record daemon_s {
  config = record (default_config "/data") { max_active_downloads = pos 1 };
}
