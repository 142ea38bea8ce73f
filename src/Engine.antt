-- ===== src/Engine.antt =====
-- internal/engine/engine.go: what the daemon asks of a torrent engine. Its state is abstract; an
-- operation returns the new state beside its result. `Events` and `Close` are left out: the daemon
-- reads no event, and closes the engine when it ends.
use torrcli.Base.{ℤ, Bool, Exec}
use torrcli.Model.{TorrentId, FilePriority, AddInput, TorrentSnapshot, TorrentDetails}

-- The context of a call: the request's own, which may end at any time, or
-- `context.WithoutCancel` of it.
pub data Context : Type 0 where
  request detached : Context

pub record Engine (E : Type 0) : Type 0 where
  pub add : Context → AddInput → Exec E (TorrentId × Bool)
  pub pause : Context → TorrentId → Exec E (Unit {0})
  pub resume : Context → TorrentId → Exec E (Unit {0})
  pub verify : Context → TorrentId → Exec E (Unit {0})
  pub find_peers : Context → TorrentId → Exec E (Unit {0})
  pub remove : Context → TorrentId → Bool → Exec E (Unit {0})
  pub set_sequential : Context → TorrentId → Bool → Exec E (Unit {0})
  pub set_file_priority : Context → TorrentId → ℤ → FilePriority → Exec E (Unit {0})
  pub snapshot : Context → TorrentId → Exec E TorrentSnapshot
  pub details : Context → TorrentId → Exec E TorrentDetails
