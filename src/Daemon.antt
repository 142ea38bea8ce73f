-- ===== src/Daemon.antt =====
-- internal/daemon/daemon.go: the daemon's state and the steps that its operations are made of. The
-- control mutex makes each operation of Daemon/Controls.antt, Daemon/Add.antt and
-- Daemon/Schedule.antt one action on this state.
pub mod Records
pub mod Controls
pub mod Schedule
pub mod Add
pub mod Restore
pub mod Handler
pub mod Steady
pub mod Startup
pub mod Leaks
pub mod Effects
pub mod Limits
pub mod Params
pub mod Refusals
use torrcli.Base.{
  ℕ, ℤ, ◌≡◌, Bool, Option, none, some, String, List, [], ◌∷◌, ◌++◌, dec_str, lookup, put, erase,
  remove as delete, Result, ok, err, Exec, pure, fail, ignore, ◌>>=◌, ◌>>◌, Error, not_found,
}
use torrcli.Model.{Config, Session, TorrentId, TorrentRecord, TorrentSnapshot, zero_snapshot}
use torrcli.State.Files.{Files, Attempt, smooth, Codec}
use torrcli.State.Store.{save_session}
use torrcli.Platform.{Paths}
use torrcli.Engine.{Engine, Context, request, detached}
use torrcli.Torrents
use torrcli.Torrents.{SessionState}
use torrcli.Torrents.Loop.{Delivery, delivered, run}

-- `attempts` is what the operating system will answer to the next writes, and `deliveries` how the
-- next commands under a request's context will end; where a list is used up, all goes well.
pub record Daemon (E T : Type 0) : Type 0 where
  pub paths : Paths
  pub started : ℕ
  pub config : Config
  pub session : Session
  pub torrents : SessionState
  pub engine : E
  pub scheduled : List (TorrentId × Bool)
  pub files : Files T
  pub attempts : List Attempt
  pub deliveries : List Delivery

abbrev pub next_attempt : List Attempt → Attempt
next_attempt [] = smooth
next_attempt (a ∷ later) = a

abbrev pub next_delivery : List Delivery → Delivery
next_delivery [] = delivered
next_delivery (d ∷ ds) = d

abbrev pub rest {ℓ} : {A : Type ℓ} → List A → List A
rest [] = []
rest (x ∷ xs) = xs

-- Ranging over, reading and copying a nil slice or map is ranging over none.
abbrev pub items {ℓ} : {A : Type ℓ} → Option (List A) → List A
items none = []
items (some xs) = xs

-- `append([]T(nil), xs...)`: nil again where there is nothing to append.
abbrev pub copied {ℓ} : {A : Type ℓ} → List A → Option (List A)
copied [] = none
copied (x ∷ xs) = some (x ∷ xs)

unfoldable pub clone_session : Session → Session
clone_session session = record {
  order = copied (items session.order);
  torrents = some (items session.torrents);
}

module _ {E T A : Type 0} where
  -- A command to the goroutine of the torrent session.
  unfoldable pub run_torrents : Context → Exec SessionState A → Exec (Daemon E T) A
  unfolding run
  run_torrents request apply d =
      let r = run (next_delivery d.deliveries) apply d.torrents in
      (record d { torrents = r.0; deliveries = rest d.deliveries }, r.1)
  run_torrents detached apply d = let r = apply d.torrents in (record d { torrents = r.0 }, r.1)

  unfoldable pub call_engine : Exec E A → Exec (Daemon E T) A
  call_engine m d = let r = m d.engine in (record d { engine = r.0 }, r.1)

module _ {E T : Type 0} where
  unfoldable pub get_torrent : Context → TorrentId → Exec (Daemon E T) TorrentSnapshot
  unfolding run_torrents Torrents.get
  get_torrent context id = run_torrents context (Torrents.get id)

  -- `_ = d.torrents.put(…)`.
  unfoldable pub put_torrent : Context → TorrentSnapshot → Exec (Daemon E T) (Unit {0})
  unfolding run_torrents Torrents.put
  put_torrent context torrent = ignore (run_torrents context (Torrents.put torrent))

  -- `delete(d.scheduled, id)`.
  unfoldable pub unschedule : TorrentId → Exec (Daemon E T) (Unit {0})
  unschedule id d = (record d { scheduled = delete dec_str id d.scheduled }, ok tt)

  abbrev pub set_session : Session → Exec (Daemon E T) (Unit {0})
  set_session session d = (record d { session = session }, ok tt)

module _ {E T : Type 0} (codec : Codec Session T) where
  -- `state.SaveSession(d.paths.SessionFile, session)`.
  unfoldable pub save : Session → Exec (Daemon E T) (Unit {0})
  save session d =
      let r = save_session codec (next_attempt d.attempts) session d.files in
      (record d { files = r.0; attempts = rest d.attempts }, r.1)

  unfoldable pub replace_session : Session → Exec (Daemon E T) (Unit {0})
  unfolding save
  replace_session session = do save session; set_session session
