-- ===== src/Lib.antt =====
-- torrcli: a torrent daemon (torrd) and its clients.
--
-- The daemon keeps a session, which torrents there are, in which order, and what their user wants
-- of them. It saves the session to a JSON file at every change (internal/state), hands the torrents
-- to an engine (internal/engine) and shows snapshots of them, which one goroutine owns
-- (internal/daemon/session.go). Clients send requests over a socket, a line each (internal/rpc). A
-- request is one operation of internal/daemon/controls.go or rpc.go, under the control mutex; once a
-- second the scheduler (internal/daemon/scheduler.go) decides, under the same mutex, which torrents
-- run.
--
-- Base          lists and their members, maps as association lists, texts, signed integers;
--               Base/Outcome: Go calls that
--               return a value and an error, with the state beside both; Base/Outcome/Triple: what
--               an action does to a property of the state.
-- Model         internal/model: the data.
-- State         internal/state/store.go: State/Validate the validation, with its children that say
--               what it accepts; State/Files readJSON and writeJSON over a file and its backup;
--               State/Store loading and saving; State/Store/Recovery what a load finds after a save.
-- Platform      internal/platform/paths.go.
-- Torrents      internal/daemon/session.go: the commands as functions on the state; Torrents/Order and
--               Torrents/View what they keep and promise, Torrents/Commands sequences of them,
--               Torrents/Distinct what a list has; Torrents/Loop the goroutine, one caller and the
--               shutdown as steps, Torrents/Loop/Serving what happens before a shutdown.
-- Engine        internal/engine/engine.go: the interface, as a record over an abstract state.
-- Rpc           internal/rpc: Rpc the protocol, Rpc/Server a connection, Rpc/Serving what it sends.
-- Client        internal/client/client.go: the calls over a connection.
-- Sequential    internal/engine/anacrolix/sequential.go: the pieces that sequential mode boosts.
-- Anacrolix     internal/engine/anacrolix: Anacrolix/Paths filepath's functions, Anacrolix/Disk and
--               Anacrolix/Library what is asked of the disk and of the torrent library;
--               Anacrolix/Removal (its children: where paths lead, what is touched) and
--               Anacrolix/Shared remove.go; Anacrolix/Migration storage.go; Anacrolix/Entries,
--               Anacrolix/Operations, Anacrolix/Snapshots and Anacrolix/Removing engine.go and
--               SetSequential, their children what the operations promise; Anacrolix/Composed and
--               Anacrolix/Knowing the daemon with this engine.
-- Daemon        internal/daemon: the daemon's state and the steps of its operations. Daemon/Records,
--               Daemon/Controls, Daemon/Add, Daemon/Restore and Daemon/Schedule are the operations,
--               Daemon/Handler is handleRPC, Daemon/Refusals its errors, Daemon/Params what the
--               methods accept, Daemon/Startup what
--               comes before. Daemon/Steady and its children say what the start, every request and
--               every round of the scheduler keep, Daemon/Limits how many torrents a round leaves
--               running, Daemon/Effects what an update has done, Daemon/Leaks what is not undone.
-- Tui           internal/tui: Update on every message and key, with the list of torrents, the
--               selection, the dialogs, the form for adding and the actions. An index out of range
--               would end the program; the flag `panicked` stands for that.
-- Tests         concrete states, and the theorems at them.
--
-- An operation is a function of a state that gives the next state and a result. Where the Go code
-- calls a thing outside the program, the state holds what it will answer: `attempts` are the outcomes
-- of the coming writes of a file (an error at any of their system calls), `deliveries` say whether the
-- coming commands to the goroutine are received and answered before their context ends, and the engine
-- is a record of functions on an abstract state, so that it may answer anything. JSON is a pair of
-- functions, and so are the conversions between numbers and texts. A nil slice or map is `none` where
-- the code tells it from an empty one, as validateSession does. A clone of the session shares the maps
-- of file priorities with the session in place, and a write through them is modelled
-- (Daemon/Records.shared_update). A call under context.WithoutCancel is always delivered in the
-- operations; what happens to it after the goroutine has stopped is in Torrents/Loop.
--
-- An int of the source is a ℤ or, where it cannot be negative, a ℕ: no sum of the modelled code comes
-- near the bounds of 64 bits, since offsets are 1 or -1 and counts are lengths of lists or bytes of
-- files. A float64 that is a quotient is taken as exact (Model.Progress, Anacrolix/Snapshots). There is
-- one loop on fuel, which goes up from a file to the download directory, with one round more
-- than the path has names, and gives none where that is not enough (Anacrolix/Removal/Ending); all
-- others run over lists, or over the pieces of a file.
--
-- The torrent library is a record of functions on what lies outside of the program, its own state
-- and the disk, so that it may answer anything; the reads of one operation of the engine are of one
-- state, since they are made under its mutex, and the library is only changed by the operation's
-- calls meanwhile. Paths are lists of names, as filepath cleans them where "/" is the separator. A range
-- over a Go map is a range over the list that models it, in the list's order.
--
-- Not modelled: the lock file, the socket, the signals and the wait groups of Run, logging, the
-- constructor of the engine, which only makes the library's client, the goroutine that ends an
-- announcement to the DHT after a while, the rest of the terminal interface (what a command of
-- it does once started, its timers, and rendering), and the commands, which parse flags and print.
pub mod Base
pub mod Model
pub mod State
pub mod Platform
pub mod Torrents
pub mod Engine
pub mod Rpc
pub mod Client
pub mod Daemon
pub mod Tests
pub mod Anacrolix
pub mod Sequential
pub mod Tui
