-- ===== src/Client.antt =====
-- internal/client/client.go: the calls of a client, a connection for each.
pub mod Served
use torrcli.Base.{
  ℤ, Bool, String, Option, none, some, List, Result, ok, err, Exec, pure, fail, lift, ◌>>=◌, ◌>>◌,
  Error, plain, wrap,
}
use torrcli.Model.{TorrentId, TorrentSnapshot, TorrentDetails}
use torrcli.Rpc.{
  version, Request, Message, Reply, reply, refuse, Response, AddTorrentParams, MoveTorrentParams,
  RemoveTorrentParams, SetFilePriorityParams, SetSequentialParams,
}
use torrcli.Daemon.Handler.{DaemonInfo}

-- The connection and the JSON on it, over the state `S` of what is at its other end. `one` is the
-- text of the ID, and `no_params` that of parameters left out.
pub record Link (R A S : Type 0) : Type 0 where
  pub dial : Exec S (Unit {0})
  pub send : Request R → Exec S (Unit {0})
  pub receive : Exec S (Response R A)
  pub marshal : A → Result R
  pub text_of : Message → String
  pub one : R
  pub no_params : R

-- json.Marshal of each type of parameters.
pub record Encoders (R : Type 0) : Type 0 where
  pub add : AddTorrentParams → Result R
  pub torrent : TorrentId → Result R
  pub move : MoveTorrentParams → Result R
  pub remove : RemoveTorrentParams → Result R
  pub priority : SetFilePriorityParams → Result R
  pub sequential : SetSequentialParams → Result R

-- json.Unmarshal into each type of results.
pub record Results (R : Type 0) : Type 0 where
  pub ping : R → Result String
  pub info : R → Result DaemonInfo
  pub torrent : R → Result TorrentSnapshot
  pub torrents : R → Result (List TorrentSnapshot)
  pub details : R → Result TorrentDetails
  pub nothing : R → Result (Unit {0})

-- `fmt.Errorf("verb %s …: %w", method, err)` round a result.
abbrev named : {A : Type 0} → String → String → Result A → Result A
named verb method (ok a) = ok a
named verb method (err e) = err (wrap verb (wrap method e))

module _ {S A : Type 0} where
  abbrev naming : String → String → Exec S A → Exec S A
  naming verb method m s = ((m s).0, named verb method (m s).1)

module _ {R A S : Type 0} (link : Link R A S) where
  -- `if params != nil { … }`.
  abbrev encoded : String → Option (Result R) → Result R
  encoded method none = ok link.no_params
  encoded method (some r) = named "encode params" method r

  -- What is made of the response.
  abbrev pub result_of : {B : Type 0} → String → (R → Result B) → Reply A → Exec S B
  result_of method decode (refuse e) = fail (plain (link.text_of e.message))
  result_of method decode (reply a) = do
    text ← lift (named "encode result" method (link.marshal a))
    lift (named "decode result" method (decode text))

  -- The error of dialling is wrapped without a method.
  abbrev connect : Exec S (Unit {0})
  connect s = ((link.dial s).0, connected (link.dial s).1)
    where
      connected : Result (Unit {0}) → Result (Unit {0})
      connected (ok u) = ok u
      connected (err e) = err (wrap "connect to torrd" e)

  unfoldable pub call : {B : Type 0} → String → Option (Result R) → (R → Result B) → Exec S B
  call method params decode = do
    connect
    text ← lift (encoded method params)
    naming "write" method (
        link.send
          (record { jsonrpc = version; id = some link.one; method = method; params = text }))
    response ← naming "read response" method link.receive
    result_of method decode response.body

module _ {R A S : Type 0} (link : Link R A S) (encode : Encoders R) (decode : Results R) where
  unfoldable pub ping : Exec S String
  ping = call link "daemon.ping" none decode.ping

  unfoldable pub info : Exec S DaemonInfo
  info = call link "daemon.info" none decode.info

  unfoldable pub add : AddTorrentParams → Exec S TorrentSnapshot
  add params = call link "torrent.add" (some (encode.add params)) decode.torrent

  unfoldable pub list : Exec S (List TorrentSnapshot)
  list = call link "torrent.list" none decode.torrents

  unfoldable pub details : TorrentId → Exec S TorrentDetails
  details id = call link "torrent.get" (some (encode.torrent id)) decode.details

  unfoldable pub move : MoveTorrentParams → Exec S (List TorrentSnapshot)
  move params = call link "torrent.move" (some (encode.move params)) decode.torrents

  unfoldable pub torrent_call : String → Result R → Exec S TorrentSnapshot
  torrent_call method params = call link method (some params) decode.torrent

  unfoldable pub pause : TorrentId → Exec S TorrentSnapshot
  pause id = torrent_call "torrent.pause" (encode.torrent id)

  unfoldable pub resume : TorrentId → Exec S TorrentSnapshot
  resume id = torrent_call "torrent.resume" (encode.torrent id)

  unfoldable pub verify : TorrentId → Exec S TorrentSnapshot
  verify id = torrent_call "torrent.verify" (encode.torrent id)

  unfoldable pub find_peers : TorrentId → Exec S (Unit {0})
  find_peers id = call link "torrent.find_peers" (some (encode.torrent id)) decode.nothing

  unfoldable pub set_file_priority : SetFilePriorityParams → Exec S TorrentSnapshot
  set_file_priority params = torrent_call "torrent.set_file_priority" (encode.priority params)

  unfoldable pub remove : RemoveTorrentParams → Exec S (Unit {0})
  remove params = call link "torrent.remove" (some (encode.remove params)) decode.nothing

  unfoldable pub set_sequential : SetSequentialParams → Exec S TorrentSnapshot
  set_sequential params = torrent_call "torrent.set_sequential" (encode.sequential params)
