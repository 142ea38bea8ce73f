-- ===== src/Tests/Running.antt =====
-- Runs of the daemon.
use torrcli.Base.{
  inr, ap, ite, true, false, ℕ, ◌+◌, ◌≡◌, ◌≢◌, refl, arith, String, Option, none, some, List, [],
  ◌∷◌, dec_str, lookup, put, Result, ok, err, canceled,
}
use torrcli.Model.{Config, Session, TorrentRecord, default_config, default_session}
use torrcli.Model.Priorities
use torrcli.State.Files.{Files, holds, absent, smooth, write_json}
use torrcli.State.Store.{save_session}
use torrcli.Rpc.{Request, Reply, Response, reply, version}
use torrcli.Rpc.Server.{Wire}
use torrcli.Client.{Link, call, result_of}
use torrcli.Client.Served.{served, call-served}
use torrcli.Daemon.{Daemon, items, clone_session, replace_session, save}
use torrcli.Model.States
use torrcli.Model.{TorrentId}
use torrcli.Daemon.Effects.{update_record-done}
use torrcli.Daemon.Steady.Records.{update_record-Updated}
use torrcli.Daemon.Records.{Update, apply_update, desired_state, file_priority, update_record}
use torrcli.Daemon.Leaks.{priority_leaks, empty_clone_refused}
use torrcli.Daemon.Steady.Saving.{IsSteady}
use torrcli.Daemon.Steady.History.{Event, arrival, tick, after, after-IsSteady}
use torrcli.Tests.{
  record_a, session_a, plain_text, willing, willing-IsNamed, daemon_a, digits, json, pause_a,
  remove_a, daemon_a-IsSteady,
}

abbrev day : List (Event String)
day = tick ∷ arrival pause_a ∷ tick ∷ arrival remove_a ∷ tick ∷ []

after-IsSteady_example : IsSteady plain_text (after willing plain_text digits json day daemon_a)
after-IsSteady_example =
    after-IsSteady willing plain_text digits json day daemon_a willing-IsNamed daemon_a-IsSteady

abbrev config_disk : Files Config
config_disk = record { main = holds (default_config "/data"); backup = absent }

abbrev record_p : TorrentRecord
record_p = record record_a { file_priorities = some (("0", Priorities.normal) ∷ []) }

abbrev daemon_p : Daemon (Unit {0}) Session
daemon_p = record daemon_a {
  session = record { order = some ("a" ∷ []); torrents = some (("a", record_p) ∷ []) };
  attempts = record smooth { sync = some canceled } ∷ [];
}

found : lookup dec_str "a" (items daemon_p.session.torrents) ≡ some record_p
unfolding lookup dec_str
found = refl

unsaved : (update_record plain_text "a" (file_priority "0" Priorities.high) daemon_p).1 ≢ ok tt
unfolding update_record save save_session write_json
unsaved = ground (arith, found)

priority_leaks_example :
    lookup dec_str "a" (
      items
        (update_record plain_text "a"
          (file_priority "0" Priorities.high)
          daemon_p).0.session.torrents)
    ≡ some (record record_p {
      file_priorities = some (put dec_str "0" Priorities.high (("0", Priorities.normal) ∷ []));
    })
priority_leaks_example =
    priority_leaks plain_text "a" "0" Priorities.high daemon_p record_p
      (("0", Priorities.normal) ∷ []) found refl unsaved

found_a : lookup dec_str "a" (items daemon_a.session.torrents) ≡ some record_a
unfolding lookup dec_str
found_a = refl

abbrev to_paused : Update
to_paused = desired_state States.paused

pausing : (update_record plain_text "a" to_paused daemon_a).1 ≡ ok tt
pausing =
    (update_record-Updated plain_text "a" to_paused daemon_a record_a (inr refl) daemon_a-IsSteady
      found_a).succeeds

update_record-done_example :
    (r : TorrentRecord) × (lookup dec_str "a" (items daemon_a.session.torrents) ≡ some r)
    × (lookup dec_str "a"
          (items (update_record plain_text "a" to_paused daemon_a).0.session.torrents)
        ≡ some (apply_update to_paused r))
    × ((j : TorrentId)
        → "a" ≢ j
        → lookup dec_str j
            (items (update_record plain_text "a" to_paused daemon_a).0.session.torrents)
          ≡ lookup dec_str j (items daemon_a.session.torrents))
    × ((update_record plain_text "a" to_paused daemon_a).0.torrents ≡ daemon_a.torrents)
    × ((update_record plain_text "a" to_paused daemon_a).0.engine ≡ daemon_a.engine)
update_record-done_example = update_record-done plain_text "a" to_paused daemon_a pausing

empty-order : items default_session.order ≡ []
unfolding default_session
empty-order = refl

empty_clone_refused_example :
    ((replace_session plain_text (clone_session default_session) daemon_a).1 ≢ ok tt)
    × ((replace_session plain_text (clone_session default_session) daemon_a).0.session ≡ session_a)
empty_clone_refused_example = empty_clone_refused plain_text default_session daemon_a empty-order

-- Texts of JSON that are requests, or not.
data Raw : Type 0 where
  raw_text : String → Raw
  raw_request : String → Raw → String → Raw → Raw
  raw_notification : String → String → Raw → Raw

abbrev parse_raw : Raw → Option (Request Raw)
parse_raw (raw_text s) = none
parse_raw (raw_request v id m p) =
    some (record { jsonrpc = v; id = some id; method = m; params = p })
parse_raw (raw_notification v m p) =
    some (record { jsonrpc = v; id = none; method = m; params = p })

abbrev raw_of : String → Option Raw → String → Raw → Raw
raw_of v none m p = raw_notification v m p
raw_of v (some id) m p = raw_request v id m p

abbrev write_raw : Request Raw → Raw
write_raw r = raw_of r.jsonrpc r.id r.method r.params

parse_raw-raw_of :
    (v m : String) (id : Option Raw) (p : Raw)
    → parse_raw (raw_of v id m p) ≡ some (record { jsonrpc = v; id = id; method = m; params = p })
parse_raw-raw_of v m none p = refl
parse_raw-raw_of v m (some id) p = refl

abbrev raw_wire : Wire Raw
raw_wire = record { parse = parse_raw; null = raw_text "null" }

abbrev echo : Request Raw → ℕ → ℕ × Reply String
echo r n = (n + 1, reply r.method)

abbrev echo_link : Link Raw String (ℕ × Option (Response Raw String))
echo_link =
    served raw_wire echo write_raw (λ s. ok (raw_text s)) (λ m. "") (raw_text "1") (raw_text "")

abbrev text_in : Raw → Result String
text_in (raw_text s) = ok s
text_in (raw_request v id m p) = err canceled
text_in (raw_notification v m p) = err canceled

abbrev list_method : String
list_method = "torrent.list"

named-method : list_method ≢ ""
unfolding dec_str
named-method e =
    let same : false ≡ true = ap (λ s. ite (dec_str s "") true false) e in
    absurd (ground (arith, same))

call-served_example :
    let r : Request Raw = record {
      jsonrpc = version;
      id = some (raw_text "1");
      method = list_method;
      params = raw_text "x";
    } in
    call echo_link list_method (some (ok (raw_text "x"))) text_in (0, none)
    ≡ result_of echo_link list_method text_in (echo r 0).1 ((echo r 0).0, none)
call-served_example =
    call-served raw_wire echo write_raw (λ s. ok (raw_text s)) (λ m. "") (raw_text "1")
      (raw_text "") list_method (raw_text "x") text_in 0 named-method
      (parse_raw-raw_of version list_method (some (raw_text "1")) (raw_text "x"))
