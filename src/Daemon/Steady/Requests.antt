-- ===== src/Daemon/Steady/Requests.antt =====
-- internal/daemon/rpc.go: handleRPC and the state that requests keep.
use torrcli.Base.{
  Bool, true, false, Option, none, some, String, inl, inr, dec_str, lookup, Exec, Result, ok, err,
  Option-cases, if◌then◌else◌,
}
use torrcli.Base.Outcome.Triple.{Keeps, Post}
use torrcli.Model.{Session, zero_snapshot}
use torrcli.State.Files.{Codec}
use torrcli.Engine.{Engine, request}
use torrcli.Rpc.{Request, Reply, refuse}
use torrcli.Rpc.Server.{invalid_params}
use torrcli.Daemon.{Daemon, call_engine}
use torrcli.Daemon.Controls.{Strconv}
use torrcli.Daemon.Handler.{
  Decoders, Answer, Method, daemon_ping, daemon_info, torrent_add, torrent_list, torrent_get,
  torrent_move, torrent_pause, torrent_resume, torrent_verify, torrent_find_peers, torrent_remove,
  torrent_set_sequential, torrent_set_file_priority, method_names, handle_method, handle_rpc,
  with_params, answered, replying,
}
use torrcli.Daemon.Steady.Saving.{IsSteady}
use torrcli.Daemon.Steady.Steps.{SameData-IsSteady, Keeps-engine, Keeps-list}
use torrcli.Daemon.Steady.Adding.{IsNamed, add_torrent-Keeps}
use torrcli.Daemon.Steady.Controls.{
  pause_torrent-Keeps, resume_torrent-Keeps, set_sequential-Keeps, set_file_priority-Keeps,
  find_peers-Keeps, verify_torrent-Keeps,
}
use torrcli.Daemon.Steady.Moving.{move_torrent-Keeps}
use torrcli.Daemon.Steady.Removal.{remove_torrent-Keeps}

module _ {E T : Type 0} (codec : Codec Session T) where
  answered-IsSteady :
      {A : Type 0} (operation : String) (answer : A → Answer) (d : Daemon E T) (r : Result A)
      → Post (λ a s. IsSteady codec s) (IsSteady codec) d r
      → IsSteady codec (answered operation answer d r).0
  answered-IsSteady operation answer d (ok a) h = h
  answered-IsSteady operation answer d (err e) h = h

  replying-IsSteady :
      {A : Type 0} (operation : String) (answer : A → Answer) (m : Exec (Daemon E T) A)
      (d : Daemon E T)
      → Keeps (IsSteady codec) m
      → IsSteady codec d
      → IsSteady codec (replying operation answer m d).0
  replying-IsSteady operation answer m d k h =
      answered-IsSteady operation answer (m d).0 (m d).1 (k.at d h)

  with_params-IsSteady :
      {P : Type 0} (p : Option P) (bad : P → Bool)
      (run : P → Daemon E T → Daemon E T × Reply Answer) (d : Daemon E T)
      → IsSteady codec d
      → ((q : P) → IsSteady codec (run q d).0)
      → IsSteady codec (with_params p bad run d).0
  with_params-IsSteady none bad run d h k = h
  with_params-IsSteady (some q) bad run d h k = checked (bad q) (k q)
    where
      checked :
          (b : Bool)
          → IsSteady codec (run q d).0
          → IsSteady codec (if b then (d, refuse invalid_params) else run q d).0
      checked true g = h
      checked false g = g

  Keeps-call : {A : Type 0} (m : Exec E A) → Keeps (IsSteady codec) (call_engine {T = T} m)
  Keeps-call m =
      Keeps-engine codec (IsSteady codec) m (record { moved = λ s h. SameData-IsSteady codec s h })

module _ {E T R : Type 0} (engine : Engine E) (codec : Codec Session T) (strconv : Strconv)
    (json : Decoders R) where
  handle_method-IsSteady :
      (method : Method) (p : R) (d : Daemon E T)
      → IsNamed engine
      → IsSteady codec d
      → IsSteady codec (handle_method engine codec strconv json method p d).0
  unfolding handle_method
  handle_method-IsSteady daemon_ping p d n h = h
  handle_method-IsSteady daemon_info p d n h = h
  handle_method-IsSteady torrent_add p d n h =
      with_params-IsSteady codec (json.add_params p) _ _ d h
        λ q. replying-IsSteady codec "add" _ _ d (add_torrent-Keeps engine codec q n) h
  handle_method-IsSteady torrent_list p d n h =
      replying-IsSteady codec "list" _ _ d (Keeps-list codec zero_snapshot) h
  handle_method-IsSteady torrent_get p d n h =
      with_params-IsSteady codec (json.torrent_params p) _ _ d h λ id.
        replying-IsSteady codec "get torrent details" _ _ d
          (Keeps-call codec (engine.details request id)) h
  handle_method-IsSteady torrent_move p d n h =
      with_params-IsSteady codec (json.move_params p) _ _ d h
        λ q. replying-IsSteady codec "move" _ _ d (move_torrent-Keeps engine codec q.id q.offset) h
  handle_method-IsSteady torrent_pause p d n h =
      with_params-IsSteady codec (json.torrent_params p) _ _ d h
        λ id. replying-IsSteady codec "pause" _ _ d (pause_torrent-Keeps engine codec id) h
  handle_method-IsSteady torrent_resume p d n h =
      with_params-IsSteady codec (json.torrent_params p) _ _ d h
        λ id. replying-IsSteady codec "resume" _ _ d (resume_torrent-Keeps engine codec id) h
  handle_method-IsSteady torrent_verify p d n h =
      with_params-IsSteady codec (json.torrent_params p) _ _ d h
        λ id. replying-IsSteady codec "verify" _ _ d (verify_torrent-Keeps engine codec id) h
  handle_method-IsSteady torrent_find_peers p d n h =
      with_params-IsSteady codec (json.torrent_params p) _ _ d h
        λ id. replying-IsSteady codec "find peers" _ _ d (find_peers-Keeps engine codec id) h
  handle_method-IsSteady torrent_remove p d n h =
      with_params-IsSteady codec (json.remove_params p) _ _ d h λ q.
        replying-IsSteady codec "remove" _ _ d
          (remove_torrent-Keeps engine codec q.id q.delete_data) h
  handle_method-IsSteady torrent_set_sequential p d n h =
      with_params-IsSteady codec (json.sequential_params p) _ _ d h λ q.
        replying-IsSteady codec "set sequential download" _ _ d
          (set_sequential-Keeps engine codec q.id q.enabled) h
  handle_method-IsSteady torrent_set_file_priority p d n h =
      with_params-IsSteady codec (json.priority_params p) _ _ d h λ q.
        replying-IsSteady codec "priority" _ _ d
          (set_file_priority-Keeps engine codec strconv q.id q.file_index q.priority) h

  -- A request keeps the daemon steady, whatever it asks, whatever the engine answers and wherever
  -- it is cancelled. The engine gives a snapshot under the ID that was asked for.
  pub handle_rpc-IsSteady :
      (r : Request R) (d : Daemon E T)
      → IsNamed engine
      → IsSteady codec d
      → IsSteady codec (handle_rpc engine codec strconv json r d).0
  unfolding handle_rpc
  handle_rpc-IsSteady r d n h = elim (Option-cases (lookup dec_str r.method method_names)) [
    | inl e ↦ rw (e, handle_rpc) h
    | inr (method, e) ↦ rw (e, handle_rpc) (handle_method-IsSteady method r.params d n h)
  ]
