-- ===== src/Daemon/Refusals.antt =====
-- internal/daemon/rpc.go: the errors that a request is answered with.
use torrcli.Base.{
  ◌≡◌, inl, inr, refl, Bool, true, false, Option, none, some, String, dec_str, lookup, Result, ok,
  err, Option-cases, if◌then◌else◌, arith, subst,
}
use torrcli.Model.{Session}
use torrcli.State.Files.{Codec}
use torrcli.Engine.{Engine}
use torrcli.Rpc.{Request, Reply, RpcError, reply, refuse, code_operation_failed}
use torrcli.Rpc.Server.{invalid_params, method_not_found, operation_failed}
use torrcli.Daemon.{Daemon}
use torrcli.Daemon.Controls.{Strconv}
use torrcli.Daemon.Params.{
  Accepts, Decoded, Tells, passes, stops, tells_always, tells_empty, tells_or, tells_place,
  tells_index, tells_priority,
}
use torrcli.Daemon.Handler.{
  Decoders, Answer, Method, daemon_ping, daemon_info, torrent_add, torrent_list, torrent_get,
  torrent_move, torrent_pause, torrent_resume, torrent_verify, torrent_find_peers, torrent_remove,
  torrent_set_sequential, torrent_set_file_priority, method_names, handle_method, handle_rpc,
  with_params, answered,
}

module _ {E T : Type 0} where
  -- A result, or an operation that failed, both for parameters that are accepted, or parameters
  -- that are not and have not touched the daemon.
  pub data Handled (Accepted : Type 0) (d d' : Daemon E T) : Reply Answer → Type 0 where
    done : Accepted → (a : Answer) → Handled Accepted d d' (reply a)
    failed :
        Accepted
        → (e : RpcError) → e.code ≡ code_operation_failed
        → Handled Accepted d d' (refuse e)
    invalid : ¬ Accepted → d' ≡ d → Handled Accepted d d' (refuse invalid_params)

  answered-Handled :
      {A : Type 0} {Accepted : Type 0} (operation : String) (answer : A → Answer)
      (d d' : Daemon E T) (r : Result A)
      → Accepted
      → Handled Accepted d (answered operation answer d' r).0 (answered operation answer d' r).1
  unfolding operation_failed
  answered-Handled operation answer d d' (ok a) h = done h (answer a)
  answered-Handled operation answer d d' (err e) h = failed h (operation_failed operation e) refl

  with_params-Handled :
      {P : Type 0} (p : Option P) (bad : P → Bool) (Good : P → Type 0)
      (run : P → Daemon E T → Daemon E T × Reply Answer) (d : Daemon E T)
      → ((q : P) → Tells (bad q) (Good q))
      → ((q : P) → Decoded p Good → Handled (Decoded p Good) d (run q d).0 (run q d).1)
      → Handled (Decoded p Good) d (with_params p bad run d).0 (with_params p bad run d).1
  with_params-Handled none bad Good run d t k =
      invalid (λ (q, e, g). absurd (ground (arith, e))) refl
  with_params-Handled {P = P} (some q) bad Good run d t k = checked (bad q) (t q)
    where
      checked :
          (b : Bool)
          → Tells b (Good q)
          → Handled
              (Decoded (some q) Good)
              d
              (if b then (d, refuse invalid_params) else run q d).0
              (if b then (d, refuse invalid_params) else run q d).1
      checked true (passes e g) = absurd (ground arith)
      checked true (stops e n) = invalid (λ (r, f, g). n (subst Good (ground arith) g)) refl
      checked false (passes e g) = k q (q, refl, g)
      checked false (stops e n) = absurd (ground arith)

module _ {E T R : Type 0} (engine : Engine E) (codec : Codec Session T) (strconv : Strconv)
    (json : Decoders R) where
  handle_method-Handled :
      (method : Method) (p : R) (d : Daemon E T)
      → Handled
          (Accepts json method p)
          d
          (handle_method engine codec strconv json method p d).0
          (handle_method engine codec strconv json method p d).1
  unfolding handle_method
  handle_method-Handled daemon_ping p d = done tt _
  handle_method-Handled daemon_info p d = done tt _
  handle_method-Handled torrent_list p d = answered-Handled "list" _ d _ _ tt
  handle_method-Handled torrent_add p d =
      with_params-Handled (json.add_params p) _ _ _ d (λ q. tells_always)
        λ q h. answered-Handled "add" _ d _ _ h
  handle_method-Handled torrent_get p d =
      with_params-Handled (json.torrent_params p) _ _ _ d tells_empty
        λ q h. answered-Handled "get torrent details" _ d _ _ h
  handle_method-Handled torrent_move p d =
      with_params-Handled (json.move_params p) _ _ _ d
        (λ q. tells_or (tells_empty q.id) (tells_place q.offset))
        λ q h. answered-Handled "move" _ d _ _ h
  handle_method-Handled torrent_pause p d =
      with_params-Handled (json.torrent_params p) _ _ _ d tells_empty
        λ q h. answered-Handled "pause" _ d _ _ h
  handle_method-Handled torrent_resume p d =
      with_params-Handled (json.torrent_params p) _ _ _ d tells_empty
        λ q h. answered-Handled "resume" _ d _ _ h
  handle_method-Handled torrent_verify p d =
      with_params-Handled (json.torrent_params p) _ _ _ d tells_empty
        λ q h. answered-Handled "verify" _ d _ _ h
  handle_method-Handled torrent_find_peers p d =
      with_params-Handled (json.torrent_params p) _ _ _ d tells_empty
        λ q h. answered-Handled "find peers" _ d _ _ h
  handle_method-Handled torrent_remove p d =
      with_params-Handled (json.remove_params p) _ _ _ d (λ q. tells_empty q.id)
        λ q h. answered-Handled "remove" _ d _ _ h
  handle_method-Handled torrent_set_sequential p d =
      with_params-Handled (json.sequential_params p) _ _ _ d (λ q. tells_empty q.id)
        λ q h. answered-Handled "set sequential download" _ d _ _ h
  handle_method-Handled torrent_set_file_priority p d =
      with_params-Handled (json.priority_params p) _ _ _ d
        (λ q.
          tells_or (tells_or (tells_empty q.id) (tells_index q.file_index))
            (tells_priority q.priority))
        λ q h. answered-Handled "priority" _ d _ _ h

  -- How a request is answered: with its result, or with the error of the operation, both for a
  -- method that there is and parameters that it accepts; or that there is no such method, or that
  -- it does not accept the parameters, and then the daemon is as it was.
  pub data IsAnswered (r : Request R) (d d' : Daemon E T) : Reply Answer → Type 0 where
    unknown :
        lookup dec_str r.method method_names ≡ none
        → d' ≡ d
        → IsAnswered r d d' (refuse (method_not_found r.method))
    handled :
        (method : Method) (a : Reply Answer)
        → lookup dec_str r.method method_names ≡ some method
        → Handled (Accepts json method r.params) d d' a
        → IsAnswered r d d' a

  -- A request is answered with its result, or with an error of three kinds: that its method is
  -- unknown, just if it is; that its parameters are invalid, just if its method does not accept
  -- them; or that the operation failed. In the first two the daemon is as it was.
  pub handle_rpc-IsAnswered :
      (r : Request R) (d : Daemon E T)
      → IsAnswered r d
          (handle_rpc engine codec strconv json r d).0
          (handle_rpc engine codec strconv json r d).1
  unfolding handle_rpc
  handle_rpc-IsAnswered r d = elim (Option-cases (lookup dec_str r.method method_names)) [
    | inl e ↦ rw (e, handle_rpc) (unknown e refl)
    | inr (method, e) ↦
        rw (e, handle_rpc) (handled method _ e (handle_method-Handled method r.params d))
  ]
