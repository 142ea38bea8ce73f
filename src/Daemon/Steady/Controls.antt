-- ===== src/Daemon/Steady/Controls.antt =====
-- internal/daemon/controls.go: the operations that leave the list of torrents alone, and the state
-- that requests keep.
use torrcli.Base.{
  ℤ, ◌≡◌, inl, inr, refl, Bool, true, false, String, arith, dec_str, lookup, Exec, Result, ok, err,
  Option-cases, or_undo, ◌>>◌, pure, ◌∙◌,
}
use torrcli.Base.Outcome.Triple.{
  Triple, Keeps, Post, triple_bind, triple_then, triple_pure, triple_or_undo, triple_weaken,
}
use torrcli.Model.{Session, TorrentId, TorrentSnapshot, FilePriority}
use torrcli.State.Files.{Codec}
use torrcli.Engine.{Engine, request, detached}
use torrcli.Daemon.{Daemon, items, call_engine, put_torrent, unschedule}
use torrcli.Daemon.Records.{Update, update_record, file_priority_of}
use torrcli.Daemon.Controls.{
  Strconv, pause_torrent, resume_torrent, verify_torrent, find_peers, set_file_priority,
  set_sequential, unless, was_paused,
}
use torrcli.Daemon.Steady.Sessions.{IsAllowed}
use torrcli.Daemon.Steady.Saving.{IsSteady}
use torrcli.Daemon.Steady.Records.{update_record-Updated, update_record_missing}
use torrcli.Daemon.Steady.Steps.{
  Having, IsDataOnly, SameData-IsSteady, SameData-Having, Keeps-engine, Keeps-unschedule,
  triple_get, triple_put,
}

module _ {E T : Type 0} (codec : Codec Session T) where
  Having-IsDataOnly :
      (id : TorrentId) (t : TorrentSnapshot) → IsDataOnly {E = E} codec (Having codec id t)
  Having-IsDataOnly id t = record { moved = λ s h. SameData-Having codec id t s h }

  IsSteady-IsDataOnly : IsDataOnly {E = E} codec (IsSteady codec)
  IsSteady-IsDataOnly = record { moved = λ s h. SameData-IsSteady codec s h }

  Having-IsSteady :
      (id : TorrentId) (t : TorrentSnapshot) (d : Daemon E T)
      → Having codec id t d
      → IsSteady codec d
  Having-IsSteady id t d h = h.shown.steady

  Post-update :
      (id : TorrentId) (t : TorrentSnapshot) (d : Daemon E T) (r : Result (Unit {0}))
      → Having codec id t d
      → Post (λ u s. Having codec id t s) (Having codec id t) d r
  Post-update id t d (ok u) h = h
  Post-update id t d (err e) h = h

  -- An update of the saved record keeps all this.
  Keeps-update :
      (id : TorrentId) (t : TorrentSnapshot) (j : TorrentId) (u : Update)
      → IsAllowed u
      → Keeps (Having {E = E} codec id t) (update_record codec j u)
  Keeps-update id t j u a = record {
    at = λ d h.
        Post-update id t (update_record codec j u d).0 (update_record codec j u d).1
          (elim (Option-cases (lookup dec_str j (items d.session.torrents))) [
            | inl e ↦ rw (update_record_missing codec j u d e) h
            | inr (r, e) ↦
                let w = update_record-Updated codec j u d r a h.shown.steady e in
                record {
                  shown = record { steady = w.steady; there = rw w.torrents h.shown.there };
                  own = h.own;
                }
          ]);
  }

  -- The record is updated, and if that fails the engine is told to go back.
  triple_update :
      (id : TorrentId) (t : TorrentSnapshot) (u : Update) (m : Exec E (Unit {0}))
      → IsAllowed u
      → Triple
          (Having {E = E} codec id t)
          (or_undo (update_record codec id u) (call_engine m))
          (λ v s. Having codec id t s)
          (IsSteady codec)
  triple_update id t u m a = triple_or_undo (Keeps-update id t id u a) (
      triple_weaken (λ s h. h) (λ v s h. Having-IsSteady id t s h) (λ s h. Having-IsSteady id t s h)
        (Keeps-engine codec (Having codec id t) m (Having-IsDataOnly id t)))

  triple_engine :
      (id : TorrentId) (t : TorrentSnapshot) {A : Type 0} (m : Exec E A)
      → Triple
          (Having {T = T} codec id t)
          (call_engine m)
          (λ a s. Having codec id t s)
          (IsSteady codec)
  triple_engine id t m =
      triple_weaken (λ s h. h) (λ v s h. h) (λ s h. Having-IsSteady id t s h)
        (Keeps-engine codec (Having codec id t) m (Having-IsDataOnly id t))

  triple_unschedule :
      (id : TorrentId) (t : TorrentSnapshot) (j : TorrentId)
      → Triple
          (Having {E = E} codec id t)
          (unschedule j)
          (λ u s. Having codec id t s)
          (IsSteady codec)
  triple_unschedule id t j =
      triple_weaken (λ s h. h) (λ v s h. h) (λ s h. Having-IsSteady id t s h)
        (Keeps-unschedule codec (Having codec id t) j (Having-IsDataOnly id t))

  triple_put_back :
      (id : TorrentId) (t u : TorrentSnapshot)
      → u.id ≡ t.id
      → Triple
          (Having {E = E} codec id t)
          (put_torrent detached u)
          (λ v s. IsSteady codec s)
          (IsSteady codec)
  triple_put_back id t u e = record {
    at = λ d h. (triple_put codec detached id u {R = IsSteady codec} (e ∙ h.own)).at d h.shown;
  }

  -- The end of most operations: the snapshot is put back under its id, and returned.
  triple_show :
      (id : TorrentId) (t u : TorrentSnapshot)
      → u.id ≡ t.id
      → Triple
          (Having {E = E} codec id t)
          (put_torrent detached u >> pure u)
          (λ v s. IsSteady codec s)
          (IsSteady codec)
  triple_show id t u e =
      triple_then {Q = IsSteady codec} (triple_put_back id t u e) (triple_pure u (λ s k. k))

module _ {E T : Type 0} (engine : Engine E) (codec : Codec Session T) where
  pub pause_torrent-Keeps :
      (id : TorrentId) → Keeps (IsSteady codec) (pause_torrent engine codec id)
  unfolding pause_torrent
  pause_torrent-Keeps id = triple_bind (triple_get codec request id) λ t.
      triple_then (triple_engine codec id t _) (
        triple_then (triple_unschedule codec id t id)
          (triple_then (triple_update codec id t _ _ (inr refl)) (triple_show codec id t _ refl)))

  pub resume_torrent-Keeps :
      (id : TorrentId) → Keeps (IsSteady codec) (resume_torrent engine codec id)
  unfolding resume_torrent
  resume_torrent-Keeps id = triple_bind (triple_get codec request id) λ t.
      triple_then (triple_engine codec id t _) (
        triple_then (triple_unschedule codec id t id)
          (triple_then (triple_update codec id t _ _ (inl refl)) (triple_show codec id t _ refl)))

  pub set_sequential-Keeps :
      (id : TorrentId) (enabled : Bool)
      → Keeps (IsSteady codec) (set_sequential engine codec id enabled)
  unfolding set_sequential
  set_sequential-Keeps id enabled = triple_bind (triple_get codec request id) λ t.
      triple_then (triple_engine codec id t _)
        (triple_then (triple_update codec id t _ _ tt) (triple_show codec id t _ refl))

  file_priority_of_same :
      (id : TorrentId) (key : String) (d : Daemon E T) → (file_priority_of codec id key d).0 ≡ d
  unfolding file_priority_of
  file_priority_of_same id key d = ground arith

  Post-priority :
      (id : TorrentId) (t : TorrentSnapshot) (d : Daemon E T) (r : Result FilePriority)
      → Having codec id t d
      → Post (λ p s. Having codec id t s) (IsSteady codec) d r
  Post-priority id t d (ok p) h = h
  Post-priority id t d (err e) h = h.shown.steady

  triple_priority_of :
      (id : TorrentId) (t : TorrentSnapshot) (key : String)
      → Triple
          (Having {E = E} codec id t)
          (file_priority_of codec id key)
          (λ p s. Having codec id t s)
          (IsSteady codec)
  triple_priority_of id t key = record {
    at = λ d h.
        Post-priority id t (file_priority_of codec id key d).0 (file_priority_of codec id key d).1
          (rw (file_priority_of_same id key d) h);
  }

  pub set_file_priority-Keeps :
      (strconv : Strconv) (id : TorrentId) (index : ℤ) (p : FilePriority)
      → Keeps (IsSteady codec) (set_file_priority engine codec strconv id index p)
  unfolding set_file_priority
  set_file_priority-Keeps strconv id index p = triple_bind (triple_get codec request id) λ t.
      triple_bind (triple_priority_of id t (strconv.itoa index)) λ previous.
        triple_then (triple_engine codec id t _)
          (triple_then (triple_update codec id t _ _ tt) (triple_pure t (λ s h. h.shown.steady)))

  pub find_peers-Keeps : (id : TorrentId) → Keeps (IsSteady codec) (find_peers engine codec id)
  unfolding find_peers
  find_peers-Keeps id = triple_bind (triple_get codec request id) λ t.
      triple_weaken (λ s h. h) (λ u s h. Having-IsSteady codec id t s h) (λ s h. h)
        (triple_engine codec id t _)

  Keeps-unless :
      (b : Bool) {m : Exec (Daemon E T) (Unit {0})}
      → Keeps (IsSteady codec) m
      → Keeps (IsSteady codec) (unless engine codec b m)
  Keeps-unless true k = triple_pure tt (λ s h. h)
  Keeps-unless false k = k

  Keeps-call : {A : Type 0} (m : Exec E A) → Keeps (IsSteady codec) (call_engine {T = T} m)
  Keeps-call m = Keeps-engine codec (IsSteady codec) m (IsSteady-IsDataOnly codec)

  pub verify_torrent-Keeps :
      (id : TorrentId) → Keeps (IsSteady codec) (verify_torrent engine codec id)
  unfolding verify_torrent
  verify_torrent-Keeps id = triple_bind (triple_get codec request id) λ t.
      triple_weaken (λ s h. Having-IsSteady codec id t s h) (λ u s h. h) (λ s h. h)
        (triple_then
          (Keeps-unless (was_paused engine codec t) (
            triple_then (Keeps-call (engine.pause request id))
              (Keeps-unschedule codec (IsSteady codec) id (IsSteady-IsDataOnly codec))))
          (triple_then
            (triple_or_undo (Keeps-call (engine.verify request id))
              (Keeps-unless (was_paused engine codec t) (Keeps-call (engine.resume detached id))))
            (triple_then
              (Keeps-unless (was_paused engine codec t) (Keeps-call (engine.resume request id)))
              (Keeps-call (engine.snapshot request id)))))
