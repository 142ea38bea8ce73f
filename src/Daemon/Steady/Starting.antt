-- ===== src/Daemon/Steady/Starting.antt =====
-- internal/daemon/daemon.go: restoreSession, Run's start and the state that requests keep.
use torrcli.Base.{
  ◌+◌, ◌≤◌, ◌≡◌, refl, sym, subst, ◌∙◌, String, none, List, [], ◌∷◌, ◌++◌, arith, dec_str, hit_self,
  lookup, present, present-le_one, count, count-append, Result, ok, err, Error, ignore, continue,
}
use mathlib.Core.List.{append_assoc, append-nil}
use torrcli.Base.Outcome.Triple.{Triple, Post, triple_then, triple_pure, triple_weaken}
use torrcli.Model.{Session, TorrentId}
use torrcli.State.Files.{Codec, holds}
use torrcli.State.Validate.{validate_session}
use torrcli.Engine.{Engine}
use torrcli.Torrents.{new_state}
use torrcli.Daemon.{Daemon, items}
use torrcli.Daemon.Controls.{Strconv}
use torrcli.Daemon.Restore.{record_of, restore_all, restore_session}
use torrcli.Daemon.Schedule.{reconcile_schedule}
use torrcli.Daemon.Startup.{start_up}
use torrcli.Daemon.Steady.Saving.{IsSteady}
use torrcli.Daemon.Steady.Adding.{IsNamed}
use torrcli.Daemon.Steady.Recording.{session_agrees}
use torrcli.Daemon.Steady.Scheduling.{reconcile_schedule-IsSteady}
use torrcli.Daemon.Steady.Restoring.{IsRestoring, triple_restore_one}

module _ {E T : Type 0} (engine : Engine E) (codec : Codec Session T) (strconv : Strconv)
    (describe : Error → String) where
  triple_restore_all :
      (start : Daemon E T) (session : Session) (done ids : List TorrentId)
      → IsNamed engine
      → ((k : TorrentId) → count dec_str k done + count dec_str k ids ≤ 1)
      → Triple
          (IsRestoring codec start done)
          (restore_all engine strconv describe session ids)
          (λ u d. IsRestoring codec start (done ++ ids) d)
          (λ d. ⊥)
  unfolding restore_all
  triple_restore_all start session done [] n c =
      triple_pure tt (λ d h. subst (λ l. IsRestoring codec start l d) (sym (append-nil done)) h)
  triple_restore_all start session done (id ∷ ids) n c =
      triple_weaken (λ d h. h)
        (λ u d h. subst (λ l. IsRestoring codec start l d) (append_assoc done (id ∷ []) ids) h)
        (λ d h. h)
        (triple_then
          (triple_restore_one engine codec strconv describe start done id (record_of id session) n
            (omega (arith, c id, hit_self dec_str id)))
          (triple_restore_all start session (done ++ id ∷ []) ids n
            (λ k. omega (arith, c k, count-append dec_str k done (id ∷ [])))))

  Post-restored :
      (start d : Daemon E T) (r : Result (Unit {0}))
      → validate_session start.session ≡ none
      → start.files.main ≡ holds (codec.encode start.session)
      → start.attempts ≡ []
      → Post (λ u s. IsRestoring codec start (items start.session.order) s) (λ d. ⊥) d r
      → IsSteady codec d
  Post-restored start d (ok u) v s c h = record {
    valid = rw h.session v;
    saved = rw (h.session, h.files) s;
    synced = rw h.session (sym h.order);
    ordered = h.ordered;
    keyed = h.keyed;
    calm = h.attempts ∙ c;
  }
  Post-restored start d (err e) v s c h = absurd h

  reconciled :
      (d : Daemon E T) (r : Result (Unit {0}))
      → IsNamed engine
      → IsSteady codec d
      → IsSteady codec (continue d r (λ u. ignore (reconcile_schedule engine))).0
  reconciled d (ok u) n h = reconcile_schedule-IsSteady engine codec d n h
  reconciled d (err e) n h = h

  nothing_shown :
      (d : Daemon E T)
      → IsRestoring codec (record d { torrents = new_state }) [] (record d { torrents = new_state })
  unfolding new_state lookup present
  nothing_shown d = record {
    session = refl;
    files = refl;
    attempts = refl;
    order = refl;
    ordered = λ id. refl;
    keyed = λ id t e. absurd (ground (arith, e));
  }

  -- Starting with a valid session that is the one on disk, the daemon shows the torrents of the
  -- session in their order and is steady, whatever the engine makes of them, if the disk takes what
  -- is written and the engine gives a snapshot under the ID that was asked for.
  pub start_up-IsSteady :
      (d : Daemon E T)
      → IsNamed engine
      → validate_session d.session ≡ none
      → d.files.main ≡ holds (codec.encode d.session)
      → d.attempts ≡ []
      → IsSteady codec (start_up engine strconv describe d).0
  unfolding start_up restore_session
  start_up-IsSteady d n v s c =
      let fresh : Daemon E T = record d { torrents = new_state } in
      let k : (k : TorrentId) → count dec_str k [] + count dec_str k (items d.session.order) ≤ 1 =
        λ k. omega (
          arith,
          session_agrees d.session k v,
          present-le_one dec_str k (items d.session.torrents),
        ) in
      let restored =
        Post-restored fresh (restore_session engine strconv describe fresh).0
          (restore_session engine strconv describe fresh).1 v s c
          ((triple_restore_all fresh d.session [] (items d.session.order) n k).at fresh
            (nothing_shown d)) in
      reconciled (restore_session engine strconv describe fresh).0
        (restore_session engine strconv describe fresh).1 n restored
