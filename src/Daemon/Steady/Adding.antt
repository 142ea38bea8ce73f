-- ===== src/Daemon/Steady/Adding.antt =====
-- internal/daemon/rpc.go: adding a torrent, and the state that requests keep.
use torrcli.Base.{
  ◌≡◌, inl, inr, refl, sym, ◌∙◌, Bool, true, false, none, [], arith, Result, ok, err, or_undo, ◌>>◌,
  ◌>>=◌, ignore, pure, if◌then◌else◌,
}
use torrcli.Base.Outcome.Triple.{
  Triple, Keeps, Post, triple_bind, triple_then, triple_pure, triple_or_undo,
}
use torrcli.Model.{Session, TorrentId, TorrentSnapshot}
use torrcli.State.Files.{Codec, holds}
use torrcli.State.Validate.{validate_session}
use torrcli.Engine.{Engine, Context, request, detached}
use torrcli.Rpc.{AddTorrentParams}
use torrcli.Torrents
use torrcli.Torrents.{SessionState}
use torrcli.Torrents.Order.{IsOrdered, put-IsOrdered}
use torrcli.Torrents.View.{IsKeyed}
use torrcli.Daemon.{Daemon, items, clone_session, replace_session, run_torrents, call_engine}
use torrcli.Daemon.Add.{
  with_recorded, with_save_path, add_input, record_torrent, add_new, add_torrent,
}
use torrcli.Daemon.Steady.Saving.{IsSteady, Replaced, replace-Replaced}
use torrcli.Daemon.Steady.Steps.{SameData-IsSteady, IsDataOnly, Keeps-engine}
use torrcli.Torrents.Commands.{put-IsKeyed}
use torrcli.Daemon.Steady.Recording.{recorded_order}

-- A snapshot is one of the torrent that was asked for.
pub record IsNamed {E : Type 0} (engine : Engine E) : Type 0 where
  pub named :
      (c : Context) (id : TorrentId) (e : E) (t : TorrentSnapshot)
      → (engine.snapshot c id e).1 ≡ ok t
      → t.id ≡ id

module _ {E T : Type 0} (codec : Codec Session T) where
  -- The torrent is in the session, and its snapshot is still to be shown.
  record IsAdding (t : TorrentSnapshot) (d : Daemon E T) : Type 0 where
    valid : validate_session d.session ≡ none
    saved : d.files.main ≡ holds (codec.encode d.session)
    synced : items d.session.order ≡ (Torrents.put t d.torrents).0.order
    ordered : IsOrdered d.torrents
    keyed : IsKeyed d.torrents.torrents
    calm : d.attempts ≡ []

  Post-recorded :
      (t : TorrentSnapshot) (s : Session) (d d' : Daemon E T) (r : Result (Unit {0}))
      → IsSteady codec d
      → items s.order ≡ (Torrents.put t d.torrents).0.order
      → Replaced codec s d d' r
      → Post (λ u s'. IsAdding t s') (IsSteady codec) d' r
  Post-recorded t s d d' (ok u) h o p = elim p.outcome [
    | inl (v, _, e, f) ↦ record {
      valid = rw e v;
      saved = rw e f;
      synced = rw (e, p.torrents) o;
      ordered = rw p.torrents h.ordered;
      keyed = rw p.torrents h.keyed;
      calm = p.calm;
    }
    | inr (_, n, _, _) ↦ absurd (n refl)
  ]
  Post-recorded t s d d' (err x) h o p = elim p.outcome [
    | inl (v, e, _, _) ↦ absurd (ground arith)
    | inr (_, _, e, f) ↦
        SameData-IsSteady codec
          (record { session = e; torrents = p.torrents; files = f; attempts = p.calm ∙ sym h.calm })
          h
  ]

  record_torrent_replaces :
      (engine : Engine E) (id : TorrentId) (p : AddTorrentParams) (t : TorrentSnapshot)
      (d : Daemon E T)
      → record_torrent engine codec id p t d
        ≡ replace_session codec (with_recorded id p t (clone_session d.session)) d
  unfolding record_torrent replace_session
  record_torrent_replaces engine id p t d = refl

  triple_record :
      (engine : Engine E) (id : TorrentId) (p : AddTorrentParams) (t : TorrentSnapshot)
      → t.id ≡ id
      → Triple
          (IsSteady codec)
          (record_torrent engine codec id p t)
          (λ u s. IsAdding t s)
          (IsSteady codec)
  triple_record engine id p t own = record {
    at = λ d h.
        let s = with_recorded id p t (clone_session d.session) in
        rw (record_torrent_replaces engine id p t d) (
          Post-recorded t s d (replace_session codec s d).0 (replace_session codec s d).1 h
            (recorded_order codec id p t d h own) (replace-Replaced codec s d h.calm));
  }

  -- A put that is not cancelled does not fail, so that the rollback behind it is never made.
  triple_show_new :
      (t : TorrentSnapshot)
      → Triple
          (IsAdding t)
          (run_torrents detached (Torrents.put t))
          (λ u s. IsSteady codec s)
          (λ s. ⊥)
  unfolding run_torrents Torrents.put
  triple_show_new t = record {
    at = λ d h. record {
      valid = h.valid;
      saved = h.saved;
      synced = h.synced;
      ordered = put-IsOrdered t d.torrents h.ordered;
      keyed = put-IsKeyed t d.torrents h.keyed;
      calm = h.calm;
    };
  }

  IsSteady-IsDataOnly : IsDataOnly {E = E} codec (IsSteady codec)
  IsSteady-IsDataOnly = record { moved = λ s h. SameData-IsSteady codec s h }

module _ {E T : Type 0} (engine : Engine E) (codec : Codec Session T) where
  triple_added :
      (id : TorrentId) (p : AddTorrentParams) (t : TorrentSnapshot)
      → t.id ≡ id
      → (previous : Session)
      → Keeps (IsSteady {E = E} codec) (
          or_undo
            (record_torrent engine codec id p t)
            (call_engine (engine.remove detached id false))
          >> (or_undo (run_torrents detached (Torrents.put t)) (
                ignore (replace_session codec previous)
                >> ignore (call_engine (engine.remove detached id false)))
              >> pure t))
  triple_added id p t own previous =
      triple_then
        (triple_or_undo (triple_record codec engine id p t own) (
          Keeps-engine codec (IsSteady codec) (engine.remove detached id false)
            (IsSteady-IsDataOnly codec)))
        (triple_then (triple_or_undo (triple_show_new codec t) (record { at = λ s e. absurd e }))
          (triple_pure t (λ s h. h)))

  Keeps-add_new :
      (id : TorrentId) (p : AddTorrentParams) (t : TorrentSnapshot)
      → t.id ≡ id
      → Keeps (IsSteady codec) (add_new engine codec id p t)
  unfolding add_new
  Keeps-add_new id p t own = record {
    at = λ d h. (triple_added id p t own (clone_session d.session)).at d h;
  }

  Keeps-created :
      (created : Bool) (id : TorrentId) (p : AddTorrentParams) (t : TorrentSnapshot)
      → t.id ≡ id
      → Keeps (IsSteady codec) (if created then add_new engine codec id p t else pure t)
  Keeps-created true id p t own = Keeps-add_new id p t own
  Keeps-created false id p t own = triple_pure t (λ s h. h)

  Post-named :
      (id : TorrentId) (d : Daemon E T) (r : Result TorrentSnapshot)
      → IsSteady codec d
      → ((t : TorrentSnapshot) → r ≡ ok t → t.id ≡ id)
      → Post (λ t s. (t.id ≡ id) × IsSteady codec s) (IsSteady codec) d r
  Post-named id d (ok t) h k = (k t refl, h)
  Post-named id d (err e) h k = h

  pub triple_snapshot :
      (c : Context) (id : TorrentId)
      → IsNamed engine
      → Triple
          (IsSteady codec)
          (call_engine (engine.snapshot c id))
          (λ t s. (t.id ≡ id) × IsSteady {E = E} codec s)
          (IsSteady codec)
  unfolding call_engine
  triple_snapshot c id n = record {
    at = λ d h.
        Post-named id (call_engine (engine.snapshot c id) d).0
          (call_engine (engine.snapshot c id) d).1
          (SameData-IsSteady codec
            (record { session = refl; torrents = refl; files = refl; attempts = refl }) h)
          (λ t e. n.named c id d.engine t e);
  }

  triple_new :
      (p : AddTorrentParams)
      → IsNamed engine
      → Keeps (IsSteady codec) (
          call_engine (engine.add request (add_input p)) >>= λ (id, created).
          call_engine (engine.snapshot request id) >>= λ t.
          if created then add_new engine codec id p t else pure t)
  triple_new p n =
      triple_bind
        (Keeps-engine codec (IsSteady codec) (engine.add request (add_input p))
          (IsSteady-IsDataOnly codec))
        λ (id, created).
          triple_bind (triple_snapshot request id n)
            λ t. record { at = λ s (own, h). (Keeps-created created id p t own).at s h }

  pub add_torrent-Keeps :
      (params : AddTorrentParams)
      → IsNamed engine
      → Keeps (IsSteady codec) (add_torrent engine codec params)
  unfolding add_torrent
  add_torrent-Keeps params n = record {
    at = λ d h. (triple_new (with_save_path d.config.download_directory params) n).at d h;
  }
