-- ===== src/Daemon/Steady/Moving.antt =====
-- internal/daemon/controls.go: moveTorrent and the state that requests keep.
use torrcli.Base.{
  ℕ, ℤ, ◌≡◌, inl, inr, refl, sym, ◌∙◌, none, some, [], arith, dec_str, index_of, index_of-count,
  Result, ok, err, not_found, Option-cases, or_undo, ◌>>◌,
}
use torrcli.Base.Outcome.Triple.{Triple, Keeps, Post, triple_then, triple_or_undo}
use torrcli.Model.{Session, TorrentId, zero_snapshot}
use torrcli.State.Files.{Codec, holds}
use torrcli.State.Validate.{validate_session}
use torrcli.Engine.{Engine, request, detached}
use torrcli.Torrents
use torrcli.Torrents.{SessionState}
use torrcli.Torrents.Order.{IsOrdered, count-move_order}
use torrcli.Torrents.View.{IsKeyed}
use torrcli.Daemon.{Daemon, items, clone_session, replace_session, run_torrents}
use torrcli.Daemon.Controls.{moved_session, move_torrent}
use torrcli.Daemon.Steady.Sessions.{clone-same, clone_items}
use torrcli.Daemon.Steady.Saving.{IsSteady, Replaced, replace-Replaced}
use torrcli.Daemon.Steady.Steps.{SameData-IsSteady, Keeps-list}

moved_items :
    (id : TorrentId) (index : ℕ) (offset : ℤ) (s : Session)
    → index_of dec_str id (items s.order) ≡ some index
    → items (moved_session index offset s).order ≡ Torrents.move_order index offset (items s.order)
unfolding index_of
moved_items id index offset s i = elim (Option-cases s.order) [
  | inl f ↦ absurd (ground arith)
  | inr (order, f) ↦ rw f refl
]

move_found :
    (id : TorrentId) (offset : ℤ) (index : ℕ) (s : SessionState)
    → index_of dec_str id s.order ≡ some index
    → Torrents.move id offset s
      ≡ (record s { order = Torrents.move_order index offset s.order }, ok tt)
unfolding Torrents.move
move_found id offset index s e = rw (e, Torrents.move)

module _ {E T : Type 0} (codec : Codec Session T) where
  -- The torrent has been moved in the session, and not yet where it is shown.
  record IsMoving (id : TorrentId) (index : ℕ) (offset : ℤ) (d : Daemon E T) : Type 0 where
    valid : validate_session d.session ≡ none
    saved : d.files.main ≡ holds (codec.encode d.session)
    at : index_of dec_str id d.torrents.order ≡ some index
    synced : items d.session.order ≡ Torrents.move_order index offset d.torrents.order
    ordered : IsOrdered d.torrents
    keyed : IsKeyed d.torrents.torrents
    calm : d.attempts ≡ []

  Post-moved :
      (id : TorrentId) (index : ℕ) (offset : ℤ) (s : Session) (d d' : Daemon E T)
      (r : Result (Unit {0}))
      → IsSteady codec d
      → index_of dec_str id d.torrents.order ≡ some index
      → items s.order ≡ Torrents.move_order index offset d.torrents.order
      → Replaced codec s d d' r
      → Post (λ u s'. IsMoving id index offset s') (IsSteady codec) d' r
  Post-moved id index offset s d d' (ok u) h i o p = elim p.outcome [
    | inl (v, _, e, f) ↦ record {
      valid = rw e v;
      saved = rw e f;
      at = rw p.torrents i;
      synced = rw (e, p.torrents) o;
      ordered = rw p.torrents h.ordered;
      keyed = rw p.torrents h.keyed;
      calm = p.calm;
    }
    | inr (_, n, _, _) ↦ absurd (n refl)
  ]
  Post-moved id index offset s d d' (err x) h i o p = elim p.outcome [
    | inl (v, e, _, _) ↦ absurd (ground arith)
    | inr (_, _, e, f) ↦
        SameData-IsSteady codec
          (record { session = e; torrents = p.torrents; files = f; attempts = p.calm ∙ sym h.calm })
          h
  ]

  -- The torrent is found where it is shown, so that the rollback is never made.
  triple_move :
      (id : TorrentId) (index : ℕ) (offset : ℤ)
      → Triple
          (IsMoving id index offset)
          (run_torrents detached (Torrents.move id offset))
          (λ u s. IsSteady codec s)
          (λ s. ⊥)
  unfolding run_torrents
  triple_move id index offset = record {
    at = λ d h. rw (move_found id offset index d.torrents h.at) (record {
      valid = h.valid;
      saved = h.saved;
      synced = h.synced;
      ordered = λ k. rw count-move_order (h.ordered k);
      keyed = h.keyed;
      calm = h.calm;
    });
  }

  move_torrent_found :
      (engine : Engine E) (id : TorrentId) (offset : ℤ) (index : ℕ) (d : Daemon E T)
      → index_of dec_str id (items (clone_session d.session).order) ≡ some index
      → move_torrent engine codec id offset d
        ≡ (replace_session codec (moved_session index offset (clone_session d.session))
              >> or_undo
                  (run_torrents detached (Torrents.move id offset))
                  (replace_session codec (clone_session d.session))
              >> run_torrents request (Torrents.list zero_snapshot))
            d
  unfolding move_torrent replace_session clone_session
  move_torrent_found engine id offset index d i = rw (i, move_torrent)

  triple_saved :
      (id : TorrentId) (offset : ℤ) (index : ℕ) (d : Daemon E T)
      → IsSteady codec d
      → index_of dec_str id (items d.session.order) ≡ some index
      → Triple
          (λ d'. d' ≡ d)
          (replace_session codec (moved_session index offset d.session))
          (λ u s. IsMoving id index offset s)
          (IsSteady codec)
  triple_saved id offset index d h i = record {
    at = λ d' e.
        let s = moved_session index offset d.session in
        rw e (
          Post-moved id index offset s d (replace_session codec s d).0 (replace_session codec s d).1
            h (rw (sym h.synced) i) (rw (sym h.synced) (moved_items id index offset d.session i))
            (replace-Replaced codec s d h.calm));
  }

  triple_moved :
      (id : TorrentId) (offset : ℤ) (index : ℕ) (d : Daemon E T)
      → IsSteady codec d
      → index_of dec_str id (items d.session.order) ≡ some index
      → Triple
          (λ d'. d' ≡ d)
          (replace_session codec (moved_session index offset d.session)
            >> or_undo
                (run_torrents detached (Torrents.move id offset))
                (replace_session codec d.session)
            >> run_torrents request (Torrents.list zero_snapshot))
          (λ ts s. IsSteady codec s)
          (IsSteady codec)
  triple_moved id offset index d h i =
      triple_then
        (triple_then (triple_saved id offset index d h i)
          (triple_or_undo (triple_move id index offset) (record { at = λ s e. absurd e })))
        (Keeps-list codec zero_snapshot)

  move_torrent_missing :
      (engine : Engine E) (id : TorrentId) (offset : ℤ) (d : Daemon E T)
      → index_of dec_str id (items (clone_session d.session).order) ≡ none
      → move_torrent engine codec id offset d ≡ (d, err (not_found id))
  unfolding move_torrent clone_session
  move_torrent_missing engine id offset d i = rw (i, move_torrent)

module _ {E T : Type 0} (engine : Engine E) (codec : Codec Session T) where
  pub move_torrent-Keeps :
      (id : TorrentId) (offset : ℤ) → Keeps (IsSteady codec) (move_torrent engine codec id offset)
  move_torrent-Keeps id offset = record {
    at = λ d h. elim (Option-cases (index_of dec_str id (items d.session.order))) [
      | inl i ↦ rw (move_torrent_missing codec engine id offset d (rw (clone_items d.session) i)) h
      | inr (index, i) ↦
          let c =
            clone-same d.session id h.valid
              (index_of-count dec_str id (items d.session.order) index i) in
          rw (move_torrent_found codec engine id offset index d (rw c i), c)
            ((triple_moved codec id offset index d h i).at d refl)
    ];
  }
