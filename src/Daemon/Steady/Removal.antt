-- ===== src/Daemon/Steady/Removal.antt =====
-- internal/daemon/controls.go: removeTorrent and the state that requests keep.
use torrcli.Base.{
  ◌≡◌, ◌<◌, inl, inr, refl, sym, Bool, none, some, [], arith, dec_str, lookup, present, count,
  lookup_of_present, remove as delete, erase, Result, ok, err, not_found, Option-cases, ◌>>◌,
  continue, pure, ap, ◌∙◌,
}
use torrcli.Base.Outcome.Triple.{Triple, Keeps, Post, triple_bind, triple_then, triple_or_undo}
use torrcli.Model.{Session, TorrentId, TorrentRecord}
use torrcli.State.Files.{Codec, holds}
use torrcli.State.Validate.{validate_session}
use torrcli.Engine.{Engine, request, detached}
use torrcli.Torrents
use torrcli.Torrents.{SessionState}
use torrcli.Torrents.Order.{IsOrdered, remove-IsOrdered}
use torrcli.Torrents.Commands.{remove-IsKeyed}
use torrcli.Torrents.View.{IsKeyed}
use torrcli.Daemon.{Daemon, items, clone_session, replace_session, run_torrents, unschedule}
use torrcli.Daemon.Records.{remove_record}
use torrcli.Daemon.Controls.{remove_torrent}
use torrcli.Daemon.Steady.Sessions.{in_order, clone-same}
use torrcli.Daemon.Steady.Saving.{IsSteady, Replaced, replace-Replaced}
use torrcli.Daemon.Steady.Steps.{SameData-IsSteady, Post-same, IsDataOnly, Keeps-engine}

-- `removeRecord`'s session.
abbrev without_record : TorrentId → Session → Session
without_record id s = record {
  torrents = some (delete dec_str id (items s.torrents));
  order = elim s.order [ none ↦ none | some order ↦ some (erase dec_str id order) ];
}

shrunk :
    (id : TorrentId) (s : Session)
    → items (without_record id s).order ≡ erase dec_str id (items s.order)
unfolding erase
shrunk id s = elim (Option-cases s.order) [
  | inl e ↦ rw e (ground arith)
  | inr (order, e) ↦ rw e refl
]

removed_order :
    (id : TorrentId) (s : SessionState)
    → 0 < present dec_str id s.torrents
    → (Torrents.remove id s).0.order ≡ erase dec_str id s.order
unfolding Torrents.remove
removed_order id s h = ground (arith, lookup_of_present dec_str id s.torrents h)

module _ {E T : Type 0} (codec : Codec Session T) where
  -- The torrent has left the session and is still shown; `previous` is the session that had it.
  record IsLeaving (id : TorrentId) (previous : Session) (d : Daemon E T) : Type 0 where
    before : validate_session previous ≡ none
    shown : items previous.order ≡ d.torrents.order
    valid : validate_session d.session ≡ none
    saved : d.files.main ≡ holds (codec.encode d.session)
    synced : items d.session.order ≡ erase dec_str id d.torrents.order
    ordered : IsOrdered d.torrents
    keyed : IsKeyed d.torrents.torrents
    calm : d.attempts ≡ []
    there : 0 < present dec_str id d.torrents.torrents

  IsLeaving-IsDataOnly :
      (id : TorrentId) (previous : Session) → IsDataOnly {E = E} codec (IsLeaving id previous)
  IsLeaving-IsDataOnly id previous = record {
    moved = λ s h. record {
      before = h.before;
      shown = rw s.torrents h.shown;
      valid = rw s.session h.valid;
      saved = rw (s.session, s.files) h.saved;
      synced = rw (s.session, s.torrents) h.synced;
      ordered = rw s.torrents h.ordered;
      keyed = rw s.torrents h.keyed;
      calm = rw s.attempts h.calm;
      there = rw s.torrents h.there;
    };
  }

  Post-removed :
      (id : TorrentId) (s : Session) (d d' : Daemon E T) (r : Result (Unit {0}))
      → IsSteady codec d
      → 0 < count dec_str id (items d.session.order)
      → items s.order ≡ erase dec_str id (items d.session.order)
      → Replaced codec s d d' r
      → Post
          (λ previous s'. IsLeaving id previous s')
          (IsSteady codec)
          (continue d' r (λ _. pure d.session)).0
          (continue d' r (λ _. pure d.session)).1
  Post-removed id s d d' (ok u) h c o p = elim p.outcome [
    | inl (v, _, e, f) ↦ record {
      before = h.valid;
      shown = rw p.torrents h.synced;
      valid = rw e v;
      saved = rw e f;
      synced = rw (e, p.torrents, sym h.synced) o;
      ordered = rw p.torrents h.ordered;
      keyed = rw p.torrents h.keyed;
      calm = p.calm;
      there = rw p.torrents (omega (arith, h.ordered id, ap (count dec_str id) h.synced));
    }
    | inr (_, n, _, _) ↦ absurd (n refl)
  ]
  Post-removed id s d d' (err x) h c o p = elim p.outcome [
    | inl (v, e, _, _) ↦ absurd (ground arith)
    | inr (_, _, e, f) ↦
        SameData-IsSteady codec
          (record { session = e; torrents = p.torrents; files = f; attempts = p.calm ∙ sym h.calm })
          h
  ]

  remove_record_found :
      (id : TorrentId) (d : Daemon E T) (r : TorrentRecord)
      → lookup dec_str id (items d.session.torrents) ≡ some r
      → remove_record codec id d
        ≡ (replace_session codec (without_record id (clone_session d.session))
              >> pure (clone_session d.session))
            d
  unfolding remove_record replace_session clone_session
  remove_record_found id d r e = rw (e, remove_record)

  remove_record_missing :
      (id : TorrentId) (d : Daemon E T)
      → lookup dec_str id (items d.session.torrents) ≡ none
      → remove_record codec id d ≡ (d, err (not_found id))
  unfolding remove_record
  remove_record_missing id d e = rw (e, remove_record)

  triple_remove_record :
      (id : TorrentId)
      → Triple
          (IsSteady {E = E} codec)
          (remove_record codec id)
          (λ previous s. IsLeaving id previous s)
          (IsSteady codec)
  triple_remove_record id = record {
    at = λ d h. elim (Option-cases (lookup dec_str id (items d.session.torrents))) [
      | inl e ↦ rw (remove_record_missing id d e) h
      | inr (r, e) ↦
          let c = in_order d.session id r h.valid e in
          let p = replace-Replaced codec (without_record id d.session) d h.calm in
          rw (remove_record_found id d r e, clone-same d.session id h.valid c)
            (Post-removed id (without_record id d.session) d
              (replace_session codec (without_record id d.session) d).0
              (replace_session codec (without_record id d.session) d).1 h c (shrunk id d.session) p)
    ];
  }

  -- The rollback.
  restored :
      (id : TorrentId) (previous : Session) (d d' : Daemon E T) (r : Result (Unit {0}))
      → IsLeaving id previous d
      → Replaced codec previous d d' r
      → Post (λ u s. IsSteady codec s) (IsSteady codec) d' r
  restored id previous d d' r h p =
      let back : IsSteady codec d' = elim p.outcome [
        | inl (v, _, e, f) ↦ record {
          valid = rw e v;
          saved = rw e f;
          synced = rw (e, p.torrents) h.shown;
          ordered = rw p.torrents h.ordered;
          keyed = rw p.torrents h.keyed;
          calm = p.calm;
        }
        | inr (n, _, _, _) ↦ absurd (n h.before)
      ] in
      Post-same codec (IsSteady codec) d' r back

  triple_restore :
      (id : TorrentId) (previous : Session)
      → Triple
          (IsLeaving id previous)
          (replace_session codec previous)
          (λ u s. IsSteady codec s)
          (IsSteady codec)
  triple_restore id previous = record {
    at = λ d h.
        restored id previous d (replace_session codec previous d).0
          (replace_session codec previous d).1 h (replace-Replaced codec previous d h.calm);
  }

  triple_hide :
      (id : TorrentId) (previous : Session)
      → Triple
          (IsLeaving id previous)
          (run_torrents detached (Torrents.remove id))
          (λ u s. IsSteady codec s)
          (IsSteady codec)
  unfolding run_torrents
  triple_hide id previous = record {
    at = λ d h.
        Post-same codec (IsSteady codec) (run_torrents detached (Torrents.remove id) d).0
          (run_torrents detached (Torrents.remove id) d).1
          (record {
            valid = h.valid;
            saved = h.saved;
            synced = h.synced ∙ sym (removed_order id d.torrents h.there);
            ordered = remove-IsOrdered id d.torrents h.ordered;
            keyed = remove-IsKeyed id d.torrents h.keyed;
            calm = h.calm;
          });
  }

  triple_quiet :
      (id : TorrentId) (previous : Session)
      → Triple
          (IsLeaving id previous)
          (unschedule id)
          (λ u s. IsLeaving id previous s)
          (IsSteady codec)
  unfolding unschedule
  triple_quiet id previous = record {
    at = λ d h.
        (IsLeaving-IsDataOnly id previous).moved
          (record { session = refl; torrents = refl; files = refl; attempts = refl }) h;
  }

module _ {E T : Type 0} (engine : Engine E) (codec : Codec Session T) where
  pub remove_torrent-Keeps :
      (id : TorrentId) (delete_data : Bool)
      → Keeps (IsSteady codec) (remove_torrent engine codec id delete_data)
  unfolding remove_torrent
  remove_torrent-Keeps id delete_data = triple_bind (triple_remove_record codec id) λ previous.
      triple_then
        (triple_or_undo
          (Keeps-engine codec (IsLeaving codec id previous) (engine.remove request id delete_data)
            (IsLeaving-IsDataOnly codec id previous))
          (triple_restore codec id previous))
        (triple_then (triple_quiet codec id previous) (triple_hide codec id previous))
