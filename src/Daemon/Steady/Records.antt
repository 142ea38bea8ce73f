-- ===== src/Daemon/Steady/Records.antt =====
-- internal/daemon/controls.go: updateRecord and the state that requests keep.
use torrcli.Base.{◌≡◌, inl, inr, none, some, dec_str, lookup, Result, ok, err, not_found}
use torrcli.Model.{Session, TorrentId, TorrentRecord}
use torrcli.State.Files.{Codec}
use torrcli.Daemon.{Daemon, items, clone_session, replace_session}
use torrcli.Daemon.Records.{Update, with_record, update_record, apply_update, shared_update}
use torrcli.Daemon.Steady.Sessions.{IsAllowed, update-valid, in_order, clone-same}
use torrcli.Daemon.Steady.Saving.{IsSteady, replace-Replaced}

module _ {E T : Type 0} (codec : Codec Session T) where
  -- The daemon after the closure of `updateRecord` has written through a shared map.
  abbrev leaked : Update → TorrentId → TorrentRecord → Daemon E T → Daemon E T
  leaked u id r d = record d { session = with_record id (shared_update u r) d.session }

  pub update_record_missing :
      (id : TorrentId) (u : Update) (d : Daemon E T)
      → lookup dec_str id (items d.session.torrents) ≡ none
      → update_record codec id u d ≡ (d, err (not_found id))
  unfolding update_record
  update_record_missing id u d e = rw (e, update_record)

  update_record_found :
      (id : TorrentId) (u : Update) (d : Daemon E T) (r : TorrentRecord)
      → lookup dec_str id (items d.session.torrents) ≡ some r
      → update_record codec id u d
        ≡ replace_session codec
            (with_record id (apply_update u r) (clone_session d.session))
            (leaked u id r d)
  unfolding update_record replace_session
  update_record_found id u d r e = rw (e, update_record)

  -- On a disk that takes every write an update is made and saved.
  pub record Updated (id : TorrentId) (u : Update) (r : TorrentRecord) (d d' : Daemon E T)
      (result : Result (Unit {0})) : Type 0 where
    pub succeeds : result ≡ ok tt
    pub session : d'.session ≡ with_record id (apply_update u r) d.session
    pub steady : IsSteady codec d'
    pub torrents : d'.torrents ≡ d.torrents

  pub update_record-Updated :
      (id : TorrentId) (u : Update) (d : Daemon E T) (r : TorrentRecord)
      → IsAllowed u
      → IsSteady codec d
      → lookup dec_str id (items d.session.torrents) ≡ some r
      → Updated id u r d (update_record codec id u d).0 (update_record codec id u d).1
  update_record-Updated id u d r a h e =
      let same = clone-same d.session id h.valid (in_order d.session id r h.valid e) in
      let v = update-valid d.session id r u h.valid e a in
      let p =
        replace-Replaced codec (with_record id (apply_update u r) d.session) (leaked u id r d)
          h.calm in
      rw (update_record_found id u d r e, same)
        (elim p.outcome [
          | inl (_, done, s, f) ↦ record {
            succeeds = done;
            session = s;
            steady = record {
              valid = rw s v;
              saved = rw s f;
              synced = rw (s, p.torrents) h.synced;
              ordered = rw p.torrents h.ordered;
              keyed = rw p.torrents h.keyed;
              calm = p.calm;
            };
            torrents = p.torrents;
          }
          | inr (n, _, _, _) ↦ absurd (n v)
        ])
