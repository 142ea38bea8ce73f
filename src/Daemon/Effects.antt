-- ===== src/Daemon/Effects.antt =====
-- internal/daemon/controls.go: what the operations have done when they succeed.
use torrcli.Base.{
  ◌≡◌, ◌≢◌, inl, inr, arith, some, dec_str, lookup, lookup-put_self, lookup-put_ne, ok,
  Option-cases,
}
use torrcli.Model.{Session, TorrentId, TorrentRecord}
use torrcli.State.Files.{Codec}
use torrcli.Daemon.{Daemon, items, clone_session, save}
use torrcli.Daemon.Records.{Update, apply_update, update_record}

module _ {E T : Type 0} (codec : Codec Session T) where
  -- An update that succeeds is in the session in memory, and changes no other record; the torrents shown and
  -- the engine are as they were.
  pub update_record-done :
      (id : TorrentId) (u : Update) (d : Daemon E T)
      → (update_record codec id u d).1 ≡ ok tt
      → (r : TorrentRecord) × (lookup dec_str id (items d.session.torrents) ≡ some r)
        × (lookup dec_str id (items (update_record codec id u d).0.session.torrents)
            ≡ some (apply_update u r))
        × ((j : TorrentId)
            → id ≢ j
            → lookup dec_str j (items (update_record codec id u d).0.session.torrents)
              ≡ lookup dec_str j (items d.session.torrents))
        × ((update_record codec id u d).0.torrents ≡ d.torrents)
        × ((update_record codec id u d).0.engine ≡ d.engine)
  unfolding update_record save clone_session
  update_record-done id u d h = elim (Option-cases (lookup dec_str id (items d.session.torrents))) [
    | inl e ↦ absurd (ground arith)
    | inr (r, e) ↦ (
      r,
      e,
      ground (arith, lookup-put_self dec_str id (apply_update u r) (items d.session.torrents)),
      (λ j n.
          ground (arith, lookup-put_ne dec_str j id (apply_update u r) (items d.session.torrents))),
      ground arith,
      ground arith,
    )
  ]
