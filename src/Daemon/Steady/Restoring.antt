-- ===== src/Daemon/Steady/Restoring.antt =====
-- internal/daemon/daemon.go: a torrent that restoreSession shows, and the state that requests keep.
use torrcli.Base.{
  ◌≡◌, inl, inr, refl, ap, subst, ◌∙◌, Bool, true, false, String, List, [], ◌∷◌, ◌++◌, arith,
  dec_str, ite, lookup, present_of_some, count, Result, ok, err, Error, Exec, pure, fail,
  Option-cases, if◌then◌else◌,
}
use torrcli.Base.Outcome.Triple.{
  Triple, Keeps, Post, triple_bind, triple_then, triple_pure, triple_fail,
}
use torrcli.Model.{Session, TorrentId, TorrentRecord, TorrentSnapshot}
use torrcli.State.Files.{Codec}
use torrcli.Engine.{Engine, request, detached}
use torrcli.Torrents
use torrcli.Torrents.{SessionState, new_state}
use torrcli.Torrents.Order.{IsOrdered, put-IsOrdered}
use torrcli.Torrents.View.{IsKeyed}
use torrcli.Daemon.{Daemon, put_torrent, call_engine, run_torrents}
use torrcli.Daemon.Controls.{Strconv}
use torrcli.Daemon.Restore.{is_paused, restore_input, failed_torrent, restore_torrent, restore_one}
use torrcli.Daemon.Steady.Steps.{IsDataOnly, Keeps-engine}
use torrcli.Torrents.Commands.{put-IsKeyed}
use torrcli.Daemon.Steady.Adding.{IsNamed}
use torrcli.Daemon.Steady.Recording.{put_order_new}

-- A new torrent goes to the end of the order.
put-appends :
    (t : TorrentSnapshot) (s : SessionState)
    → IsOrdered s
    → count dec_str t.id s.order ≡ 0
    → (Torrents.put t s).0.order ≡ s.order ++ t.id ∷ []
put-appends t s o h = elim (Option-cases (lookup dec_str t.id s.torrents)) [
  | inl e ↦ put_order_new t s e
  | inr (u, e) ↦ absurd (omega (arith, o t.id, present_of_some dec_str t.id s.torrents e))
]

module _ {E T : Type 0} (codec : Codec Session T) where
  -- The torrents of the session's order up to some point are shown; nothing else has changed.
  pub record IsRestoring (start : Daemon E T) (done : List TorrentId) (d : Daemon E T)
      : Type 0 where
    pub session : d.session ≡ start.session
    pub files : d.files ≡ start.files
    pub attempts : d.attempts ≡ start.attempts
    pub order : d.torrents.order ≡ done
    pub ordered : IsOrdered d.torrents
    pub keyed : IsKeyed d.torrents.torrents

  IsRestoring-IsDataOnly :
      (start : Daemon E T) (done : List TorrentId) → IsDataOnly codec (IsRestoring start done)
  IsRestoring-IsDataOnly start done = record {
    moved = λ s h. record {
      session = s.session ∙ h.session;
      files = s.files ∙ h.files;
      attempts = s.attempts ∙ h.attempts;
      order = rw s.torrents h.order;
      ordered = rw s.torrents h.ordered;
      keyed = rw s.torrents h.keyed;
    };
  }

  triple_put_next :
      (start : Daemon E T) (done : List TorrentId) (t : TorrentSnapshot) (R : Daemon E T → Type 0)
      → count dec_str t.id done ≡ 0
      → Triple
          (IsRestoring start done)
          (put_torrent detached t)
          (λ u d. IsRestoring start (done ++ t.id ∷ []) d)
          R
  unfolding put_torrent run_torrents Torrents.put
  triple_put_next start done t R c = record {
    at = λ d h. record {
      session = h.session;
      files = h.files;
      attempts = h.attempts;
      order =
          put-appends t d.torrents h.ordered (ap (count dec_str t.id) h.order ∙ c)
          ∙ ap (λ l. l ++ t.id ∷ []) h.order;
      ordered = put-IsOrdered t d.torrents h.ordered;
      keyed = put-IsKeyed t d.torrents h.keyed;
    };
  }

module _ {E T : Type 0} (engine : Engine E) (codec : Codec Session T) (strconv : Strconv)
    (describe : Error → String) where
  module _ (start : Daemon E T) (done : List TorrentId) where
    Keeps-call : {A : Type 0} (m : Exec E A) → Keeps (IsRestoring codec start done) (call_engine m)
    Keeps-call m =
        Keeps-engine codec (IsRestoring codec start done) m
          (IsRestoring-IsDataOnly codec start done)

    Post-snapshot :
        (id : TorrentId) (d : Daemon E T) (r : Result TorrentSnapshot)
        → IsRestoring codec start done d
        → ((t : TorrentSnapshot) → r ≡ ok t → t.id ≡ id)
        → Post
            (λ t s. (t.id ≡ id) × IsRestoring codec start done s)
            (IsRestoring codec start done)
            d
            r
    Post-snapshot id d (ok t) h k = (k t refl, h)
    Post-snapshot id d (err e) h k = h

    triple_snapshot_of :
        (id : TorrentId)
        → IsNamed engine
        → Triple
            (IsRestoring codec start done)
            (call_engine (engine.snapshot request id))
            (λ t s. (t.id ≡ id) × IsRestoring codec start done s)
            (IsRestoring codec start done)
    unfolding call_engine
    triple_snapshot_of id n = record {
      at = λ d h.
          Post-snapshot id (call_engine (engine.snapshot request id) d).0
            (call_engine (engine.snapshot request id) d).1
            ((IsRestoring-IsDataOnly codec start done).moved
              (record { session = refl; torrents = refl; files = refl; attempts = refl }) h)
            (λ t e. n.named request id d.engine t e);
    }

    Keeps-matching :
        (restored id : TorrentId) (e : Error)
        → Keeps
            (IsRestoring codec start done)
            (ite (dec_str restored id) (pure tt) (fail {S = Daemon E T} e))
    Keeps-matching restored id e = matching (dec_str restored id)
      where
        matching :
            (x : Dec (restored ≡ id))
            → Keeps (IsRestoring codec start done) (ite x (pure tt) (fail {S = Daemon E T} e))
        matching (yes p) = triple_pure tt (λ s h. h)
        matching (no p) = triple_fail e (λ s h. h)

    Keeps-paused :
        (b : Bool) {m : Exec (Daemon E T) (Unit {0})}
        → Keeps (IsRestoring codec start done) m
        → Keeps (IsRestoring codec start done) (if b then m else pure tt)
    Keeps-paused true k = k
    Keeps-paused false k = triple_pure tt (λ s h. h)

    triple_restore_torrent :
        (id : TorrentId) (r : TorrentRecord)
        → IsNamed engine
        → Triple
            (IsRestoring codec start done)
            (restore_torrent engine strconv describe id r)
            (λ t s. (t.id ≡ id) × IsRestoring codec start done s)
            (IsRestoring codec start done)
    unfolding restore_torrent
    triple_restore_torrent id r n =
        triple_bind (Keeps-call (engine.add request (restore_input strconv r)))
          λ (restored, created). triple_then (Keeps-matching restored id _) (
            triple_then (Keeps-paused (is_paused r) (Keeps-call (engine.pause request id))) (
              triple_bind (triple_snapshot_of id n)
                λ t. triple_pure (record t { added_at = r.added_at }) (λ s h. h)))

    -- A torrent is shown in its place, restored or not.
    pub triple_restore_one :
        (id : TorrentId) (r : TorrentRecord)
        → IsNamed engine
        → count dec_str id done ≡ 0
        → Triple
            (IsRestoring codec start done)
            (restore_one engine strconv describe id r)
            (λ u d. IsRestoring codec start (done ++ id ∷ []) d)
            (λ d. ⊥)
    unfolding restore_one failed_torrent
    triple_restore_one id r n c = record {
      at = λ d h.
          shown d (restore_torrent engine strconv describe id r d).1 refl
            ((triple_restore_torrent id r n).at d h);
    }
      where
        shown :
            (d : Daemon E T) (x : Result TorrentSnapshot)
            → (restore_torrent engine strconv describe id r d).1 ≡ x
            → Post
                (λ t s. (t.id ≡ id) × IsRestoring codec start done s)
                (IsRestoring codec start done)
                (restore_torrent engine strconv describe id r d).0
                x
            → Post
                (λ u d. IsRestoring codec start (done ++ id ∷ []) d)
                (λ d. ⊥)
                (restore_one engine strconv describe id r d).0
                (restore_one engine strconv describe id r d).1
        shown d (ok t) f (own, h) =
            rw (f, restore_one)
              (subst
                (λ i.
                  IsRestoring codec start (done ++ i ∷ [])
                    (put_torrent detached t (restore_torrent engine strconv describe id r d).0).0)
                own
                ((triple_put_next codec start done t (λ d. ⊥)
                    (ap (λ i. count dec_str i done) own ∙ c)).at
                  (restore_torrent engine strconv describe id r d).0 h))
        shown d (err x) f h =
            rw (f, restore_one)
              ((triple_put_next codec start done (failed_torrent describe id r x) (λ d. ⊥) c).at
                (restore_torrent engine strconv describe id r d).0 h)
