-- ===== src/Daemon/Steady/Saving.antt =====
-- The state that requests keep, and writes of the session in it.
use torrcli.Base.{
  ◌≡◌, ◌≢◌, ◌⊎◌, inl, inr, none, some, [], arith, Result, Error, ok, err, Option-cases,
}
use torrcli.Model.{Session}
use torrcli.State.Files.{Files, holds, Codec, smooth, write_json, back_up, install}
use torrcli.State.Store.{save_session}
use torrcli.State.Validate.{validate_session}
use torrcli.Torrents.Order.{IsOrdered}
use torrcli.Torrents.View.{IsKeyed}
use torrcli.Daemon.{Daemon, items, replace_session}

module _ {T : Type 0} (codec : Codec Session T) where
  -- On a disk that takes every write, a valid session is saved.
  pub save_calm :
      (s : Session) (f : Files T)
      → validate_session s ≡ none
      → (save_session codec smooth s f).1 ≡ ok tt
        × (save_session codec smooth s f).0.main ≡ holds (codec.encode s)
  unfolding save_session write_json back_up install
  save_calm s f v = (ground arith, ground arith)

  pub save_refused :
      (s : Session) (f : Files T) {e : Error}
      → validate_session s ≡ some e
      → save_session codec smooth s f ≡ (f, err e)
  unfolding save_session
  save_refused s f v = ground arith

module _ {E T : Type 0} (codec : Codec Session T) where
  -- The session in memory is valid and is the one on disk, it names the torrents that the daemon
  -- shows in their order, and the disk will take what is written.
  pub record IsSteady (d : Daemon E T) : Type 0 where
    pub valid : validate_session d.session ≡ none
    pub saved : d.files.main ≡ holds (codec.encode d.session)
    pub synced : items d.session.order ≡ d.torrents.order
    pub ordered : IsOrdered d.torrents
    pub keyed : IsKeyed d.torrents.torrents
    pub calm : d.attempts ≡ []

  -- What saving a session and putting it in place does on such a disk.
  pub record Replaced (s : Session) (d d' : Daemon E T) (r : Result (Unit {0})) : Type 0 where
    pub torrents : d'.torrents ≡ d.torrents
    pub calm : d'.attempts ≡ []
    pub outcome :
        ((validate_session s ≡ none)
          × (r ≡ ok tt)
          × (d'.session ≡ s)
          × (d'.files.main ≡ holds (codec.encode s)))
        ⊎ ((validate_session s ≢ none)
            × (r ≢ ok tt)
            × (d'.session ≡ d.session)
            × (d'.files ≡ d.files))

  pub replace-Replaced :
      (s : Session) (d : Daemon E T)
      → d.attempts ≡ []
      → Replaced s d (replace_session codec s d).0 (replace_session codec s d).1
  unfolding replace_session
  replace-Replaced s d c = elim (Option-cases (validate_session s)) [
    | inl v ↦ ground (arith, save_calm codec s d.files v)
    | inr (e, v) ↦ ground (arith, save_refused codec s d.files v)
  ]

  pub Replaced-IsSteady :
      {s : Session} {d d' : Daemon E T} {r : Result (Unit {0})}
      → Replaced s d d' r
      → IsSteady d
      → items s.order ≡ d.torrents.order
      → IsSteady d'
  Replaced-IsSteady {d} {d'} p h o = elim p.outcome [
    | inl (v, _, e, f) ↦ record {
      valid = rw e v;
      saved = rw e f;
      synced = rw (e, p.torrents) o;
      ordered = rw p.torrents h.ordered;
      keyed = rw p.torrents h.keyed;
      calm = p.calm;
    }
    | inr (_, _, e, f) ↦ record {
      valid = rw e h.valid;
      saved = rw (e, f) h.saved;
      synced = rw (e, p.torrents) h.synced;
      ordered = rw p.torrents h.ordered;
      keyed = rw p.torrents h.keyed;
      calm = p.calm;
    }
  ]
