-- ===== src/State/Store/Recovery.antt =====
-- What a save leaves on disk, and what the next load makes of it.
use torrcli.Base.{◌≡◌, ◌≢◌, ◌⊎◌, refl, arith, none, some, String, Result, ok, Error, ℕ_discrete}
use torrcli.Model.{Config, Session, default_session}
use torrcli.State.Files.{
  absent, holds, Files, Attempt, smooth, Codec, write_json, read_json, back_up, install,
}
use torrcli.State.Validate.{validate_config, validate_session, check_order}
use torrcli.State.Store.{
  save_config, load_or_create_config, save_session, load_backup, load_or_create_session,
  zero_config, zero_session,
}

pub default_session-valid : validate_session default_session ≡ none
unfolding validate_session default_session check_order ℕ_discrete
default_session-valid = refl

module _ {T : Type 0} where
  -- What a write leaves: the new text over the old file as backup, nothing changed, or, if the
  -- last rename fails, the old file under the backup's name only.
  abbrev pub Written : T → Files T → Files T → Result (Unit {0}) → Type 0
  Written text f g r =
      ((r ≡ ok tt) × (g.main ≡ holds text) × ((f.main ≢ absent) → g.backup ≡ f.main))
      ⊎ ((r ≢ ok tt) × (g ≡ f))
      ⊎ ((r ≢ ok tt) × (f.main ≢ absent) × (g.main ≡ absent) × (g.backup ≡ f.main))

  write_cases :
      (a : Attempt) (text : T) (f : Files T)
      → Written text f (write_json a text f).0 (write_json a text f).1
  unfolding write_json back_up install
  write_cases a text f = ground arith

module _ {T : Type 0} (codec : Codec Session T) where
  -- The session is read back from its text as what it was.
  abbrev pub RoundTrips : Session → Type 0
  RoundTrips s = codec.decode_into zero_session (codec.encode s) ≡ (s, none)

  -- A session that was saved is the one that the next load returns, whatever the disk held before,
  -- if JSON gives it back; and the file that was there is the backup.
  pub load-save :
      (a b : Attempt) (s : Session) (f g : Files T)
      → RoundTrips s
      → save_session codec a s f ≡ (g, ok tt)
      → (load_or_create_session codec b g ≡ (g, ok s)) × ((f.main ≢ absent) → g.backup ≡ f.main)
  unfolding save_session load_or_create_session read_json
  load-save a b s f g r h = ground (arith, write_cases a (codec.encode s) f)

  -- A save that fails leaves the files as they were, or leaves the old file as the backup only.
  pub save_failure :
      (a : Attempt) (s : Session) (f : Files T)
      → (save_session codec a s f).1 ≢ ok tt
      → ((save_session codec a s f).0 ≡ f)
        ⊎ ((f.main ≢ absent)
            × ((save_session codec a s f).0.main ≡ absent)
            × ((save_session codec a s f).0.backup ≡ f.main))
  unfolding save_session
  save_failure a s f h = ground (arith, write_cases a (codec.encode s) f)

  -- What a load returns is valid, from the file, from the backup or made anew.
  pub load-valid :
      (a : Attempt) (f : Files T) (s : Session)
      → (load_or_create_session codec a f).1 ≡ ok s
      → validate_session s ≡ none
  unfolding load_or_create_session load_backup save_session
  load-valid a f s h = ground (arith, default_session-valid)

  -- The file is lost where the last rename of a save fails: the next load does not look at the
  -- backup, which still holds the old session, but returns and writes an empty session; and the
  -- save after that replaces the backup too.
  pub session_lost :
      (text : T) (e : Error) (s next : Session) (f : Files T)
      → f.main ≡ holds text
      → validate_session s ≡ none
      → validate_session next ≡ none
      → let failed = (save_session codec (record smooth { rename = some e }) s f).0 in
        let loaded = load_or_create_session codec smooth failed in
        (failed.backup ≡ holds text)
        × (loaded.1 ≡ ok default_session)
        × (loaded.0.main ≡ holds (codec.encode default_session))
        × ((save_session codec smooth next loaded.0).0.backup
            ≡ holds (codec.encode default_session))
  unfolding save_session load_or_create_session read_json write_json back_up install
  session_lost text e s next f h v w = ground (arith, default_session-valid)

module _ {T : Type 0} (codec : Codec Config T) where
  -- A configuration that was saved is the one that the next load returns, if JSON gives it back.
  pub load-save_config :
      (a b : Attempt) (c : Config) (directory : String) (f g : Files T)
      → codec.decode_into zero_config (codec.encode c) ≡ (c, none)
      → save_config codec a c f ≡ (g, ok tt)
      → load_or_create_config codec b directory g ≡ (g, ok c)
  unfolding save_config load_or_create_config read_json
  load-save_config a b c directory f g r h = ground (arith, write_cases a (codec.encode c) f)

  -- What a load of the configuration returns is valid, from the file or made anew.
  pub load_config-valid :
      (a : Attempt) (c : Config) (directory : String) (f : Files T)
      → (load_or_create_config codec a directory f).1 ≡ ok c
      → validate_config c ≡ none
  unfolding load_or_create_config save_config
  load_config-valid a c directory f h = ground arith
