-- ===== src/State/Store.antt =====
-- internal/state/store.go: saving and loading the configuration and the session.
pub mod Recovery
use torrcli.Base.{
  pos, ◌≡◌, Option, none, some, String, Result, ok, err, Error, not_found, canceled, not_exist,
  plain, about, wrap, other, Exec, pure, fail, ◌>>=◌, ◌>>◌,
}
use torrcli.Model.{Config, Session, default_config, default_session}
use torrcli.State.Files.{File, Files, Attempt, Codec, write_json, read_json}
use torrcli.State.Validate.{validate_config, validate_session}

-- `errors.Is(err, fs.ErrNotExist)`, of the errors that readJSON returns.
abbrev pub is_not_exist {ℓ} : {A : Type ℓ} → Error → A → A → A
is_not_exist not_exist x y = x
is_not_exist _ x y = y

-- `fmt.Errorf("prefix: %w", err)` round the error of a call.
abbrev pub wrapping : {S A : Type 0} → String → Exec S A → Exec S A
wrapping prefix m s = elim (m s).1 [
  | ok a ↦ ((m s).0, ok a)
  | err e ↦ ((m s).0, err (wrap prefix e))
]

-- `var config model.Config` and `var session model.Session`.
unfoldable pub zero_config : Config
zero_config = record {
  download_directory = "";
  max_active_downloads = pos 0;
  max_active_seeds = pos 0;
  download_limit = pos 0;
  upload_limit = pos 0;
  listen_port = pos 0;
}

unfoldable pub zero_session : Session
zero_session = record { order = none; torrents = none }

module _ {T : Type 0} (codec : Codec Config T) where
  unfoldable pub save_config : Attempt → Config → Exec (Files T) (Unit {0})
  save_config a config = elim (validate_config config) [
    | some e ↦ fail e
    | none ↦ wrapping "write config" (write_json a (codec.encode config))
  ]

  unfoldable pub load_or_create_config : Attempt → String → Exec (Files T) Config
  load_or_create_config a download_directory f =
      let (config, failed) = read_json codec f.main zero_config in
      elim failed [
        | none ↦ elim (validate_config config) [ none ↦ (f, ok config) | some e ↦ (f, err e) ]
        | some e ↦
            is_not_exist e
              ((save_config a (default_config download_directory)
                  >> pure (default_config download_directory))
                f)
              (f, err (wrap "read config" e))
      ]

module _ {T : Type 0} (codec : Codec Session T) where
  unfoldable pub save_session : Attempt → Session → Exec (Files T) (Unit {0})
  save_session a session = elim (validate_session session) [
    | some e ↦ fail e
    | none ↦ wrapping "write session" (write_json a (codec.encode session))
  ]

  -- What is tried where the file is there and cannot be read: the backup, decoded over what the
  -- first attempt left in the value.
  unfoldable pub load_backup : Error → Session → Exec (Files T) Session
  load_backup e left f =
      let (session, failed) = read_json codec f.backup left in
      elim failed [
        | none ↦ elim (validate_session session) [
          | none ↦ (f, ok session)
          | some _ ↦ (f, err (wrap "read session" e))
        ]
        | some _ ↦ (f, err (wrap "read session" e))
      ]

  unfoldable pub load_or_create_session : Attempt → Exec (Files T) Session
  load_or_create_session a f =
      let (session, failed) = read_json codec f.main zero_session in
      elim failed [
        | none ↦ elim (validate_session session) [ none ↦ (f, ok session) | some e ↦ (f, err e) ]
        | some e ↦
            is_not_exist e ((save_session a default_session >> pure default_session) f)
              (load_backup e session f)
      ]
