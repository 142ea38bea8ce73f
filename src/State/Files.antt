-- ===== src/State/Files.antt =====
-- internal/state/store.go: readJSON and writeJSON, over a file and its backup. JSON is a parameter;
-- so is what the operating system answers. The temporary file lives within one write: it is never
-- read, and the deferred `os.Remove` takes it away on an error.
use torrcli.Base.{Option, none, some, ok, err, Error, not_exist, Exec, ◌>>◌}

-- A file: not there, there with an error on reading it, or there with a text.
pub data File (T : Type 0) : Type 0 where
  absent : File T
  unreadable : Error → File T
  holds : T → File T

-- `path` and `path + ".bak"`.
pub record Files (T : Type 0) : Type 0 where
  pub main : File T
  pub backup : File T

-- What each call of one writeJSON returns as its error. `stat` is an error other than
-- `fs.ErrNotExist`.
pub record Attempt : Type 0 where
  pub mkdir_all : Option Error
  pub create_temp : Option Error
  pub chmod : Option Error
  pub encode : Option Error
  pub sync : Option Error
  pub close : Option Error
  pub stat : Option Error
  pub rename_backup : Option Error
  pub rename : Option Error

abbrev pub smooth : Attempt
smooth = record {
  mkdir_all = none;
  create_temp = none;
  chmod = none;
  encode = none;
  sync = none;
  close = none;
  stat = none;
  rename_backup = none;
  rename = none;
}

-- encoding/json at one type. `decode_into` fills a value that may hold something already, and may
-- leave it half filled beside an error.
pub record Codec (A T : Type 0) : Type 0 where
  pub encode : A → T
  pub decode_into : A → T → A × Option Error

module _ {T : Type 0} where
  -- `if err := call(); err != nil { return err }`.
  abbrev pub called : Option Error → Exec (Files T) (Unit {0})
  called none f = (f, ok tt)
  called (some e) f = (f, err e)

  -- `os.Stat(path)`, and the rename to the backup if there is a file.
  unfoldable pub back_up : Attempt → Exec (Files T) (Unit {0})
  back_up a f = elim f.main [
    | absent ↦ called a.stat f
    | unreadable e ↦ (called a.stat >> called a.rename_backup >> moved) f
    | holds t ↦ (called a.stat >> called a.rename_backup >> moved) f
  ]
    where
      moved : Exec (Files T) (Unit {0})
      moved g = (record g { main = absent; backup = g.main }, ok tt)

  unfoldable pub install : T → Exec (Files T) (Unit {0})
  install text f = (record f { main = holds text }, ok tt)

  unfoldable pub write_json : Attempt → T → Exec (Files T) (Unit {0})
  write_json a text = do
    called a.mkdir_all
    called a.create_temp
    called a.chmod
    called a.encode
    called a.sync
    called a.close
    back_up a
    called a.rename
    install text

  -- The value behind the pointer, and the error.
  unfoldable pub read_json : {A : Type 0} → Codec A T → File T → A → A × Option Error
  read_json codec absent value = (value, some not_exist)
  read_json codec (unreadable e) value = (value, some e)
  read_json codec (holds text) value = codec.decode_into value text
