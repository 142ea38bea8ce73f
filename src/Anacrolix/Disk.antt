-- ===== src/Anacrolix/Disk.antt =====
-- The calls of Go's `os` and `filepath` on files, by internal/engine/anacrolix/remove.go and
-- storage.go. `L` is what lies outside of the program, the files too; `R` is an `os.Root`.
use torrcli.Base.{ℕ, Bool, true, false, String, Exec, Error, not_exist, wrap}
use torrcli.Anacrolix.Paths.{Names}

-- What `Mode()` says: a regular file, a directory, a symbolic link, or something else.
pub data FileKind : Type 0 where
  regular directory symlink irregular : FileKind

-- `file` tells the files apart, as os.SameFile does.
pub record Stat : Type 0 where
  pub kind : FileKind
  pub file : ℕ

pub record Disk (L R : Type 0) : Type 0 where
  pub open_root : String → Exec L R
  pub close_root : R → L → L
  pub lstat : R → Names → Exec L Stat
  pub link : R → Names → Names → Exec L (Unit {0})
  pub remove : R → Names → Exec L (Unit {0})
  pub eval_symlinks : String → Exec L String
  pub abs : String → Exec L Names

-- `errors.Is(err, os.ErrNotExist)`.
unfoldable pub is_missing : Error → Bool
is_missing not_exist = true
is_missing (wrap s e) = is_missing e
is_missing _ = false
