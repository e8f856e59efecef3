-- ===== src/Os.antt =====
-- The operating system as the program sees it: os, path/filepath and syscall, whose calls are
-- parameters. A file system does not change while one of the functions over it runs.
use dns_update.Prelude.{ℕ, Bool, Option}
use dns_update.Text.{Text}
use dns_update.Failure.{Error, Result}

-- os.FileInfo: what Mode() says of the type, and Mode().Perm().
pub record FileInfo : Type 0 where
  pub is_symlink : Bool
  pub is_dir : Bool
  pub is_regular : Bool
  pub perm : ℕ

-- An open file: Stat, and io.ReadAll of at most n bytes.
pub record OpenFile : Type 0 where
  pub stat : Result FileInfo
  pub read_limited : ℕ → Result Text

-- syscall.Open with O_NOFOLLOW: a file, ELOOP, or another error.
pub data Opening : Type 0 where
  opened : OpenFile → Opening
  too_many_links : Opening
  open_failed : Error → Opening

-- path/filepath; `split_dir` is the first result of Split.
pub record Paths : Type 0 where
  pub separator : ℕ
  pub split_dir : Text → Text
  pub volume_name : Text → Text
  pub is_abs : Text → Bool
  pub join_path : Text → Text → Text
  pub dir : Text → Text
  pub clean : Text → Text
  pub base : Text → Text
  pub rel : Text → Text → Result Text

-- `unix_permissions` is runtime.GOOS != "windows", and the last two are validatePlatformFilePermissions and
-- validatePlatformParentDirectoryPermissions, which accept everything but on Windows.
pub record Os : Type 0 where
  pub paths : Paths
  pub lstat : Text → Result FileInfo
  pub syscall_open : Text → Opening
  pub working_dir : Result Text
  pub lookup_env : Text → Option Text
  pub unix_permissions : Bool
  pub platform_file : Text → Result (Unit {0})
  pub platform_directory : Text → Result (Unit {0})
