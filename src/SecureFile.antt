-- ===== src/SecureFile.antt =====
-- internal/securefile/securefile.go: the checks on the file that holds the API token, and its reader.
pub mod Ancestors
pub mod Way
pub mod Private
pub mod Windows
use dns_update.Prelude.{
  ℕ, suc, ◌-◌, ◌+◌, Bool, true, false, not, ◌&&◌, ◌||◌, Option, none, some, List, [], ◌∷◌, ◌++◌,
  bit_and, ◌==◌, ltb, if◌then◌else◌, is_empty, length, any_of,
}
use dns_update.Text.{Text, codes, text_eq, trim_space, has_prefix, trim_prefix, split_at, is_blank}
use dns_update.Failure.{
  Error, message, wrapped, nil_dereference, Result, ok, err, foreign, not_a_symlink,
  not_a_directory, ◌>>=◌, ◌>>◌,
}
use dns_update.Os.{FileInfo, OpenFile, Opening, opened, too_many_links, open_failed, Os}

abbrev pub max_token_bytes : ℕ
max_token_bytes = 4096

abbrev pub refuse {ℓ} : {A : Type ℓ} → Text → Result A
refuse t = err (message (foreign t))

-- directories[len(directories)-1]
abbrev pub last_of : Text → List Text → Text
last_of d [] = d
last_of d (x ∷ xs) = last_of x xs

abbrev refuse_symlink : FileInfo → Result (Unit {0})
refuse_symlink info = if info.is_symlink then refuse (codes "must not be a symlink") else ok tt

abbrev pub single_token : Text → Result Text
single_token data_read =
    let token = trim_space data_read in
    if ltb max_token_bytes (length data_read)
    then refuse (codes "must be 4096 bytes or smaller")
    else if is_empty token
    then refuse (codes "must not be empty")
    else if any_of is_blank token
    then refuse (codes "must contain exactly one token")
    else ok token

-- What openNoFollow makes of the system call.
abbrev pub of_opening : Opening → Result OpenFile
of_opening (opened file) = ok file
of_opening too_many_links = refuse (codes "must not be a symlink")
of_opening (open_failed e) = err (wrapped (codes "open file") e)

module _ (os : Os) where
  -- One component of the loop of tokenPathDirectories: `current` and `directories` after it.
  abbrev pub grown : Text → List Text → Text × List Text
  grown next directories = (
    next,
    if text_eq (last_of [] directories) next then directories else directories ++ next ∷ [],
  )

  abbrev pub enter : Text → List Text → Text → Text × List Text
  enter current directories component =
      if is_empty component || text_eq component (codes ".")
      then (current, directories)
      else if text_eq component (codes "..")
      then grown (os.paths.dir current) directories
      else grown (os.paths.join_path current component) directories

  unfoldable pub walk : Text → List Text → List Text → List Text
  walk current directories [] = directories
  walk current directories (component ∷ components) =
      let (next, seen) = enter current directories component in walk next seen components

  abbrev pub start_directory : Text → Text → Result Text
  start_directory parent volume =
      if os.paths.is_abs parent then ok (volume ++ os.paths.separator ∷ []) else os.working_dir

  unfoldable pub token_path_directories : Text → Result (List Text)
  unfolding walk split_at
  token_path_directories path =
      let split = os.paths.split_dir path in
      let parent = if is_empty split then codes "." else split in
      let volume = os.paths.volume_name parent in
      let components = split_at os.paths.separator (trim_prefix parent volume) in
      start_directory parent volume >>= λ start. ok (walk start (start ∷ []) components)

  unfoldable pub allow_root_alias_symlink : ℕ → List Text → Bool
  allow_root_alias_symlink index [] = false
  allow_root_alias_symlink index (root ∷ rest) =
      let count = length (root ∷ rest) in
      if not (index == 1) || (index == count - 1 || ltb count 2)
      then false
      else text_eq root (os.paths.dir root)

  -- One round of the loop of validateParentDirectory: parentInfo after it.
  abbrev pub check_directory :
      List Text → ℕ → Text → Option FileInfo → FileInfo → Result (Option FileInfo)
  check_directory directories index directory parent info =
      let is_last = index == length directories - 1 in
      if info.is_symlink
      then (if allow_root_alias_symlink index directories
          then ok parent
          else if is_last
          then refuse (codes "parent directory must not be a symlink")
          else err (message (not_a_symlink directory)))
      else if not info.is_dir
      then (if is_last
          then refuse (codes "parent path must be a directory")
          else err (message (not_a_directory directory)))
      else ok (some info)

  unfoldable pub check_directories :
      List Text → ℕ → List Text → Option FileInfo → Result (Option FileInfo)
  check_directories directories index [] parent = ok parent
  check_directories directories index (directory ∷ rest) parent = os.lstat directory >>= λ info.
      check_directory directories index directory parent info >>= λ next.
      check_directories directories (suc index) rest next

  -- What follows the loop; 18 is 0o022. The index of the last directory is out of range for none.
  abbrev pub check_parent : List Text → Option FileInfo → Result (Unit {0})
  check_parent [] parent = err nil_dereference
  check_parent (directory ∷ rest) none =
      if os.unix_permissions
      then err nil_dereference
      else os.platform_directory (last_of directory rest)
  check_parent (directory ∷ rest) (some info) =
      if os.unix_permissions && not (bit_and info.perm 18 == 0)
      then refuse (codes "parent directory must not be writable by group or other users")
      else os.platform_directory (last_of directory rest)

  abbrev pub checked_parent : List Text → Result (Unit {0})
  checked_parent directories =
      check_directories directories 0 directories none >>= check_parent directories

  unfoldable pub validate_parent_directory : Text → Result (Unit {0})
  unfolding token_path_directories check_directories
  validate_parent_directory path = token_path_directories path >>= checked_parent

  -- Whether a path relative to the credentials directory stays inside it.
  abbrev inside : Result Text → Bool
  inside (err e) = false
  inside (ok rel) = not (
      text_eq rel (codes ".")
      || (text_eq rel (codes "..") || has_prefix rel (codes ".." ++ os.paths.separator ∷ [])))

  abbrev credential_in : Text → Text → Bool
  credential_in path dir =
      let clean_dir = os.paths.clean dir in
      let clean_path = os.paths.clean path in
      if is_empty (trim_space dir)
      then false
      else if not (text_eq (os.paths.base (os.paths.dir clean_dir)) (codes "credentials"))
      then false
      else if text_eq clean_path clean_dir
      then false
      else inside (os.paths.rel clean_dir clean_path)

  unfoldable pub is_systemd_credential_path : Text → Bool
  is_systemd_credential_path path = elim (os.lookup_env (codes "CREDENTIALS_DIRECTORY")) [
    | none ↦ false
    | some dir ↦ credential_in path dir
  ]

  -- 63 is 0o077, and 223 is 0o337.
  unfoldable pub has_secure_permissions : Text → ℕ → Bool
  unfolding is_systemd_credential_path
  has_secure_permissions path perm =
      if not os.unix_permissions
      then true
      else if bit_and perm 63 == 0
      then true
      else if is_systemd_credential_path path && (bit_and perm 223 == 0)
      then true
      else false

  abbrev pub check_regular : Text → FileInfo → Result (Unit {0})
  check_regular path info =
      if not info.is_regular
      then refuse (codes "must be a regular file")
      else if not (has_secure_permissions path info.perm)
      then refuse (codes "must not be accessible by group or other users")
      else os.platform_file path

  abbrev pub check_leaf : Text → FileInfo → Result (Unit {0})
  check_leaf path info =
      if info.is_symlink then refuse (codes "must not be a symlink") else check_regular path info

  unfoldable pub validate : Text → Result (Unit {0})
  unfolding validate_parent_directory has_secure_permissions
  validate path = validate_parent_directory path >> (os.lstat path >>= check_leaf path)

  unfoldable pub validate_path_leaf : Text → Result (Unit {0})
  validate_path_leaf path = os.lstat path >>= refuse_symlink

  unfoldable pub open_no_follow : Text → Result OpenFile
  open_no_follow path = of_opening (os.syscall_open path)

  abbrev pub read_token : Text → OpenFile → Result Text
  read_token path file = file.stat >>= λ info.
      check_regular path info >> (file.read_limited (max_token_bytes + 1) >>= single_token)

  unfoldable pub read_single_token : Text → Result Text
  unfolding validate_parent_directory validate_path_leaf open_no_follow has_secure_permissions
  read_single_token path =
      validate_parent_directory path
      >> (validate_path_leaf path >> (open_no_follow path >>= read_token path))
