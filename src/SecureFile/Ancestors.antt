-- ===== src/SecureFile/Ancestors.antt =====
-- internal/securefile/securefile.go: the directories that validateParentDirectory has looked at.
use dns_update.Prelude.{
  ℕ, suc, ◌-◌, ◌+◌, ◌≡◌, ◌≢◌, refl, ◌⊎◌, inl, inr, true, false, not, ◌&&◌, Option, none, some, List,
  [], ◌∷◌, arith, bit_and, ◌==◌, length, Bool-cases,
}
use dns_update.Text.{Text}
use dns_update.Failure.{ok, step_ok, guard_ok}
use dns_update.Os.{FileInfo, Os}
use dns_update.SecureFile.{
  last_of, token_path_directories, allow_root_alias_symlink, check_directory, check_directories,
  check_parent, checked_parent, validate_parent_directory,
}

module _ (os : Os) where
  -- Each directory, from an index on, is a directory and no symbolic link, or a symbolic link just below
  -- the root.
  abbrev pub Inspected : List Text → ℕ → List Text → Type 0
  Inspected directories index [] = Unit
  Inspected directories index (directory ∷ rest) =
      (info : FileInfo) × (os.lstat directory ≡ ok info)
      × (((info.is_symlink ≡ false) × (info.is_dir ≡ true))
          ⊎ ((info.is_symlink ≡ true) × (allow_root_alias_symlink os index directories ≡ true)))
      × Inspected directories (suc index) rest

  -- The last directory itself is no link at all.
  abbrev pub IsDirectory : Text → FileInfo → Type 0
  IsDirectory directory info =
      (os.lstat directory ≡ ok info) × (info.is_symlink ≡ false) × (info.is_dir ≡ true)

  one_inspected :
      (directories : List Text) (index : ℕ) (directory : Text) (parent next : Option FileInfo)
      (info : FileInfo)
      → check_directory os directories index directory parent info ≡ ok next
      → ((info.is_symlink ≡ false) × (info.is_dir ≡ true))
        ⊎ ((info.is_symlink ≡ true) × (allow_root_alias_symlink os index directories ≡ true))
  one_inspected directories index directory parent next info h = elim (Bool-cases info.is_symlink) [
    | inl link ↦ inr (link, ground arith)
    | inr plain ↦ inl (plain, ground arith)
  ]

  no_alias_last :
      (directories : List Text) (index : ℕ)
      → (index == length directories - 1) ≡ true
      → allow_root_alias_symlink os index directories ≡ false
  unfolding allow_root_alias_symlink
  no_alias_last [] index h = refl
  no_alias_last (root ∷ rest) index h = ground arith

  last_inspected :
      (directories : List Text) (index : ℕ) (directory : Text) (parent next : Option FileInfo)
      (info : FileInfo)
      → (index == length directories - 1) ≡ true
      → check_directory os directories index directory parent info ≡ ok next
      → (info.is_symlink ≡ false) × (info.is_dir ≡ true) × (next ≡ some info)
  last_inspected directories index directory parent next info at_end h =
      let alone = no_alias_last directories index at_end in
      (ground arith, ground arith, ground arith)

  check_directories-Inspected :
      (directories : List Text) (index : ℕ) (rest : List Text) (parent final : Option FileInfo)
      → check_directories os directories index rest parent ≡ ok final
      → Inspected directories index rest
  unfolding check_directories
  check_directories-Inspected directories index [] parent final h = tt
  check_directories-Inspected directories index (directory ∷ rest) parent final h =
      let (info, found, checked) = step_ok (os.lstat directory) _ h in
      let (next, one, others) =
        step_ok (check_directory os directories index directory parent info)
          (λ next. check_directories os directories (suc index) rest next) checked in
      (
        info,
        found,
        one_inspected directories index directory parent next info one,
        check_directories-Inspected directories (suc index) rest next final others,
      )

  -- The loop ends with the info of the last directory.
  check_directories-last :
      (directories : List Text) (index : ℕ) (directory : Text) (rest : List Text)
      (parent final : Option FileInfo)
      → index + suc (length rest) ≡ length directories
      → check_directories os directories index (directory ∷ rest) parent ≡ ok final
      → (info : FileInfo) × (final ≡ some info) × IsDirectory (last_of directory rest) info
  unfolding check_directories
  check_directories-last directories index directory [] parent final n h =
      let (info, found, checked) = step_ok (os.lstat directory) _ h in
      let (next, one, same) =
        step_ok (check_directory os directories index directory parent info) (λ next. ok next)
          checked in
      let (plain, dir, kept) =
        last_inspected directories index directory parent next info (ground arith) one in
      (info, cc, (found, plain, dir))
  check_directories-last directories index directory (d ∷ rest) parent final n h =
      let (info, found, checked) = step_ok (os.lstat directory) _ h in
      let (next, one, others) =
        step_ok (check_directory os directories index directory parent info)
          (λ next. check_directories os directories (suc index) (d ∷ rest) next) checked in
      check_directories-last directories (suc index) d rest next final (omega (arith, n)) others

  -- What validateParentDirectory has found out about the directories on the way to a file.
  pub record IsGuarded (directories : List Text) : Type 0 where
    pub ancestors : Inspected directories 0 directories
    pub parent : FileInfo
    pub parent-IsDirectory : IsDirectory (last_of [] directories) parent
    pub unwritable : (os.unix_permissions && not (bit_and parent.perm 18 == 0)) ≡ false
    pub platform : os.platform_directory (last_of [] directories) ≡ ok tt

  parent_checked :
      (directory : Text) (rest : List Text) (info : FileInfo)
      → check_parent os (directory ∷ rest) (some info) ≡ ok tt
      → ((os.unix_permissions && not (bit_and info.perm 18 == 0)) ≡ false)
        × (os.platform_directory (last_of directory rest) ≡ ok tt)
  parent_checked directory rest info h = guard_ok _ _ _ h

  no_parent : checked_parent os [] ≢ ok tt
  unfolding check_directories
  no_parent h = cc

  checked_parent-IsGuarded :
      (directories : List Text) → checked_parent os directories ≡ ok tt → IsGuarded directories
  checked_parent-IsGuarded [] h = absurd (no_parent h)
  checked_parent-IsGuarded (d ∷ rest) h =
      let (final, looped, checked) =
        step_ok (check_directories os (d ∷ rest) 0 (d ∷ rest) none) _ h in
      let (info, found, is_dir) =
        check_directories-last (d ∷ rest) 0 d rest none final (omega arith) looped in
      let (unwritable, platform) = parent_checked d rest info (rw found at checked) in
      record {
        ancestors = check_directories-Inspected (d ∷ rest) 0 (d ∷ rest) none final looped;
        parent = info;
        parent-IsDirectory = is_dir;
        unwritable = unwritable;
        platform = platform;
      }

  pub validate_parent_directory-IsGuarded :
      (path : Text)
      → validate_parent_directory os path ≡ ok tt
      → (directories : List Text) × (token_path_directories os path ≡ ok directories)
        × IsGuarded directories
  unfolding validate_parent_directory
  validate_parent_directory-IsGuarded path h =
      let (directories, walked, checked) =
        step_ok (token_path_directories os path) (checked_parent os) h in
      (directories, walked, checked_parent-IsGuarded directories checked)
