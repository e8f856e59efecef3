-- ===== src/SecureFile/Private.antt =====
-- internal/securefile/securefile.go: the files that Validate accepts, and the tokens that
-- ReadSingleToken returns.
use dns_update.Prelude.{
  ℕ, ◌≤◌, ◌≡◌, refl, ap, ◌⊎◌, inl, inr, Bool, true, false, List, [], ◌∷◌, arith, bit_and, ◌==◌,
  is_empty, length, any_of, Bool-cases,
}
use dns_update.Text.{Text, trim_space, is_blank}
use dns_update.Failure.{ok, step_ok}
use dns_update.Os.{FileInfo, OpenFile, Opening, opened, too_many_links, open_failed, Os}
use dns_update.SecureFile.{
  has_secure_permissions, is_systemd_credential_path, check_regular, check_leaf, validate,
  validate_parent_directory, validate_path_leaf, open_no_follow, of_opening, single_token,
  read_token, read_single_token,
}
use dns_update.SecureFile.Way.{IsWay, token_path_directories-IsWay}
use dns_update.SecureFile.Ancestors.{IsGuarded, validate_parent_directory-IsGuarded}

-- Space, tab, line feed and carriage return.
abbrev pub is_separator : ℕ → Bool
is_separator c = any_of (λ s. c == s) (32 ∷ 9 ∷ 10 ∷ 13 ∷ [])

blank_separator : (t : Text) → any_of is_blank t ≡ any_of is_separator t
blank_separator [] = refl
blank_separator (c ∷ t) = ground (arith, blank_separator t)

single_token_fine :
    (data_read token : Text)
    → single_token data_read ≡ ok token
    → (length data_read ≤ 4096)
      × (token ≡ trim_space data_read)
      × (is_empty token ≡ false)
      × (any_of is_separator token ≡ false)
single_token_fine data_read token h =
    (ground arith, ground arith, ground arith, ground (arith, blank_separator token))

opened_file : (o : Opening) (file : OpenFile) → of_opening o ≡ ok file → o ≡ opened file
opened_file (opened f) file h = ap opened (cc)
opened_file too_many_links file h = absurd (cc)
opened_file (open_failed e) file h = absurd (cc)

module _ (os : Os) where
  -- On Unix: the owner alone has access, or it is a systemd credential that the group may only read.
  abbrev pub OwnerOnly : Text → ℕ → Type 0
  OwnerOnly path perm =
      (os.unix_permissions ≡ false)
      ⊎ ((bit_and perm 63 == 0) ≡ true)
      ⊎ ((is_systemd_credential_path os path ≡ true) × ((bit_and perm 223 == 0) ≡ true))

  -- A regular file with private permissions.
  pub record IsPrivate (path : Text) (info : FileInfo) : Type 0 where
    pub regular : info.is_regular ≡ true
    pub owner_only : OwnerOnly path info.perm
    pub platform : os.platform_file path ≡ ok tt

  secure_OwnerOnly :
      (path : Text) (perm : ℕ) → has_secure_permissions os path perm ≡ true → OwnerOnly path perm
  unfolding has_secure_permissions
  secure_OwnerOnly path perm h = elim (Bool-cases os.unix_permissions) [
    | inr other ↦ inl other
    | inl unix ↦ elim (Bool-cases (bit_and perm 63 == 0)) [
      | inl owner ↦ inr (inl owner)
      | inr shared ↦ inr (inr (ground arith, ground arith))
    ]
  ]

  check_regular-IsPrivate :
      (path : Text) (info : FileInfo) → check_regular os path info ≡ ok tt → IsPrivate path info
  check_regular-IsPrivate path info h = record {
    regular = ground arith;
    owner_only = secure_OwnerOnly path info.perm (ground arith);
    platform = ground arith;
  }

  -- A path with guarded directories, from the start of the way to its parent.
  abbrev pub Guarded : Text → Type 0
  Guarded path = (directories : List Text) × IsWay os path directories × IsGuarded os directories

  parent-Guarded : (path : Text) → validate_parent_directory os path ≡ ok tt → Guarded path
  parent-Guarded path h =
      let (directories, walked, guarded) = validate_parent_directory-IsGuarded os path h in
      (directories, token_path_directories-IsWay os path directories walked, guarded)

  pub validate-IsPrivate :
      (path : Text)
      → validate os path ≡ ok tt
      → Guarded path
        × (info : FileInfo) × (os.lstat path ≡ ok info)
        × (info.is_symlink ≡ false)
        × IsPrivate path info
  unfolding validate
  validate-IsPrivate path h =
      let (done, parent_ok, rest) = step_ok (validate_parent_directory os path) _ h in
      let (info, found, leaf) = step_ok (os.lstat path) (check_leaf os path) rest in
      (
        parent-Guarded path (cc),
        info,
        found,
        ground arith,
        check_regular-IsPrivate path info (ground arith),
      )

  -- The token comes from a regular private file with guarded directories, opened without following a link.
  pub record IsFromPrivateFile (path token : Text) : Type 0 where
    pub guarded : Guarded path
    pub file : OpenFile
    pub file-opened : os.syscall_open path ≡ opened file
    pub info : FileInfo
    pub info-stat : file.stat ≡ ok info
    pub info-IsPrivate : IsPrivate path info
    pub content : Text
    pub content-read : file.read_limited 4097 ≡ ok content
    pub content-size : length content ≤ 4096
    pub token-trimmed : token ≡ trim_space content

  -- A token that ReadSingleToken returns is the trimmed content, of at most 4096 bytes, of a regular
  -- private file whose directories are guarded; it is not empty and holds no space, tab, carriage
  -- return or line feed.
  pub read_single_token-IsFromPrivateFile :
      (path token : Text)
      → read_single_token os path ≡ ok token
      → IsFromPrivateFile path token
        × (is_empty token ≡ false)
        × (any_of is_separator token ≡ false)
  unfolding read_single_token
  read_single_token-IsFromPrivateFile path token h =
      let (done, parent_ok, rest) = step_ok (validate_parent_directory os path) _ h in
      let (done2, leaf_ok, rest2) = step_ok (validate_path_leaf os path) _ rest in
      let (file, file_ok, rest3) = step_ok (open_no_follow os path) (read_token os path) rest2 in
      let (info, stat_ok, rest4) = step_ok file.stat _ rest3 in
      let (done3, regular_ok, rest5) = step_ok (check_regular os path info) _ rest4 in
      let (content, read_ok, last) = step_ok (file.read_limited 4097) (single_token) rest5 in
      let (size, trimmed, full, single) = single_token_fine content token last in
      (
        record {
          guarded = parent-Guarded path (cc);
          file = file;
          file-opened = opened_file (os.syscall_open path) file (unfold open_no_follow in file_ok);
          info = info;
          info-stat = stat_ok;
          info-IsPrivate = check_regular-IsPrivate path info (cc);
          content = content;
          content-read = read_ok;
          content-size = size;
          token-trimmed = trimmed;
        },
        full,
        single,
      )
