-- ===== src/SecureFile/Windows.antt =====
-- internal/securefile/platform_windows.go: the checks on the access control list of a file. The Windows
-- API of golang.org/x/sys/windows and its constants are parameters.
pub mod Acl
use dns_update.Prelude.{
  ℕ, zero, suc, ◌+◌, Bool, true, false, not, ◌&&◌, ◌||◌, Option, none, some, List, [], ◌∷◌, bit_and,
  bit_or, ◌==◌, if◌then◌else◌, any_of,
}
use dns_update.Text.{Text, codes, text_eq}
use dns_update.Failure.{Error, message, foreign, Result, ok, err, ◌>>=◌}
use dns_update.Os.{Os}
use dns_update.Config.Urls.{within}

-- ACCESS_ALLOWED_ACE, with the text of the SID that starts at SidStart.
pub record Ace : Type 0 where
  pub ace_flags : ℕ
  pub ace_type : ℕ
  pub mask : ℕ
  pub sid : Text

-- ACL, with GetAce.
pub record AccessList : Type 0 where
  pub ace_count : ℕ
  pub get_ace : ℕ → Result Ace

-- SECURITY_DESCRIPTOR; a nil list is none.
pub record Descriptor : Type 0 where
  pub is_valid : Bool
  pub dacl : Result (Option AccessList)

pub record Constants : Type 0 where
  pub inherit_only_ace : ℕ
  pub access_allowed_ace_type : ℕ
  pub file_read_data : ℕ
  pub file_read_ea : ℕ
  pub file_write_data : ℕ
  pub file_append_data : ℕ
  pub file_write_ea : ℕ
  pub file_write_attributes : ℕ
  pub delete : ℕ
  pub write_dac : ℕ
  pub write_owner : ℕ
  pub generic_read : ℕ
  pub generic_write : ℕ
  pub generic_all : ℕ
  pub maximum_allowed : ℕ

-- GetNamedSecurityInfo, and the texts of the SIDs of the process's user, of WinLocalSystemSid and of
-- WinBuiltinAdministratorsSid.
pub record Windows : Type 0 where
  pub constants : Constants
  pub security_descriptor : Text → Result (Option Descriptor)
  pub current_user_sid : Result Text
  pub system_sid : Result Text
  pub admin_sid : Result Text

abbrev pub directory_add_file_mask : ℕ
directory_add_file_mask = 0x2

abbrev pub directory_add_subdir_mask : ℕ
directory_add_subdir_mask = 0x4

abbrev pub directory_delete_child_mask : ℕ
directory_delete_child_mask = 0x40

abbrev pub all_bits : List ℕ → ℕ
all_bits [] = 0
all_bits (bits ∷ rest) = bit_or bits (all_bits rest)

module _ (windows : Windows) where
  unfoldable pub file_risky_access_mask : ℕ
  file_risky_access_mask =
      let c = windows.constants in
      all_bits (
        c.file_read_data ∷ c.file_read_ea ∷ c.file_write_data ∷ c.file_append_data ∷ c.file_write_ea
        ∷ c.file_write_attributes ∷ c.delete ∷ c.write_dac ∷ c.write_owner ∷ c.generic_read
        ∷ c.generic_write ∷ c.generic_all ∷ c.maximum_allowed ∷ [])

  unfoldable pub directory_risky_access_mask : ℕ
  directory_risky_access_mask =
      let c = windows.constants in
      all_bits (
        directory_add_file_mask ∷ directory_add_subdir_mask ∷ directory_delete_child_mask
        ∷ c.file_write_ea ∷ c.file_write_attributes ∷ c.delete ∷ c.write_dac ∷ c.write_owner
        ∷ c.generic_write ∷ c.generic_all ∷ c.maximum_allowed ∷ [])

  -- The keys of the set.
  unfoldable pub allowed_principals : Result (List Text)
  allowed_principals = do
    user ← windows.current_user_sid
    system ← windows.system_sid
    admin ← windows.admin_sid
    ok (user ∷ system ∷ admin ∷ [])

  -- Whether an entry stops the loop.
  abbrev pub is_risky : ℕ → List Text → Ace → Bool
  is_risky risky_mask allowed ace =
      if not (bit_and ace.ace_flags windows.constants.inherit_only_ace == 0)
      then false
      else if not (ace.ace_type == windows.constants.access_allowed_ace_type)
      then false
      else if bit_and ace.mask risky_mask == 0
      then false
      else if any_of (λ sid. text_eq sid ace.sid) allowed
      then false
      else true

  -- The loop from an index on, with the number of entries left.
  unfoldable pub check_entries : ℕ → List Text → Error → AccessList → ℕ → ℕ → Result (Unit {0})
  check_entries risky_mask allowed validation_err acl index zero = ok tt
  check_entries risky_mask allowed validation_err acl index (suc left) =
      let rest = check_entries risky_mask allowed validation_err acl (index + 1) left in
      within (codes "read Windows ACL entry") (acl.get_ace index) >>= λ ace.
      if is_risky risky_mask allowed ace then err validation_err else rest

  abbrev pub check_list : ℕ → List Text → Error → Result (Option AccessList) → Result (Unit {0})
  check_list risky_mask allowed validation_err (err e) = err validation_err
  check_list risky_mask allowed validation_err (ok none) = err validation_err
  check_list risky_mask allowed validation_err (ok (some acl)) =
      check_entries risky_mask allowed validation_err acl 0 acl.ace_count

  abbrev pub check_descriptor : ℕ → Error → Option Descriptor → Result (Unit {0})
  check_descriptor risky_mask validation_err none = err validation_err
  check_descriptor risky_mask validation_err (some sd) =
      if not sd.is_valid
      then err validation_err
      else within (codes "resolve allowed Windows principals") allowed_principals >>= λ allowed.
          check_list risky_mask allowed validation_err sd.dacl

  unfoldable pub validate_windows_acl : Text → ℕ → Error → Result (Unit {0})
  unfolding allowed_principals check_entries
  validate_windows_acl path risky_mask validation_err =
      within (codes "read Windows ACL") (windows.security_descriptor path)
      >>= check_descriptor risky_mask validation_err

  abbrev pub file_error : Error
  file_error =
      message (foreign (codes "must not grant read or write access to other Windows users"))

  abbrev pub directory_error : Error
  directory_error =
      message
        (foreign (codes "parent directory must not grant write access to other Windows users"))

  unfoldable pub validate_platform_file_permissions : Text → Result (Unit {0})
  unfolding validate_windows_acl file_risky_access_mask
  validate_platform_file_permissions path =
      validate_windows_acl path file_risky_access_mask file_error

  unfoldable pub validate_platform_parent_directory_permissions : Text → Result (Unit {0})
  unfolding validate_windows_acl directory_risky_access_mask
  validate_platform_parent_directory_permissions path =
      validate_windows_acl path directory_risky_access_mask directory_error

  -- The operating system of a build for Windows.
  abbrev pub on_windows : Os → Os
  on_windows os = record os {
    unix_permissions = false;
    platform_file = validate_platform_file_permissions;
    platform_directory = validate_platform_parent_directory_permissions;
  }
