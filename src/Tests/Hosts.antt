-- ===== src/Tests/Hosts.antt =====
-- A small file system: /etc, with a token file that its owner alone may read and a configuration.
use dns_update.SecureFile.Windows.Acl.{
  IsRestricted, file_rights, directory_rights, validate-IsRestricted,
}
use dns_update.SecureFile.Windows.{
  Ace, Windows, on_windows, validate_platform_file_permissions,
  validate_platform_parent_directory_permissions,
}
use dns_update.Prelude.{
  ◌≡◌, refl, Bool, true, false, none, [], ◌∷◌, ◌++◌, ◌==◌, ◌||◌, if◌then◌else◌, is_empty, any_of,
  some, List,
}
use dns_update.Text.{Text, codes, text_eq, has_prefix, trim_prefix, trim_space}
use dns_update.Failure.{ok, err, not_exist}
use dns_update.Os.{FileInfo, OpenFile, opened, open_failed, Os}
use dns_update.SecureFile.{validate, read_single_token, last_of}
use dns_update.SecureFile.Way.{IsWay}
use dns_update.SecureFile.Private.{
  is_separator, IsFromPrivateFile, read_single_token-IsFromPrivateFile,
}

abbrev has_slash : Text → Bool
has_slash = any_of (λ c. c == 47)

-- The text up to and with its last slash.
abbrev pub up_to_slash : Text → Text
up_to_slash [] = []
up_to_slash (c ∷ cs) =
    let rest = up_to_slash cs in
    if (c == 47) then c ∷ rest else if has_slash cs then c ∷ rest else []

abbrev pub sample_info : Text → FileInfo
sample_info path =
    if text_eq path (codes "/") || text_eq path (codes "/etc")
    then record { is_symlink = false; is_dir = true; is_regular = false; perm = 493 }
    else record { is_symlink = false; is_dir = false; is_regular = true; perm = 384 }

abbrev pub sample_file : OpenFile
sample_file = record {
  stat = ok (sample_info (codes "/etc/token"));
  read_limited = λ n. ok (codes " secret ");
}

abbrev pub sample_os : Os
sample_os = record {
  paths = record {
    separator = 47;
    split_dir = up_to_slash;
    volume_name = λ t. [];
    is_abs = λ t. has_prefix t (codes "/");
    join_path = λ a b. if text_eq a (codes "/") then a ++ b else a ++ (codes "/" ++ b);
    dir = λ t.
        if text_eq t (codes "/etc")
        then codes "/"
        else if text_eq t (codes "/")
        then t
        else codes "/etc";
    clean = λ t. t;
    base = λ t. trim_prefix t (up_to_slash t);
    rel = λ a b. ok (trim_prefix b (a ++ codes "/"));
  };
  lstat = λ t.
      if text_eq t (codes "/") || (text_eq t (codes "/etc") || text_eq t (codes "/etc/token"))
      then ok (sample_info t)
      else err (not_exist t);
  syscall_open =
      λ t. if text_eq t (codes "/etc/token") then opened sample_file else open_failed (not_exist t);
  working_dir = ok (codes "/etc");
  lookup_env = λ t. none;
  unix_permissions = true;
  platform_file = λ t. ok tt;
  platform_directory = λ t. ok tt;
}

token_read : read_single_token sample_os (codes "/etc/token") ≡ ok (codes "secret")
unfolding read_single_token has_prefix trim_prefix trim_space
token_read = refl

read_single_token-IsFromPrivateFile_example :
    IsFromPrivateFile sample_os (codes "/etc/token") (codes "secret")
    × (is_empty (codes "secret") ≡ false)
    × (any_of is_separator (codes "secret") ≡ false)
read_single_token-IsFromPrivateFile_example =
    read_single_token-IsFromPrivateFile sample_os (codes "/etc/token") (codes "secret") token_read

-- The system has all access to a file, and nobody else any.
abbrev sample_ace : Ace
sample_ace = record { ace_flags = 0; ace_type = 0; mask = 0x1F01FF; sid = codes "S-1-5-18" }

abbrev sample_windows : Windows
sample_windows = record {
  constants = record {
    inherit_only_ace = 0x8;
    access_allowed_ace_type = 0;
    file_read_data = 0x1;
    file_read_ea = 0x8;
    file_write_data = 0x2;
    file_append_data = 0x4;
    file_write_ea = 0x10;
    file_write_attributes = 0x100;
    delete = 0x10000;
    write_dac = 0x40000;
    write_owner = 0x80000;
    generic_read = 0x80000000;
    generic_write = 0x40000000;
    generic_all = 0x10000000;
    maximum_allowed = 0x2000000;
  };
  security_descriptor = λ path. ok (
      some (record {
        is_valid = true;
        dacl = ok (some (record { ace_count = 1; get_ace = λ index. ok sample_ace }));
      }));
  current_user_sid = ok (codes "S-1-5-21-1");
  system_sid = ok (codes "S-1-5-18");
  admin_sid = ok (codes "S-1-5-32-544");
}

token_valid_on_windows : validate (on_windows sample_windows sample_os) (codes "/etc/token") ≡ ok tt
unfolding validate has_prefix trim_prefix validate_platform_file_permissions
    validate_platform_parent_directory_permissions
token_valid_on_windows = refl

validate-IsRestricted_example :
    IsRestricted sample_windows (file_rights sample_windows) (codes "/etc/token")
    × (directories : List Text) × IsWay
        (on_windows sample_windows sample_os)
        (codes "/etc/token")
        directories
    × IsRestricted sample_windows (directory_rights sample_windows) (last_of [] directories)
validate-IsRestricted_example =
    validate-IsRestricted sample_windows sample_os (codes "/etc/token") token_valid_on_windows
