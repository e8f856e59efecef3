-- ===== src/SecureFile/Windows/Acl.antt =====
-- internal/securefile/platform_windows.go: the access that a file which passes the checks leaves open.
use dns_update.Prelude.{
  ℕ, zero, suc, ◌+◌, ◌≡◌, refl, ap, ◌∙◌, ◌⊎◌, inl, inr, true, false, not, Option, none, some, List,
  [], ◌∷◌, arith, bit_and, ◌==◌, any_of, Bool-cases,
}
use dns_update.Text.{Text, codes, text_eq}
use dns_update.Failure.{Error, Result, ok, err, step_ok, guard_ok}
use dns_update.Os.{Os}
use dns_update.Config.Urls.{within}
use dns_update.Config.Urls.Trusted.{within-ok}
use dns_update.Prelude.Bits.{bit_and-bit_or}
use dns_update.Text.Laws.{eq-of_text_eq}
use dns_update.SecureFile.{validate, last_of}
use dns_update.SecureFile.Way.{IsWay}
use dns_update.SecureFile.Private.{validate-IsPrivate}
use dns_update.SecureFile.Windows.{
  Ace, AccessList, Descriptor, Windows, all_bits, file_risky_access_mask,
  directory_risky_access_mask, allowed_principals, is_risky, check_entries, check_list,
  check_descriptor, validate_windows_acl, validate_platform_file_permissions,
  validate_platform_parent_directory_permissions, on_windows,
}

module _ (windows : Windows) where
  -- The user of the process, the system and the administrators.
  abbrev pub IsPrincipal : Text → Type 0
  IsPrincipal sid =
      (windows.current_user_sid ≡ ok sid)
      ⊎ ((windows.system_sid ≡ ok sid) ⊎ (windows.admin_sid ≡ ok sid))

  -- None of these rights is in a mask.
  abbrev pub NoneOf : List ℕ → ℕ → Type 0
  NoneOf [] mask = Unit
  NoneOf (right ∷ rights) mask = (bit_and mask right ≡ 0) × NoneOf rights mask

  -- An entry of the type ACCESS_ALLOWED_ACE that is not for inheritance only grants none of the rights,
  -- but to a principal. Entries of another type are passed over.
  abbrev pub Harmless : List ℕ → Ace → Type 0
  Harmless rights ace =
      ((bit_and ace.ace_flags windows.constants.inherit_only_ace == 0) ≡ false)
      ⊎ (((ace.ace_type == windows.constants.access_allowed_ace_type) ≡ false)
          ⊎ (NoneOf rights ace.mask ⊎ IsPrincipal ace.sid))

  all_bits-NoneOf :
      (rights : List ℕ) (mask : ℕ) → bit_and mask (all_bits rights) ≡ 0 → NoneOf rights mask
  all_bits-NoneOf [] mask h = tt
  all_bits-NoneOf (right ∷ rights) mask h =
      let (first, rest) = bit_and-bit_or mask right (all_bits rights) h in
      (first, all_bits-NoneOf rights mask rest)

  -- The set of allowed principals holds these only.
  abbrev OnlyPrincipals : List Text → Type 0
  OnlyPrincipals allowed =
      (sid : Text) → any_of (λ a. text_eq a sid) allowed ≡ true → IsPrincipal sid

  allowed-OnlyPrincipals :
      (allowed : List Text) → allowed_principals windows ≡ ok allowed → OnlyPrincipals allowed
  unfolding allowed_principals
  allowed-OnlyPrincipals allowed h sid found =
      let (user, user_ok, rest) = step_ok windows.current_user_sid _ h in
      let (system, system_ok, rest2) = step_ok windows.system_sid _ rest in
      let (admin, admin_ok, last) = step_ok windows.admin_sid _ rest2 in
      let same : user ∷ system ∷ admin ∷ [] ≡ allowed = cc last in
      let named : any_of (λ a. text_eq a sid) (user ∷ system ∷ admin ∷ []) ≡ true =
        rw (← same) at found in
      elim (Bool-cases (text_eq user sid)) [
        | inl k ↦ inl (user_ok ∙ ap ok (eq-of_text_eq user sid k))
        | inr no_user ↦ elim (Bool-cases (text_eq system sid)) [
          | inl k ↦ inr (inl (system_ok ∙ ap ok (eq-of_text_eq system sid k)))
          | inr no_system ↦ inr (inr (admin_ok ∙ ap ok (eq-of_text_eq admin sid (ground arith))))
        ]
      ]

  harmless :
      (rights : List ℕ) (allowed : List Text) (ace : Ace)
      → OnlyPrincipals allowed
      → is_risky windows (all_bits rights) allowed ace ≡ false
      → Harmless rights ace
  harmless rights allowed ace only h =
      elim (Bool-cases (bit_and ace.ace_flags windows.constants.inherit_only_ace == 0)) [
        | inr inherit_only ↦ inl inherit_only
        | inl own ↦ elim (Bool-cases (ace.ace_type == windows.constants.access_allowed_ace_type)) [
          | inr other_type ↦ inr (inl other_type)
          | inl grants ↦ elim (Bool-cases (bit_and ace.mask (all_bits rights) == 0)) [
            | inl nothing ↦ inr (inr (inl (all_bits-NoneOf rights ace.mask (ground arith))))
            | inr something ↦ inr (inr (inr (only ace.sid (ground arith))))
          ]
        ]
      ]

  -- The entries from an index on.
  abbrev pub AllHarmless : List ℕ → AccessList → ℕ → ℕ → Type 0
  AllHarmless rights acl index zero = Unit
  AllHarmless rights acl index (suc left) =
      (ace : Ace) × (acl.get_ace index ≡ ok ace)
      × Harmless rights ace
      × AllHarmless rights acl (index + 1) left

  check_entries-AllHarmless :
      (rights : List ℕ) (allowed : List Text) (e : Error) (acl : AccessList) (index left : ℕ)
      → OnlyPrincipals allowed
      → check_entries windows (all_bits rights) allowed e acl index left ≡ ok tt
      → AllHarmless rights acl index left
  unfolding check_entries
  check_entries-AllHarmless rights allowed e acl index zero only h = tt
  check_entries-AllHarmless rights allowed e acl index (suc left) only h =
      let (ace, got, rest) =
        step_ok (within (codes "read Windows ACL entry") (acl.get_ace index)) _ h in
      let (fine, others) = guard_ok (is_risky windows (all_bits rights) allowed ace) e _ rest in
      (
        ace,
        within-ok _ _ got,
        harmless rights allowed ace only fine,
        check_entries-AllHarmless rights allowed e acl (index + 1) left only others,
      )

  -- A file with an access control list whose entries grant none of the rights, but to a principal.
  pub record IsRestricted (rights : List ℕ) (path : Text) : Type 0 where
    pub descriptor : Descriptor
    pub descriptor-read : windows.security_descriptor path ≡ ok (some descriptor)
    pub acl : AccessList
    pub acl-read : descriptor.dacl ≡ ok (some acl)
    pub entries : AllHarmless rights acl 0 acl.ace_count

  listed :
      (rights : List ℕ) (allowed : List Text) (e : Error) (found : Result (Option AccessList))
      → OnlyPrincipals allowed
      → check_list windows (all_bits rights) allowed e found ≡ ok tt
      → (acl : AccessList) × (found ≡ ok (some acl)) × AllHarmless rights acl 0 acl.ace_count
  listed rights allowed e (err x) only h = absurd (cc h)
  listed rights allowed e (ok none) only h = absurd (cc h)
  listed rights allowed e (ok (some acl)) only h =
      (acl, refl, check_entries-AllHarmless rights allowed e acl 0 acl.ace_count only h)

  descriptor-IsRestricted :
      (rights : List ℕ) (path : Text) (e : Error) (found : Option Descriptor)
      → windows.security_descriptor path ≡ ok found
      → check_descriptor windows (all_bits rights) e found ≡ ok tt
      → IsRestricted rights path
  descriptor-IsRestricted rights path e none read h = absurd (cc h)
  descriptor-IsRestricted rights path e (some sd) read h =
      let (valid, rest) = guard_ok (not sd.is_valid) e _ h in
      let (allowed, principals, last) =
        step_ok (within (codes "resolve allowed Windows principals") (allowed_principals windows)) _
          rest in
      let (acl, acl_read, entries) =
        listed rights allowed e sd.dacl (allowed-OnlyPrincipals allowed (within-ok _ _ principals))
          last in
      record {
        descriptor = sd;
        descriptor-read = read;
        acl = acl;
        acl-read = acl_read;
        entries = entries;
      }

  validate_windows_acl-IsRestricted :
      (rights : List ℕ) (path : Text) (e : Error)
      → validate_windows_acl windows path (all_bits rights) e ≡ ok tt
      → IsRestricted rights path
  unfolding validate_windows_acl
  validate_windows_acl-IsRestricted rights path e h =
      let (found, read, rest) =
        step_ok (within (codes "read Windows ACL") (windows.security_descriptor path)) _ h in
      descriptor-IsRestricted rights path e found (within-ok _ _ read) rest

  -- Reading and writing the data or the extended attributes, appending, writing the attributes, deleting,
  -- writing the list or the owner, and the generic rights.
  abbrev pub file_rights : List ℕ
  file_rights =
      let c = windows.constants in
      c.file_read_data ∷ c.file_read_ea ∷ c.file_write_data ∷ c.file_append_data ∷ c.file_write_ea
      ∷ c.file_write_attributes ∷ c.delete ∷ c.write_dac ∷ c.write_owner ∷ c.generic_read
      ∷ c.generic_write ∷ c.generic_all ∷ c.maximum_allowed ∷ []

  -- Adding a file or a directory and deleting a child, by their bits, and the rights to change the
  -- directory itself.
  abbrev pub directory_rights : List ℕ
  directory_rights =
      let c = windows.constants in
      0x2 ∷ 0x4 ∷ 0x40 ∷ c.file_write_ea ∷ c.file_write_attributes ∷ c.delete ∷ c.write_dac
      ∷ c.write_owner ∷ c.generic_write ∷ c.generic_all ∷ c.maximum_allowed ∷ []

  -- On Windows, for a path that Validate accepts: no entry of the type ACCESS_ALLOWED_ACE that counts for
  -- the file itself grants anyone but the user of the process, the system and the administrators a right
  -- to read or write the file, and no such entry of the directory where the way to it ends grants another
  -- one a right to change that directory.
  pub validate-IsRestricted :
      (os : Os) (path : Text)
      → validate (on_windows windows os) path ≡ ok tt
      → IsRestricted file_rights path
        × (directories : List Text) × IsWay (on_windows windows os) path directories
        × IsRestricted directory_rights (last_of [] directories)
  unfolding validate_platform_file_permissions validate_platform_parent_directory_permissions
      file_risky_access_mask directory_risky_access_mask
  validate-IsRestricted os path h =
      let ((directories, way, guarded), info, found, plain, private) =
        validate-IsPrivate (on_windows windows os) path h in
      (
        validate_windows_acl-IsRestricted file_rights path _ private.platform,
        directories,
        way,
        validate_windows_acl-IsRestricted directory_rights (last_of [] directories) _
            guarded.platform,
      )
