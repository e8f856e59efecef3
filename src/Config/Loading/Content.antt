-- ===== src/Config/Loading/Content.antt =====
-- internal/config/load.go: the file behind what loadFileConfig returns.
use dns_update.Prelude.{
  ◌≡◌, refl, ◌⊎◌, inl, inr, Bool, true, false, not, ◌&&◌, [], arith, is_empty, Bool-cases,
}
use dns_update.Text.{Text, trim_space}
use dns_update.Failure.{Result, ok, err, eof}
use dns_update.Os.{Os}
use dns_update.Config.Sections.{FileConfig}
use dns_update.Config.Loading.{
  Disk, is_not_exist, empty_file_config, after_decode, decoded, file_read, load_file_config,
}

module _ (os : Os) (disk : Disk) where
  -- The file at this path, in this directory, was read, and holds one JSON value that decodes to this
  -- configuration.
  pub record IsFile (path : Text) (raw : FileConfig) (dir : Text) : Type 0 where
    pub directory : os.paths.dir path ≡ dir
    pub content : Text
    pub content-read : disk.read_file path ≡ ok content
    pub rest : Text
    pub content-decoded : disk.decode content ≡ ok (raw, rest)
    pub rest-end : disk.decode_empty rest ≡ err eof

  end_of_data :
      (path : Text) (raw final : FileConfig) (dir : Text) (next : Result (Unit {0}))
      → after_decode os disk path raw next ≡ ok (final, dir)
      → (next ≡ err eof) × (raw ≡ final) × (os.paths.dir path ≡ dir)
  end_of_data path raw final dir (ok done) h = absurd (cc)
  end_of_data path raw final dir (err eof) h = (refl, cc, cc)
  end_of_data path raw final dir (err e) h = absurd (cc)

  decoded_all :
      (path content : Text) (final : FileConfig) (dir : Text) (first : Result (FileConfig × Text))
      → disk.read_file path ≡ ok content
      → disk.decode content ≡ first
      → decoded os disk path first ≡ ok (final, dir)
      → IsFile path final dir
  decoded_all path content final dir (err e) read first h = absurd (cc)
  decoded_all path content final dir (ok (raw, rest)) read first h =
      let (at_end, same, parent) = end_of_data path raw final dir (disk.decode_empty rest) h in
      record {
        directory = parent;
        content = content;
        content-read = read;
        rest = rest;
        content-decoded = cc;
        rest-end = at_end;
      }

  -- A file that has to be there.
  file_read-IsFile :
      (path : Text) (final : FileConfig) (dir : Text) (read : Result Text)
      → disk.read_file path ≡ read
      → file_read os disk path true read ≡ ok (final, dir)
      → IsFile path final dir
  file_read-IsFile path final dir (err e) read h = absurd (cc)
  file_read-IsFile path final dir (ok content) read h =
      decoded_all path content final dir (disk.decode content) read refl h

  pub load_explicit :
      (path : Text) (final : FileConfig) (dir : Text)
      → load_file_config os disk path true ≡ ok (final, dir)
      → IsFile (trim_space path) final dir
  unfolding load_file_config
  load_explicit path final dir h = elim (Bool-cases (is_empty (trim_space path))) [
    | inl nothing ↦ absurd (ground arith)
    | inr named ↦
        file_read-IsFile (trim_space path) final dir (disk.read_file (trim_space path)) refl
          (rw named at h)
  ]

  -- Without an explicit path there may be no file, and then the configuration is empty.
  file_read_any :
      (path : Text) (explicit : Bool) (final : FileConfig) (dir : Text) (read : Result Text)
      → disk.read_file path ≡ read
      → file_read os disk path explicit read ≡ ok (final, dir)
      → (final ≡ empty_file_config) ⊎ IsFile path final dir
  file_read_any path explicit final dir (ok content) read h =
      inr (decoded_all path content final dir (disk.decode content) read refl h)
  file_read_any path explicit final dir (err e) read h =
      elim (Bool-cases (not explicit && is_not_exist e)) [
        | inl missing ↦
            let same : ◌≡◌ {A = Result (FileConfig × Text)} (ok (empty_file_config, []))
                (ok (final, dir)) =
              rw missing at h in
            inl (cc)
        | inr found ↦ absurd (ground arith)
      ]

  pub load_any :
      (path : Text) (explicit : Bool) (final : FileConfig) (dir : Text)
      → is_empty (trim_space path) ≡ false
      → load_file_config os disk path explicit ≡ ok (final, dir)
      → (final ≡ empty_file_config) ⊎ IsFile (trim_space path) final dir
  unfolding load_file_config
  load_any path explicit final dir named h =
      file_read_any (trim_space path) explicit final dir (disk.read_file (trim_space path)) refl
        (rw named at h)
