-- ===== src/SecureFile/Way.antt =====
-- internal/securefile/securefile.go: the directories of tokenPathDirectories are those on the way.
use dns_update.Prelude.{
  ◌≡◌, refl, sym, subst, ◌∙◌, inl, inr, Bool, true, false, ◌||◌, List, [], ◌∷◌, ◌++◌, arith,
  if◌then◌else◌, is_empty, any_of, Bool-cases,
}
use dns_update.Text.{Text, codes, text_eq, trim_prefix, split_at}
use dns_update.Text.Laws.{text_eq_refl, eq-of_text_eq}
use dns_update.Failure.{ok, step_ok}
use dns_update.Os.{Os}
use dns_update.SecureFile.{last_of, grown, walk, token_path_directories, start_directory}

abbrev pub stays : Text → Bool
stays component = is_empty component || text_eq component (codes ".")

module _ (os : Os) where
  -- The directories that one meets on the way from a directory through components.
  pub data Way : Text → List Text → Text → Type 0 where
    here : (place : Text) (components : List Text) → Way place components place
    stay :
        (place component : Text) (rest : List Text) (there : Text)
        → stays component ≡ true
        → Way place rest there
        → Way place (component ∷ rest) there
    up :
        (place component : Text) (rest : List Text) (there : Text)
        → stays component ≡ false
        → text_eq component (codes "..") ≡ true
        → Way (os.paths.dir place) rest there
        → Way place (component ∷ rest) there
    down :
        (place component : Text) (rest : List Text) (there : Text)
        → stays component ≡ false
        → text_eq component (codes "..") ≡ false
        → Way (os.paths.join_path place component) rest there
        → Way place (component ∷ rest) there

  -- Where the way ends.
  abbrev pub arrival : Text → List Text → Text
  arrival place [] = place
  arrival place (component ∷ rest) =
      if stays component
      then arrival place rest
      else if text_eq component (codes "..")
      then arrival (os.paths.dir place) rest
      else arrival (os.paths.join_path place component) rest

  abbrev pub among : Text → List Text → Bool
  among there = any_of (λ d. text_eq d there)

  last_of_append :
      (d : Text) (directories : List Text) (next : Text)
      → last_of d (directories ++ next ∷ []) ≡ next
  last_of_append d [] next = refl
  last_of_append d (x ∷ xs) next = last_of_append x xs next

  among_append :
      (there : Text) (directories more : List Text)
      → among there (directories ++ more) ≡ (among there directories || among there more)
  among_append there [] more = refl
  among_append there (x ∷ xs) more = ground (arith, among_append there xs more)

  among_last :
      (d : Text) (directories : List Text) → among (last_of d directories) (d ∷ directories) ≡ true
  among_last d [] = ground (arith, text_eq_refl d)
  among_last d (x ∷ xs) = ground (arith, among_last x xs)

  -- The directories so far, with the current one as the last.
  record IsAt (place : Text) (directories : List Text) : Type 0 where
    pub last : last_of [] directories ≡ place
    pub found : among place directories ≡ true

  grown_list : Text → List Text → List Text
  grown_list next directories = (grown os next directories).1

  grown-IsAt :
      (place next : Text) (directories : List Text)
      → IsAt place directories
      → IsAt next (grown_list next directories)
        × ((t : Text) → among t directories ≡ true → among t (grown_list next directories) ≡ true)
  unfolding grown_list
  grown-IsAt place next directories at_place =
      elim (Bool-cases (text_eq (last_of [] directories) next)) [
        | inl again ↦
            let same = eq-of_text_eq (last_of [] directories) next again in
            let moved : place ≡ next = sym at_place.last ∙ same in
            rw again (record { last = same; found = rw moved at at_place.found }, λ t known. known)
        | inr new ↦ rw new (
          record {
            last = last_of_append [] directories next;
            found = ground (arith, among_append next directories (next ∷ []), text_eq_refl next);
          },
          λ t known. ground (arith, among_append t directories (next ∷ [])),
        )
      ]

  module _ (place component : Text) (rest directories : List Text) where
    walk_stay :
        stays component ≡ true
        → walk os place directories (component ∷ rest) ≡ walk os place directories rest
    unfolding walk
    walk_stay still = rw still refl

    walk_up :
        stays component ≡ false
        → text_eq component (codes "..") ≡ true
        → walk os place directories (component ∷ rest)
          ≡ walk os (os.paths.dir place) (grown_list (os.paths.dir place) directories) rest
    unfolding walk grown_list
    walk_up moves parent = rw (moves, parent) refl

    walk_down :
        stays component ≡ false
        → text_eq component (codes "..") ≡ false
        → walk os place directories (component ∷ rest)
          ≡ walk os
              (os.paths.join_path place component)
              (grown_list (os.paths.join_path place component) directories)
              rest
    unfolding walk grown_list
    walk_down moves child = rw (moves, child) refl

  walk-arrival :
      (place : Text) (components directories : List Text)
      → IsAt place directories
      → last_of [] (walk os place directories components) ≡ arrival place components
  unfolding walk
  walk-arrival place [] directories at_place = at_place.last
  walk-arrival place (c ∷ cs) directories at_place = elim (Bool-cases (stays c)) [
    | inl still ↦
        rw (walk_stay place c cs directories still, still)
          (walk-arrival place cs directories at_place)
    | inr moves ↦ elim (Bool-cases (text_eq c (codes ".."))) [
      | inl parent ↦
          let (next, kept) = grown-IsAt place (os.paths.dir place) directories at_place in
          rw (walk_up place c cs directories moves parent, moves, parent)
            (walk-arrival (os.paths.dir place) cs (grown_list (os.paths.dir place) directories)
              next)
      | inr child ↦
          let (next, kept) = grown-IsAt place (os.paths.join_path place c) directories at_place in
          rw (walk_down place c cs directories moves child, moves, child)
            (walk-arrival (os.paths.join_path place c) cs
              (grown_list (os.paths.join_path place c) directories) next)
    ]
  ]

  walk-kept :
      (place : Text) (components directories : List Text) (t : Text)
      → IsAt place directories
      → among t directories ≡ true
      → among t (walk os place directories components) ≡ true
  unfolding walk
  walk-kept place [] directories t at_place known = known
  walk-kept place (c ∷ cs) directories t at_place known = elim (Bool-cases (stays c)) [
    | inl still ↦
        rw (walk_stay place c cs directories still)
          (walk-kept place cs directories t at_place known)
    | inr moves ↦ elim (Bool-cases (text_eq c (codes ".."))) [
      | inl parent ↦
          let (next, kept) = grown-IsAt place (os.paths.dir place) directories at_place in
          rw (walk_up place c cs directories moves parent) (
            walk-kept (os.paths.dir place) cs (grown_list (os.paths.dir place) directories) t next
              (kept t known))
      | inr child ↦
          let (next, kept) = grown-IsAt place (os.paths.join_path place c) directories at_place in
          rw (walk_down place c cs directories moves child) (
            walk-kept (os.paths.join_path place c) cs
              (grown_list (os.paths.join_path place c) directories) t next (kept t known))
    ]
  ]

  walk-passed :
      (place : Text) (components directories : List Text) (there : Text)
      → IsAt place directories
      → Way place components there
      → among there (walk os place directories components) ≡ true
  walk-passed place components directories there at_place (here p c) =
      walk-kept place components directories place at_place at_place.found
  walk-passed place (c ∷ cs) directories there at_place (stay p c' r t still way) =
      rw (walk_stay place c cs directories still)
        (walk-passed place cs directories there at_place way)
  walk-passed place (c ∷ cs) directories there at_place (up p c' r t moves parent way) =
      rw (walk_up place c cs directories moves parent) (
        walk-passed (os.paths.dir place) cs (grown_list (os.paths.dir place) directories) there
          (grown-IsAt place (os.paths.dir place) directories at_place).0 way)
  walk-passed place (c ∷ cs) directories there at_place (down p c' r t moves child way) =
      rw (walk_down place c cs directories moves child) (
        walk-passed (os.paths.join_path place c) cs
          (grown_list (os.paths.join_path place c) directories) there
          (grown-IsAt place (os.paths.join_path place c) directories at_place).0 way)

  -- The parent of a path, in its volume.
  abbrev pub parent_of : Text → Text
  parent_of path =
      let split = os.paths.split_dir path in if is_empty split then codes "." else split

  -- The directories of a path: every one on the way from the root, or for a relative path from the
  -- working directory, through the components of its parent, the last one where that way ends.
  pub record IsWay (path : Text) (directories : List Text) : Type 0 where
    pub origin : Text
    pub origin-fits :
        (let parent = parent_of path in
          if os.paths.is_abs parent
          then ok (os.paths.volume_name parent ++ os.paths.separator ∷ [])
          else os.working_dir)
        ≡ ok origin
    pub components : List Text
    pub components-fit :
        components
        ≡ split_at os.paths.separator
            (trim_prefix (parent_of path) (os.paths.volume_name (parent_of path)))
    pub passed : (there : Text) → Way origin components there → among there directories ≡ true
    pub arrived : last_of [] directories ≡ arrival origin components

  pub token_path_directories-IsWay :
      (path : Text) (directories : List Text)
      → token_path_directories os path ≡ ok directories
      → IsWay path directories
  unfolding token_path_directories
  token_path_directories-IsWay path directories h =
      let parent = parent_of path in
      let components =
        split_at os.paths.separator (trim_prefix parent (os.paths.volume_name parent)) in
      let (start, started, walked) =
        step_ok (start_directory os parent (os.paths.volume_name parent)) _ h in
      let same : walk os start (start ∷ []) components ≡ directories = cc walked in
      let at_start : IsAt start (start ∷ []) = record {
        last = refl;
        found = ground (arith, text_eq_refl start);
      } in
      record {
        origin = start;
        origin-fits = started;
        components = components;
        components-fit = refl;
        passed = λ there way.
            subst (λ ds. among there ds ≡ true) same
              (walk-passed start components (start ∷ []) there at_start way);
        arrived =
            subst (λ ds. last_of [] ds ≡ arrival start components) same
              (walk-arrival start components (start ∷ []) at_start);
      }
