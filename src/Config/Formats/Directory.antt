-- ===== src/Config/Formats/Directory.antt =====
-- What LoadDir makes of a directory.
use mathlib.Core.Path.{subst}
use bindxdb.Prelude.{
  Any-map, String, true, false, none, List, [], ◌∷◌, ◌≡◌, ◌↔◌, refl, sym, ◌∙◌, ap, contains,
  if◌then◌else◌, ok, arith, Any, Bool-cases, Result-cases, inl, inr,
}
use bindxdb.Go.Value.{Fields, no_fields}
use bindxdb.Config.Secrets.{FileInfo}
use bindxdb.Config.Formats.{
  Codecs, FileSystem, ConfigLoader, new_config_loader, register_format, json_format, yaml_format,
  format_of, detect_format, load_file, load_entries, load_dir,
}

-- The files of a directory, without its directories.
unfoldable pub files_of : List FileInfo → List FileInfo
files_of [] = []
files_of (e ∷ es) = let rest = files_of es in if e.is_dir then rest else e ∷ rest

files_of-dir :
    (e : FileInfo) (es : List FileInfo) → e.is_dir ≡ true → files_of (e ∷ es) ≡ files_of es
unfolding files_of
files_of-dir e es t = rw (files_of, t) refl

files_of-file :
    (e : FileInfo) (es : List FileInfo) → e.is_dir ≡ false → files_of (e ∷ es) ≡ e ∷ files_of es
unfolding files_of
files_of-file e es n = rw (files_of, n) refl

module _ {F : Type 0} (fs : FileSystem) (merge_maps : Fields F → Fields F → Fields F)
    (l : ConfigLoader F) (dir : String) where
  -- The files load, in order, to these configurations.
  abbrev pub Loads : List FileInfo → List (Fields F) → Type 0
  Loads [] [] = Unit
  Loads [] (c ∷ cs) = ⊥
  Loads (e ∷ es) [] = ⊥
  Loads (e ∷ es) (c ∷ cs) =
      (load_file fs merge_maps l (fs.join_path dir e.name) ≡ ok c) × Loads es cs

  abbrev pub merge_all : Fields F → List (Fields F) → Fields F
  merge_all result [] = result
  merge_all result (c ∷ cs) = merge_all (merge_maps result c) cs

  load_entries_ok :
      (es : List FileInfo) (acc r : Fields F)
      → load_entries fs merge_maps l dir es acc ≡ ok r
      → (cs : List (Fields F)) × Loads (files_of es) cs × (r ≡ merge_all acc cs)
  unfolding load_entries files_of
  load_entries_ok [] acc r e = ([], tt, ground (arith, e))
  load_entries_ok (file ∷ files) acc r e = elim (Bool-cases file.is_dir) [
    | inl t ↦ rw (files_of, t) (load_entries_ok files acc r (ground (arith, e, t)))
    | inr n ↦ elim (Result-cases (load_file fs merge_maps l (fs.join_path dir file.name))) [
      | inr (x, f) ↦ absurd (ground (arith, e, n, f))
      | inl (c, f) ↦
          let (cs, loads, same) =
            load_entries_ok files (merge_maps acc c) r (ground (arith, e, n, f)) in
          rw (files_of, n) (c ∷ cs, (f, loads), same)
    ]
  ]

  load_entries-Loads :
      (es : List FileInfo) (acc : Fields F) (cs : List (Fields F))
      → Loads (files_of es) cs
      → load_entries fs merge_maps l dir es acc ≡ ok (merge_all acc cs)
  unfolding load_entries files_of
  load_entries-Loads [] acc [] h = refl
  load_entries-Loads [] acc (c ∷ cs) h = elim h [ ]
  load_entries-Loads (file ∷ files) acc [] h = elim (Bool-cases file.is_dir) [
    | inl t ↦
        rw (load_entries, t)
          (load_entries-Loads files acc []
            (subst (λ (xs : List FileInfo). Loads xs []) (files_of-dir file files t) h))
    | inr n ↦ absurd (subst (λ (xs : List FileInfo). Loads xs []) (files_of-file file files n) h)
  ]
  load_entries-Loads (file ∷ files) acc (c ∷ cs) h = elim (Bool-cases file.is_dir) [
    | inl t ↦
        rw (load_entries, t)
          (load_entries-Loads files acc (c ∷ cs)
            (subst (λ (xs : List FileInfo). Loads xs (c ∷ cs)) (files_of-dir file files t) h))
    | inr n ↦
        let (here, rest) =
          subst (λ (xs : List FileInfo). Loads xs (c ∷ cs)) (files_of-file file files n) h in
        rw (load_entries, n, here) (load_entries-Loads files (merge_maps acc c) cs rest)
  ]

  -- LoadDir succeeds exactly when the directory is read and every file of it that is no directory loads; the result is then
  -- the files' configurations, merged in the order of the directory.
  pub load_dir_iff :
      (r : Fields F)
      → (load_dir fs merge_maps l dir ≡ ok r) ↔ (
          (es : List FileInfo) × (cs : List (Fields F)) × (fs.read_dir dir ≡ ok es)
          × Loads (files_of es) cs
          × (r ≡ merge_all no_fields cs))
  unfolding load_dir
  load_dir_iff r = (
    (λ e. elim (Result-cases (fs.read_dir dir)) [
      | inr (x, f) ↦ absurd (ground (arith, e, f))
      | inl (es, f) ↦
          let (cs, loads, same) = load_entries_ok es no_fields r (ground (arith, e, f)) in
          (es, cs, f, loads, same)
    ]),
    (λ (es, cs, f, loads, same).
        rw (load_dir, f)
          (load_entries-Loads es no_fields cs loads ∙ ap (λ (q : Fields F). ok q) (sym same))),
  )

  -- A file that does not load.
  no_file_fails :
      (es : List FileInfo) (cs : List (Fields F))
      → Loads es cs
      → ¬ Any
          (λ (e : FileInfo).
            (c : Fields F) → ¬ (load_file fs merge_maps l (fs.join_path dir e.name) ≡ ok c))
          es
  no_file_fails (e ∷ es) (c ∷ cs) (here, rest) (inl fails) = fails c here
  no_file_fails (e ∷ es) (c ∷ cs) (here, rest) (inr h) = no_file_fails es cs rest h
  no_file_fails [] cs loads h = elim h [ ]
  no_file_fails (e ∷ es) [] loads h = elim loads [ ]

-- The extensions of the formats that NewConfigLoader registers.
abbrev pub known_extensions : List String
known_extensions = ".json" ∷ ".yaml" ∷ ".yml" ∷ []

module _ {F : Type 0} (codecs : Codecs F) (fs : FileSystem)
    (merge_maps : Fields F → Fields F → Fields F) where
  detect_format-none :
      (path : String)
      → contains (fs.lower_ext path) known_extensions ≡ false
      → detect_format fs merge_maps (new_config_loader codecs) path ≡ none
  unfolding detect_format format_of new_config_loader register_format json_format yaml_format
      contains
  detect_format-none path unknown = ground (arith, unknown)

  load_file-none :
      (path : String) (c : Fields F)
      → contains (fs.lower_ext path) known_extensions ≡ false
      → ¬ (load_file fs merge_maps (new_config_loader codecs) path ≡ ok c)
  unfolding load_file
  load_file-none path c unknown e = elim (Result-cases (fs.read_file path)) [
    | inr (x, f) ↦ ground (arith, e, f)
    | inl (text, f) ↦ ground (arith, e, f, detect_format-none path unknown)
  ]

  -- Where a directory has a file, no directory itself, whose extension is none of .json, .yaml and .yml in lower case,
  -- LoadDir of a new loader fails: one such file hides the configuration of all the others.
  pub load_dir_refused :
      (dir : String) (es : List FileInfo) (r : Fields F)
      → fs.read_dir dir ≡ ok es
      → Any
          (λ (e : FileInfo).
            contains (fs.lower_ext (fs.join_path dir e.name)) known_extensions ≡ false)
          (files_of es)
      → ¬ (load_dir fs merge_maps (new_config_loader codecs) dir ≡ ok r)
  load_dir_refused dir es r found unknown loaded =
      let (es', cs, found', loads, same) =
        (load_dir_iff fs merge_maps (new_config_loader codecs) dir r).0 loaded in
      let alike : es' ≡ es = ground (arith, found, found') in
      no_file_fails fs merge_maps (new_config_loader codecs) dir (files_of es) cs
        (subst
          (λ (xs : List FileInfo).
            Loads fs merge_maps (new_config_loader codecs) dir (files_of xs) cs)
          alike loads)
        (Any-map (λ e bad c. load_file-none (fs.join_path dir e.name) c bad) (files_of es) unknown)
