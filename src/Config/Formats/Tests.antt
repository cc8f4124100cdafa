-- ===== src/Config/Formats/Tests.antt =====
-- A directory with a JSON file and a text file beside it.
use bindxdb.Prelude.{
  ℕ, true, false, List, [], ◌∷◌, ◌≡◌, ◌↔◌, refl, ok, Any, inl, inr, ◌==◌, if◌then◌else◌, contains,
  go,
}
use bindxdb.Go.Value.{Fields, no_fields, field, bool}
use bindxdb.Config.Secrets.{FileInfo}
use bindxdb.Config.Formats.{Codecs, FileSystem, ConfigLoader, new_config_loader, load_dir}
use bindxdb.Config.Formats.Directory.{
  files_of, Loads, merge_all, known_extensions, load_dir_iff, load_dir_refused,
}

abbrev debug : Fields ℕ
debug = field "debug" (bool true) no_fields

abbrev codecs : Codecs ℕ
codecs = record {
  json_unmarshal = λ text. ok debug;
  json_marshal_indent = λ config. ok "{}";
  yaml_unmarshal = λ text. ok no_fields;
  yaml_marshal = λ config. ok "";
}

abbrev last : Fields ℕ → Fields ℕ → Fields ℕ
last a b = b

-- The extension of the one name that is read is .json, that of others .txt.
abbrev disk : List FileInfo → FileSystem
disk found = record {
  read_file = λ path. ok "{}";
  read_dir = λ dir. ok found;
  join_path = λ dir name. name;
  lower_ext = λ path. if path == "a.json" then ".json" else ".txt";
}

abbrev json_file : FileInfo
json_file = record { name = "a.json"; is_dir = false }

abbrev text_file : FileInfo
text_file = record { name = "README.txt"; is_dir = false }

abbrev loader : ConfigLoader ℕ
loader = new_config_loader codecs

load_dir_iff_example : (load_dir (disk (json_file ∷ [])) last loader "conf" ≡ ok debug) ↔ (
    (es : List FileInfo) × (cs : List (Fields ℕ)) × ((disk (json_file ∷ [])).read_dir "conf"
      ≡ ok es)
    × Loads (disk (json_file ∷ [])) last loader "conf" (files_of es) cs
    × (debug ≡ merge_all (disk (json_file ∷ [])) last loader "conf" no_fields cs))
load_dir_iff_example = load_dir_iff (disk (json_file ∷ [])) last loader "conf" debug

unknown :
    Any
      (λ (e : FileInfo).
        contains ((disk (json_file ∷ text_file ∷ [])).lower_ext e.name) known_extensions ≡ false)
      (files_of (json_file ∷ text_file ∷ []))
unfolding go files_of
unknown = inr (inl refl)

load_dir_refused_example :
    ¬ (load_dir (disk (json_file ∷ text_file ∷ [])) last loader "conf" ≡ ok debug)
load_dir_refused_example =
    load_dir_refused codecs (disk (json_file ∷ text_file ∷ [])) last "conf"
      (json_file ∷ text_file ∷ []) debug refl unknown
