-- ===== src/Config/Formats.antt =====
-- The formats of pkg/config/formats.go. The JSON and YAML libraries, the file system, filepath and strings.ToLower are
-- parameters, and so is mergeMaps, which the repository does not have.
pub mod Directory
mod Tests
use bindxdb.Prelude.{
  String, Bool, true, false, Option, none, some, List, [], ◌∷◌, ◌++◌, contains, if◌then◌else◌,
  Result, ok, err, map_err,
}
use bindxdb.Go.Value.{Fields, no_fields}
use bindxdb.Config.Secrets.{FileInfo}

-- The interface of a format; its values are the formats below.
pub record ConfigFormat (F : Type 0) : Type 0 where
  pub name : String
  pub extension : List String
  pub unmarshal : String → Result String (Fields F)
  pub marshal : Fields F → Result String String

pub record Codecs (F : Type 0) : Type 0 where
  pub json_unmarshal : String → Result String (Fields F)
  pub json_marshal_indent : Fields F → Result String String
  pub yaml_unmarshal : String → Result String (Fields F)
  pub yaml_marshal : Fields F → Result String String

pub record FileSystem : Type 0 where
  pub read_file : String → Result String String
  pub read_dir : String → Result String (List FileInfo)
  pub join_path : String → String → String
  -- strings.ToLower of filepath.Ext
  pub lower_ext : String → String

pub data FormatError : Type 0 where
  not_read unsupported_format not_parsed no_dir : String → FormatError

module _ {F : Type 0} (codecs : Codecs F) where
  pub json_format : ConfigFormat F
  json_format = record {
    name = "json";
    extension = ".json" ∷ [];
    unmarshal = codecs.json_unmarshal;
    marshal = codecs.json_marshal_indent;
  }

  pub yaml_format : ConfigFormat F
  yaml_format = record {
    name = "yaml";
    extension = ".yaml" ∷ ".yml" ∷ [];
    unmarshal = codecs.yaml_unmarshal;
    marshal = codecs.yaml_marshal;
  }

pub toml_format : {F : Type 0} → ConfigFormat F
toml_format = record {
  name = "toml";
  extension = ".toml" ∷ [];
  unmarshal = λ text. err "TOML format not yet implemented";
  marshal = λ config. err "TOML format not yet implemented";
}

pub record ConfigLoader (F : Type 0) : Type 0 where
  pub formats : List (ConfigFormat F)

module _ {F : Type 0} where
  pub register_format : ConfigFormat F → ConfigLoader F → ConfigLoader F
  register_format format l = record { formats = l.formats ++ format ∷ [] }

  pub new_config_loader : Codecs F → ConfigLoader F
  unfolding register_format json_format yaml_format
  new_config_loader codecs =
      register_format (yaml_format codecs)
        (register_format (json_format codecs) (record { formats = [] }))

  -- The loop of detectFormat over the formats.
  pub format_of : List (ConfigFormat F) → String → Option (ConfigFormat F)
  format_of [] ext = none
  format_of (f ∷ fs) ext =
      let later = format_of fs ext in if contains ext f.extension then some f else later

module _ {F : Type 0} (fs : FileSystem) (merge_maps : Fields F → Fields F → Fields F)
    (l : ConfigLoader F) where
  open fs use {read_file, read_dir, join_path, lower_ext}

  pub detect_format : String → Option (ConfigFormat F)
  unfolding format_of
  detect_format path = format_of l.formats (lower_ext path)

  pub load_file : String → Result FormatError (Fields F)
  unfolding detect_format
  load_file path = elim (read_file path) [
    | err e ↦ err (not_read e)
    | ok text ↦ elim (detect_format path) [
      | none ↦ err (unsupported_format path)
      | some format ↦ map_err not_parsed (format.unmarshal text)
    ]
  ]

  -- The loop of LoadDir: the first error ends it.
  pub load_entries : String → List FileInfo → Fields F → Result FormatError (Fields F)
  unfolding load_file
  load_entries dir [] result = ok result
  load_entries dir (file ∷ files) result = elim file.is_dir [
    | true ↦ load_entries dir files result
    | false ↦ elim (load_file (join_path dir file.name)) [
      | err e ↦ err e
      | ok config ↦ load_entries dir files (merge_maps result config)
    ]
  ]

  pub load_dir : String → Result FormatError (Fields F)
  unfolding load_entries
  load_dir dir = elim (read_dir dir) [
    | err e ↦ err (no_dir e)
    | ok files ↦ load_entries dir files no_fields
  ]
