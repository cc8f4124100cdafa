-- ===== src/Plugin/Names.antt =====
-- The spelling functions of pkg/plugin/utils.go.
use bindxdb.Prelude.{String, Bool, ◌||◌, ◌≡◌, ◌≢◌, refl, if◌then◌else◌, folds_to, upper, go, arith}
use bindxdb.Plugin.Types.{
  DataType, unknown, integer, big_int, float, double, decimal, boolean, varchar, text, blob,
  timestamp, date, time, json, uuid, custom,
}

pub data_type_to_string : DataType → String
data_type_to_string integer = "INTEGER"
data_type_to_string big_int = "BIGINT"
data_type_to_string float = "FLOAT"
data_type_to_string double = "DOUBLE"
data_type_to_string decimal = "DECIMAL"
data_type_to_string boolean = "BOOLEAN"
data_type_to_string varchar = "VARCHAR"
data_type_to_string text = "TEXT"
data_type_to_string blob = "BLOB"
data_type_to_string timestamp = "TIMESTAMP"
data_type_to_string date = "DATE"
data_type_to_string time = "TIME"
data_type_to_string json = "JSON"
data_type_to_string uuid = "UUID"
data_type_to_string _ = "UNKNOWN"

-- strings.ToUpper(s) == word
reads : String → String → Bool
reads s word = folds_to upper s word

-- The second half of the `switch`.
string_to_later_type : String → DataType
string_to_later_type s =
    if reads s "TEXT"
    then text
    else if reads s "BLOB" || reads s "BYTEA"
    then blob
    else if reads s "TIMESTAMP" || reads s "DATETIME"
    then timestamp
    else if reads s "DATE"
    then date
    else if reads s "TIME"
    then time
    else if reads s "JSON" || reads s "JSONB"
    then json
    else if reads s "UUID"
    then uuid
    else unknown

pub string_to_data_type : String → DataType
unfolding reads
string_to_data_type s =
    if reads s "INTEGER" || reads s "INT"
    then integer
    else if reads s "BIGINT"
    then big_int
    else if reads s "FLOAT" || reads s "REAL"
    then float
    else if reads s "DOUBLE" || reads s "DOUBLE PRECISION"
    then double
    else if reads s "DECIMAL" || reads s "NUMERIC"
    then decimal
    else if reads s "BOOLEAN" || reads s "BOOL"
    then boolean
    else if reads s "VARCHAR" || reads s "CHARACTER VARYING"
    then varchar
    else string_to_later_type s

-- Every data type but the custom one is read back from its spelling.
pub string_to_data_type-data_type_to_string :
    (dt : DataType) → dt ≢ custom → string_to_data_type (data_type_to_string dt) ≡ dt
unfolding go string_to_data_type string_to_later_type data_type_to_string
string_to_data_type-data_type_to_string custom h = absurd (h refl)
string_to_data_type-data_type_to_string integer h = refl
string_to_data_type-data_type_to_string _ h = refl

later_never_custom : (s : String) → string_to_later_type s ≢ custom
unfolding string_to_later_type
later_never_custom s = ground arith

never_custom : (s : String) → string_to_data_type s ≢ custom
unfolding string_to_data_type
never_custom s = ground (arith, later_never_custom s)

-- The spelling that the package gives to what it read is read as the same type again.
pub string_to_data_type_stable :
    (s : String)
    → string_to_data_type (data_type_to_string (string_to_data_type s)) ≡ string_to_data_type s
string_to_data_type_stable s =
    string_to_data_type-data_type_to_string (string_to_data_type s) (never_custom s)
