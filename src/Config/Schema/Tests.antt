-- ===== src/Config/Schema/Tests.antt =====
-- A small schema, and the theorems at it. The floats are natural numbers.
use bindxdb.Prelude.{
  ℕ, ◌≡◌, refl, String, true, false, some, [], ◌∷◌, pos, go, ltb, nat_eq, pos_part, split, All,
}
use bindxdb.Go.Value.{Floats, null, bool, object, field, no_fields, kind}
use bindxdb.Config.Schema.{
  NodeInfo, SchemaNode, node, no_more, absent, property, each, no_schema, ConfigSchema,
  is_secret_key, is_dynamic_key, validate_node, validate_against_schema, secret_walk, dynamic_walk,
  schema_walk, find_property, is_absent,
}
use bindxdb.Config.Schema.Paths.{NodeAt, IsTop, is_secret_key-IsTop}

abbrev whole_floats : Floats
whole_floats = record { Float = ℕ; of_int = pos_part; to_int = pos; eq = nat_eq; lt = ltb }

abbrev plain : String → NodeInfo ℕ
plain t = record {
  type = t;
  default = null;
  required = false;
  secret = false;
  dynamic = true;
  min = null;
  max = null;
  pattern = "";
  enum = [];
}

abbrev port : SchemaNode ℕ
port = node (record (plain "integer") { secret = true }) absent no_schema

abbrev labels : SchemaNode ℕ
labels = node (plain "array") absent (each (node (plain "string") absent no_schema))

-- server.port, marked secret, stands under the top; so does `port` in the second schema.
abbrev server : ConfigSchema ℕ
server = record {
  version = "1";
  properties =
      property "server"
        (node (plain "object") (property "port" port (property "labels" labels no_more)) no_schema)
        no_more;
  required = [];
}

abbrev flat : ConfigSchema ℕ
flat = record { version = "1"; properties = property "port" port no_more; required = [] }

run : Unit {0}
unfolding go is_secret_key is_dynamic_key secret_walk dynamic_walk find_property is_absent
    validate_node validate_against_schema schema_walk kind
run = tt

keys_run :
    (is_dynamic_key (some server) "server.port" ≡ true)
    × (is_secret_key (some server) "server.port" ≡ false)
    × (is_secret_key (some flat) "port" ≡ true)
unfolding run
keys_run = (refl, refl, refl)

port-NodeAt : NodeAt server.properties (split b'.' "server.port") port
unfolding run
port-NodeAt = (
  node (plain "object") (property "port" port (property "labels" labels no_more)) no_schema,
  refl,
  refl,
  refl,
)

-- A schema with a secret port at the top, beside a server that has a port too.
abbrev doubled : ConfigSchema ℕ
doubled = record {
  version = "1";
  properties =
      property "server" (node (plain "object") (property "port" port no_more) no_schema)
        (property "port" port no_more);
  required = [];
}

server_port_secret : is_secret_key (some doubled) "server.port" ≡ true
unfolding run
server_port_secret = refl

is_secret_key-IsTop_example : All (IsTop doubled.properties) (split b'.' "server.port")
is_secret_key-IsTop_example = is_secret_key-IsTop doubled "server.port" server_port_secret

abbrev one_of : NodeInfo ℕ
one_of = record (plain "object") { enum = object (field "a" (bool true) no_fields) ∷ [] }
