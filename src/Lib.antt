-- ===== src/Lib.antt =====
-- bindxdb is the beginning of a database server in Go. This library models its plugin system
-- (pkg/plugin), its configuration (pkg/config) and its authentication and authorization
-- (pkg/auth). The configuration manager feeds every other part, the plugin graph settles the
-- order in which plugins start, and the authorizer decides the requests that the HTTP
-- middleware lets through.
--
-- * Prelude and its children hold what the other files share: tests on numbers and texts,
--   lists, the functions of Go's strings package that are used, Go maps as association lists,
--   and results.
-- * Go/Value is interface{}: the kinds of values that the packages meet, Go's == on them (with
--   its panic on slices and maps), reflect.DeepEqual and reflect.Kind. Floats are a parameter,
--   given by the conversions and the tests that the code uses.
-- * Auth/Types is pkg/auth/interface.go, and Auth/Rbac pkg/auth/rbac/authorizer.go: AddRole,
--   AssignRole, Authorize, GetPermissions, matchesPermission and parsePermission. Its children
--   are about what is granted (Decision), how a permission covers a request (Matching) and what
--   is listed (Listing).
-- * Auth/Middleware is pkg/auth/middleware/middleware.go: Middleware and RequirePermission as
--   functions from a request to an answer.
-- * Plugin/Types, Plugin/Names and Plugin/Schema are the table schemas of
--   pkg/plugin/extensions.go with ValidateColumnDef, ValidateTableSchema, DataTypeToString and
--   StringToDataType of pkg/plugin/utils.go.
-- * Plugin/Filter is BasicFilter and CompositeFilter of pkg/plugin/extensions.go: Evaluate,
--   GetUsedColumns and String. Any other implementation of the interface is a constructor with
--   its three methods.
-- * Plugin/Graph is the dependency graph of pkg/plugin/dependency.go: AddPlugin, AddDependency,
--   DetectCycle and TopologicalSort.
-- * Auth/Jwt is pkg/auth/jwt/provider.go over the two stores of pkg/auth/interface.go:
--   NewJWTProvider, Authenticate (Issued), ValidateToken, RefreshToken and RevokeToken
--   (Sessions).
-- * Plugin/Registry is pkg/plugin/registry.go (RegisterPlugin, GetPlugin, AddHook,
--   ExecuteHooks) with ValidateDependencies and ResolveDependencies of
--   pkg/plugin/dependency.go; Plugin/Lock is its lock with GetPluginInfo, which gives a lock
--   for reading back as a writer's; the methods run without another goroutine that asks for it
--   in between.
-- * Plugin/Loader is pkg/plugin/loader.go: readManifest (Manifests), LoadPlugin,
--   LoadPluginsFromDir and UnloadPlugin (Loading).
-- * Plugin/Lifecycle is pkg/plugin/lifecycle.go. As a look-up by GetPluginInfo ends the
--   process, unless another goroutine asks for its lock at that moment, what StartPlugin and
--   StopPlugin do with a plugin that is found is a function of its own, and the methods that
--   look it up are in Methods. Its children are the states of plugins (States, Runs), what the
--   methods come to (Outcomes) and what an unloaded plugin leaves behind (Unloaded).
-- * Config/Schema is the schema tree of pkg/config/types.go with isSecretKey, isDynamicKey,
--   validateAgainstSchema and validateNode of pkg/config/manager.go.
-- * Config/Types is the data of pkg/config/types.go with the state of the ConfigManager, and
--   Config/Manager its operations from pkg/config/manager.go: one function on the state per
--   method. Its children are the typed getters (Getters), AddSource (Sources), Get and Set
--   (Values), Load (Loading) and ValidateAll (Checks).
-- * Config/Dynamic is pkg/config/dynamic.go: processUpdates over the requests that it receives,
--   with the updaters that take a key.
-- * Config/Secrets is the file store of pkg/config/secrets.go: AES over an AEAD (Cipher), and
--   GetSecret, SetSecret, DeleteSecret and ListSecrets with their cache (Kept), and the Vault
--   store (Vault).
-- * Config/Sources is pkg/config/source.go: Load of the four sources, and the keys that the
--   environment reaches (Environment).
-- * Config/Formats is pkg/config/formats.go: the formats, LoadFile and LoadDir (Directory).
-- * Config/App is pkg/config/config.go: setDefault, addValidators, createSecretStore,
--   InitConfig (Started) and GetAppConfig (Settings), with its structs in Types.
-- * Config/Validators is pkg/config/validation.go, one function per validator.
--
-- Go's maps have no order; a map is an association list whose order stands for the order of one
-- iteration, and a theorem about every list holds for every order. int and time.Duration are
-- integers without a width, but where the code multiplies by a second, the wrap at 64 bits is
-- written out. A run-time panic is a value of its own (`panic`, `none`). A method that writes
-- the state holds its mutex from start to end (ResolveDependencies holds it for reading only),
-- so each is one step of the state; goroutines that a method starts are kept in the state until
-- a step runs them.
--
-- The two searches of the dependency graph recurse on fuel, one more than the number of nodes:
-- a call on a new node marks it before it goes on, so the depth is bounded by the number of
-- nodes (Plugin/Graph/Fuel, Plugin/Graph/Cycles). All other functions recurse on their data.
--
-- Not modelled: the Watch methods of sources and the file watcher of pkg/config, command-line
-- tools and profiling. Timestamps (but those of tokens), logs, contexts and the formatted parts
-- of messages are left out everywhere. mergeMaps, setNestedValue and parseEnvValue, which the
-- repository calls and does not have, secret stores, regular expressions, addresses, URLs,
-- files, the sort of hooks, the conversions of numbers and durations, the jwt library, the
-- stores of users and tokens, the clock, the JSON decoder, Go's plugin package, ciphers, base64
-- and the file system of secrets, the Vault client are parameters; what a theorem asks of them
-- stands among its conditions.
pub mod Prelude
pub mod Go
pub mod Auth
pub mod Plugin
pub mod Config
