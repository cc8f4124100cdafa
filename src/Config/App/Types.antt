-- ===== src/Config/App/Types.antt =====
-- The structs of pkg/config/config.go, without their JSON names. A port and a size are ints, a time is in nanoseconds.
use bindxdb.Prelude.{String, Bool, List, ℤ}
use bindxdb.Go.Value.{Fields}

pub record DatabaseConfig : Type 0 where
  pub host : String
  pub port : ℤ
  pub name : String
  pub user : String
  pub password : String
  pub max_connections : ℤ
  pub idle_timeout : ℤ
  pub ssl_mode : String

pub record StorageConfig : Type 0 where
  pub engine : String
  pub data_dir : String
  pub wal_dir : String
  pub page_size : ℤ
  pub cache_size : ℤ
  pub sync_writes : Bool
  pub compression : String

pub record TlsConfig : Type 0 where
  pub enabled : Bool
  pub cert_file : String
  pub key_file : String
  pub ca_file : String

pub record HttpServerConfig : Type 0 where
  pub enabled : Bool
  pub port : ℤ
  pub tls : TlsConfig

pub record GrpcServerConfig : Type 0 where
  pub enabled : Bool
  pub port : ℤ
  pub tls : TlsConfig

pub record WebsocketServerConfig : Type 0 where
  pub enabled : Bool
  pub port : ℤ

pub record ServerConfig : Type 0 where
  pub http : HttpServerConfig
  pub grpc : GrpcServerConfig
  pub websocket : WebsocketServerConfig

pub record AuthProviderConfig (F : Type 0) : Type 0 where
  pub type : String
  pub config : Fields F

pub record RbacConfig : Type 0 where
  pub enabled : Bool
  pub roles_path : String

pub record AuthConfig (F : Type 0) : Type 0 where
  pub providers : List (AuthProviderConfig F)
  pub rbac : RbacConfig

pub record LoggingConfig : Type 0 where
  pub level : String
  pub format : String
  pub output : String
  pub file : String
  pub max_size : String
  pub max_backups : ℤ
  pub max_age : ℤ

pub record PrometheusConfig : Type 0 where
  pub enabled : Bool
  pub path : String

pub record GraphiteConfig : Type 0 where
  pub enabled : Bool
  pub host : String
  pub port : ℤ
  pub prefix : String

pub record MetricsConfig : Type 0 where
  pub enabled : Bool
  pub prometheus : PrometheusConfig
  pub graphite : GraphiteConfig

pub record PluginConfig (F : Type 0) : Type 0 where
  pub directory : String
  pub auto_load : Bool
  pub enabled : List String
  pub configs : Fields F

pub record AppConfig (F : Type 0) : Type 0 where
  pub database : DatabaseConfig
  pub storage : StorageConfig
  pub server : ServerConfig
  pub auth : AuthConfig F
  pub logging : LoggingConfig
  pub metrics : MetricsConfig
  pub plugins : PluginConfig F
