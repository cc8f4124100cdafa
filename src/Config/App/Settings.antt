-- ===== src/Config/App/Settings.antt =====
-- GetAppConfig of pkg/config/config.go.
use bindxdb.Prelude.{String, Bool, false, none, some, [], Result, ok, err, ℤ, pos}
use bindxdb.Go.Value.{Floats, no_fields}
use bindxdb.Config.Types.{ConfigManager, SecretStore}
use bindxdb.Config.Manager.Getters.{
  Conversions, get_string, get_bool, get_int, get_duration, get_string_slice,
}
use bindxdb.Config.App.Types.{AppConfig}
use bindxdb.Config.App.{Globals}

-- A getter whose error is dropped gives the zero value with it.
or_zero : {E A : Type 0} → A → Result E A → A
or_zero zero (ok a) = a
or_zero zero (err e) = zero

module _ (secret_store : SecretStore) (fl : Floats) (conversions : Conversions fl.Float)
    {W : Type 0} where
  open fl use {Float}
  open secret_store use {Store}

  -- The settings that GetAppConfig reads from a manager; the others are zero values.
  pub app_config_of : ConfigManager Float Store W → AppConfig Float
  unfolding or_zero
  app_config_of m =
      let text : String → String = λ key. or_zero "" (get_string secret_store m key) in
      let number : String → ℤ =
        λ key. or_zero (pos 0) (get_int secret_store fl conversions m key) in
      let flag : String → Bool = λ key. or_zero false (get_bool secret_store m key) in
      let time : String → ℤ =
        λ key. or_zero (pos 0) (get_duration secret_store fl conversions m key) in
      record {
        database = record {
          host = text "database.host";
          port = number "database.port";
          name = text "database.name";
          user = text "database.user";
          password = text "database.password";
          max_connections = number "database.max_connections";
          idle_timeout = time "database.idle_timeout";
          ssl_mode = text "database.ssl_mode";
        };
        storage = record {
          engine = text "storage.engine";
          data_dir = text "storage.engine";
          wal_dir = text "storage.wal_dir";
          page_size = number "storage.page_size";
          cache_size = pos 0;
          sync_writes = flag "storage.sync_writes";
          compression = text "storage.compression";
        };
        server = record {
          http = record {
            enabled = flag "server.http.enabled";
            port = number "server.http.port";
            tls = record {
              enabled = flag "server.http.tls.enabled";
              cert_file = text "server.http.tls.cert_file";
              key_file = text "server.http.tls.key_file";
              ca_file = "";
            };
          };
          grpc = record {
            enabled = false;
            port = pos 0;
            tls = record { enabled = false; cert_file = ""; key_file = ""; ca_file = "" };
          };
          websocket = record { enabled = false; port = pos 0 };
        };
        auth = record { providers = []; rbac = record { enabled = false; roles_path = "" } };
        logging = record {
          level = text "logging.level";
          format = text "logging.format";
          output = text "logging.output";
          file = text "logging.file";
          max_size = "";
          max_backups = number "logging.max_backups";
          max_age = time "logging.max_age";
        };
        metrics = record {
          enabled = false;
          prometheus = record { enabled = false; path = "" };
          graphite = record { enabled = false; host = ""; port = pos 0; prefix = "" };
        };
        plugins = record {
          directory = text "plugins.directory";
          auto_load = flag "plugins.auto_load";
          enabled = or_zero [] (get_string_slice secret_store m "plugins.enabled");
          configs = no_fields;
        };
      }

  pub get_app_config : Globals Float Store W → Result String (AppConfig Float)
  unfolding app_config_of
  get_app_config g = elim g.global_manager [
    | none ↦ err "configuration not initialized"
    | some m ↦ ok (app_config_of m)
  ]
