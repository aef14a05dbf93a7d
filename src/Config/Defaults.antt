-- ===== src/Config/Defaults.antt =====
-- config/config.go: the defaults. The zero values are those of Go.
use configcat_proxy.Base.{pos, true, false, none, [], ◌∷◌}
use configcat_proxy.Config.Types.{
  other_float, LogConfig, TlsConfig, OtlpExporterConfig, CorsConfig, Config,
}

-- The zero values of the structs.
abbrev zero_log : LogConfig
zero_log = record { level = "" }

abbrev zero_tls : TlsConfig
zero_tls = record {
  enabled = false;
  min_version = other_float 0;
  server_name = "";
  certificates = [];
}

abbrev zero_otlp : OtlpExporterConfig
zero_otlp = record { enabled = false; protocol = ""; endpoint = "" }

abbrev zero_cors : CorsConfig
zero_cors = record {
  enabled = false;
  allowed_origins = [];
  allowed_origins_regex = record { if_no_match = ""; patterns = []; regexes = [] };
}

-- `setDefaults` on the zero value.
unfoldable pub default_config : Config
default_config = record {
  log = zero_log;
  sdks = [];
  grpc = record {
    enabled = true;
    port = pos 50051;
    server_reflection_enabled = false;
    health_check_enabled = true;
    keep_alive = record {
      max_connection_idle = pos 0;
      max_connection_age = pos 0;
      max_connection_age_grace = pos 0;
      time = pos 0;
      timeout = pos 0;
    };
    log = zero_log;
  };
  tls = zero_tls;
  diag = record {
    port = pos 8051;
    enabled = true;
    metrics = record {
      enabled = true;
      prometheus = record { enabled = true };
      otlp = record { enabled = false; protocol = "http"; endpoint = "" };
    };
    traces = record {
      enabled = false;
      otlp = record { enabled = false; protocol = "http"; endpoint = "" };
    };
    status = record { enabled = true };
  };
  http = record {
    enabled = true;
    port = pos 8050;
    cdn_proxy = record { headers = []; enabled = true; cors = record zero_cors { enabled = true } };
    ofrep = record {
      auth_headers = [];
      headers = [];
      enabled = true;
      cors = record zero_cors { enabled = true };
    };
    webhook = record {
      auth_headers = [];
      enabled = true;
      auth = record { user = ""; password = "" };
    };
    sse = record {
      enabled = true;
      headers = [];
      heart_beat_interval = pos 0;
      log = zero_log;
      cors = record zero_cors { enabled = true };
    };
    api = record {
      auth_headers = [];
      headers = [];
      enabled = true;
      cors = record zero_cors { enabled = true };
    };
    status = record { enabled = false };
    log = zero_log;
  };
  cache = record {
    redis = record {
      enabled = false;
      addresses = "localhost:6379" ∷ [];
      db = pos 0;
      user = "";
      password = "";
      tls = zero_tls;
    };
    mongodb = record {
      enabled = false;
      url = "";
      database = "configcat_proxy";
      collection = "cache";
      tls = zero_tls;
    };
    dynamodb = record { enabled = false; url = ""; table = "configcat_proxy_cache" };
  };
  http_proxy = record { url = "" };
  global_offline_config = record { enabled = false; cache_poll_interval = pos 0; log = zero_log };
  default_attrs = none;
  profile = record {
    key = "";
    secret = "";
    base_url = "https://api.configcat.com";
    poll_interval = pos 0;
    webhook_signature_valid_for = pos 0;
    webhook_signing_key = "";
    log = zero_log;
    sdks = record { base_url = ""; log = zero_log };
  };
}
