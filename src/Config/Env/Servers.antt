-- ===== src/Config/Env/Servers.antt =====
-- config/env.go: the readers of the structs of the servers, the cache and the diagnostics.
pub mod Unset
use configcat_proxy.Base.{Result, ok, String, string_eq, ◌>>=◌}
use configcat_proxy.Config.Types.{
  KeepAliveConfig, GrpcConfig, MetricsConfig, TraceConfig, DiagConfig, CdnProxyConfig, OfrepConfig,
  WebhookConfig, SseConfig, ApiConfig, HttpConfig, RedisConfig, MongoDbConfig, DynamoDbConfig,
  CacheConfig,
}
use configcat_proxy.Config.Env.Structs.{
  EnvVarReadError, Converters, concat_prefix, read_env, read_env_string, load_log, load_tls,
  load_cors, load_auth, load_status, load_otlp, load_prometheus,
}

module _ (getenv : String → String) (conv : Converters) where
  unfoldable pub load_keep_alive : String → KeepAliveConfig → Result EnvVarReadError KeepAliveConfig
  load_keep_alive prefix c = do
    let p = concat_prefix prefix "KEEP_ALIVE"
    max_connection_idle ← read_env getenv p "MAX_CONNECTION_IDLE" c.max_connection_idle conv.to_int
    max_connection_age ← read_env getenv p "MAX_CONNECTION_AGE" c.max_connection_age conv.to_int
    max_connection_age_grace ←
        read_env getenv p "MAX_CONNECTION_AGE_GRACE" c.max_connection_age_grace conv.to_int
    time ← read_env getenv p "TIME" c.time conv.to_int
    timeout ← read_env getenv p "TIMEOUT" c.timeout conv.to_int
    ok (record {
      max_connection_idle = max_connection_idle;
      max_connection_age = max_connection_age;
      max_connection_age_grace = max_connection_age_grace;
      time = time;
      timeout = timeout;
    })

  unfoldable pub load_grpc : String → GrpcConfig → Result EnvVarReadError GrpcConfig
  unfolding load_keep_alive
  load_grpc prefix c = do
    let p = concat_prefix prefix "GRPC"
    enabled ← read_env getenv p "ENABLED" c.enabled conv.to_bool
    port ← read_env getenv p "PORT" c.port conv.to_int
    health_check_enabled ←
        read_env getenv p "HEALTH_CHECK_ENABLED" c.health_check_enabled conv.to_bool
    server_reflection_enabled ←
        read_env getenv p "SERVER_REFLECTION_ENABLED" c.server_reflection_enabled conv.to_bool
    keep_alive ← load_keep_alive p c.keep_alive
    log ← load_log getenv conv p c.log
    ok (record {
      enabled = enabled;
      port = port;
      health_check_enabled = health_check_enabled;
      server_reflection_enabled = server_reflection_enabled;
      keep_alive = keep_alive;
      log = log;
    })

  unfoldable pub load_redis : String → RedisConfig → Result EnvVarReadError RedisConfig
  load_redis prefix c = do
    let p = concat_prefix prefix "REDIS"
    let password = read_env_string getenv p "PASSWORD" c.password
    let user = read_env_string getenv p "USER" c.user
    db ← read_env getenv p "DB" c.db conv.to_int
    enabled ← read_env getenv p "ENABLED" c.enabled conv.to_bool
    addresses ← read_env getenv p "ADDRESSES" c.addresses conv.to_string_slice
    tls ← load_tls getenv conv p c.tls
    ok (record {
      password = password;
      user = user;
      db = db;
      enabled = enabled;
      addresses = addresses;
      tls = tls;
    })

  unfoldable pub load_mongodb : String → MongoDbConfig → Result EnvVarReadError MongoDbConfig
  load_mongodb prefix c = do
    let p = concat_prefix prefix "MONGODB"
    let url = read_env_string getenv p "URL" c.url
    let database = read_env_string getenv p "DATABASE" c.database
    let collection = read_env_string getenv p "COLLECTION" c.collection
    enabled ← read_env getenv p "ENABLED" c.enabled conv.to_bool
    tls ← load_tls getenv conv p c.tls
    ok (record {
      url = url;
      database = database;
      collection = collection;
      enabled = enabled;
      tls = tls;
    })

  unfoldable pub load_dynamodb : String → DynamoDbConfig → Result EnvVarReadError DynamoDbConfig
  load_dynamodb prefix c = do
    let p = concat_prefix prefix "DYNAMODB"
    let url = read_env_string getenv p "URL" c.url
    let table = read_env_string getenv p "TABLE" c.table
    enabled ← read_env getenv p "ENABLED" c.enabled conv.to_bool
    ok (record { url = url; table = table; enabled = enabled })

  unfoldable pub load_cache : String → CacheConfig → Result EnvVarReadError CacheConfig
  unfolding load_dynamodb load_mongodb load_redis
  load_cache prefix c = do
    let p = concat_prefix prefix "CACHE"
    redis ← load_redis p c.redis
    mongodb ← load_mongodb p c.mongodb
    dynamodb ← load_dynamodb p c.dynamodb
    ok (record { redis = redis; mongodb = mongodb; dynamodb = dynamodb })

  unfoldable pub load_metrics : String → MetricsConfig → Result EnvVarReadError MetricsConfig
  load_metrics prefix c = do
    let p = concat_prefix prefix "METRICS"
    enabled ← read_env getenv p "ENABLED" c.enabled conv.to_bool
    prometheus ← load_prometheus getenv conv p c.prometheus
    otlp ← load_otlp getenv conv p c.otlp
    ok (record { enabled = enabled; prometheus = prometheus; otlp = otlp })

  unfoldable pub load_traces : String → TraceConfig → Result EnvVarReadError TraceConfig
  load_traces prefix c = do
    let p = concat_prefix prefix "TRACES"
    enabled ← read_env getenv p "ENABLED" c.enabled conv.to_bool
    otlp ← load_otlp getenv conv p c.otlp
    ok (record { enabled = enabled; otlp = otlp })

  unfoldable pub load_diag : String → DiagConfig → Result EnvVarReadError DiagConfig
  unfolding load_metrics load_traces
  load_diag prefix c = do
    let p = concat_prefix prefix "DIAG"
    enabled ← read_env getenv p "ENABLED" c.enabled conv.to_bool
    port ← read_env getenv p "PORT" c.port conv.to_int
    status ← load_status getenv conv p c.status
    metrics ← load_metrics p c.metrics
    traces ← load_traces p c.traces
    ok (record {
      enabled = enabled;
      port = port;
      status = status;
      metrics = metrics;
      traces = traces;
    })

  unfoldable pub load_sse : String → SseConfig → Result EnvVarReadError SseConfig
  load_sse prefix c = do
    let p = concat_prefix prefix "SSE"
    enabled ← read_env getenv p "ENABLED" c.enabled conv.to_bool
    headers ← read_env getenv p "HEADERS" c.headers conv.to_string_map
    heart_beat_interval ← read_env getenv p "HEARTBEAT_INTERVAL" c.heart_beat_interval conv.to_int
    cors ← load_cors getenv conv p c.cors
    log ← load_log getenv conv p c.log
    ok (record {
      enabled = enabled;
      headers = headers;
      heart_beat_interval = heart_beat_interval;
      cors = cors;
      log = log;
    })

  unfoldable pub load_api : String → ApiConfig → Result EnvVarReadError ApiConfig
  load_api prefix c = do
    let p = concat_prefix prefix "API"
    enabled ← read_env getenv p "ENABLED" c.enabled conv.to_bool
    headers ← read_env getenv p "HEADERS" c.headers conv.to_string_map
    auth_headers ← read_env getenv p "AUTH_HEADERS" c.auth_headers conv.to_string_map
    cors ← load_cors getenv conv p c.cors
    ok (record { enabled = enabled; headers = headers; auth_headers = auth_headers; cors = cors })

  unfoldable pub load_ofrep : String → OfrepConfig → Result EnvVarReadError OfrepConfig
  load_ofrep prefix c = do
    let p = concat_prefix prefix "OFREP"
    enabled ← read_env getenv p "ENABLED" c.enabled conv.to_bool
    headers ← read_env getenv p "HEADERS" c.headers conv.to_string_map
    auth_headers ← read_env getenv p "AUTH_HEADERS" c.auth_headers conv.to_string_map
    cors ← load_cors getenv conv p c.cors
    ok (record { enabled = enabled; headers = headers; auth_headers = auth_headers; cors = cors })

  unfoldable pub load_cdn_proxy : String → CdnProxyConfig → Result EnvVarReadError CdnProxyConfig
  load_cdn_proxy prefix c = do
    let p = concat_prefix prefix "CDN_PROXY"
    enabled ← read_env getenv p "ENABLED" c.enabled conv.to_bool
    headers ← read_env getenv p "HEADERS" c.headers conv.to_string_map
    cors ← load_cors getenv conv p c.cors
    ok (record { enabled = enabled; headers = headers; cors = cors })

  unfoldable pub load_webhook : String → WebhookConfig → Result EnvVarReadError WebhookConfig
  load_webhook prefix c = do
    let p = concat_prefix prefix "WEBHOOK"
    enabled ← read_env getenv p "ENABLED" c.enabled conv.to_bool
    auth_headers ← read_env getenv p "AUTH_HEADERS" c.auth_headers conv.to_string_map
    auth ← load_auth getenv conv p c.auth
    ok (record { enabled = enabled; auth_headers = auth_headers; auth = auth })

  unfoldable pub load_http : String → HttpConfig → Result EnvVarReadError HttpConfig
  unfolding load_api load_cdn_proxy load_ofrep load_sse load_webhook
  load_http prefix c = do
    let p = concat_prefix prefix "HTTP"
    enabled ← read_env getenv p "ENABLED" c.enabled conv.to_bool
    port ← read_env getenv p "PORT" c.port conv.to_int
    log ← load_log getenv conv p c.log
    sse ← load_sse p c.sse
    cdn_proxy ← load_cdn_proxy p c.cdn_proxy
    webhook ← load_webhook p c.webhook
    status ← load_status getenv conv p c.status
    ofrep ← load_ofrep p c.ofrep
    api ← load_api p c.api
    ok (record {
      enabled = enabled;
      port = port;
      log = log;
      sse = sse;
      cdn_proxy = cdn_proxy;
      webhook = webhook;
      status = status;
      ofrep = ofrep;
      api = api;
    })
