-- ===== src/Config/Types.antt =====
-- The configuration records of config/config.go, one for each struct, with its fields in its order.
use configcat_proxy.Base.{ℤ, ℕ, String, Bool, Option, List}
use configcat_proxy.Base.Dict.{Dict}
use configcat_proxy.Model.{UserAttrs}

-- A `float64` of the configuration is only looked up in `allowedTlsVersions`, so all its other
-- values are told apart by their bit pattern alone.
pub data Float64 : Type 0 where
  v1_0 v1_1 v1_2 v1_3 : Float64
  other_float : ℕ → Float64

-- A compiled `*regexp.Regexp` is kept as the pattern that it was compiled from.
pub record Regexp : Type 0 where
  pub pattern : String

pub record LogConfig : Type 0 where
  pub level : String

pub record LocalConfig : Type 0 where
  pub file_path : String
  pub polling : Bool
  pub poll_interval : ℤ

pub record OfflineConfig : Type 0 where
  pub enabled : Bool
  pub use_cache : Bool
  pub cache_poll_interval : ℤ
  pub log : LogConfig
  pub local : LocalConfig

pub record SdkConfig : Type 0 where
  pub key : String
  pub base_url : String
  pub poll_interval : ℤ
  pub data_governance : String
  pub webhook_signature_valid_for : ℤ
  pub webhook_signing_key : String
  pub default_attrs : UserAttrs
  pub offline : OfflineConfig
  pub log : LogConfig

pub record KeepAliveConfig : Type 0 where
  pub max_connection_idle : ℤ
  pub max_connection_age : ℤ
  pub max_connection_age_grace : ℤ
  pub time : ℤ
  pub timeout : ℤ

pub record GrpcConfig : Type 0 where
  pub enabled : Bool
  pub port : ℤ
  pub server_reflection_enabled : Bool
  pub health_check_enabled : Bool
  pub keep_alive : KeepAliveConfig
  pub log : LogConfig

pub record CertConfig : Type 0 where
  pub key : String
  pub cert : String

pub record TlsConfig : Type 0 where
  pub enabled : Bool
  pub min_version : Float64
  pub server_name : String
  pub certificates : List CertConfig

pub record PrometheusExporterConfig : Type 0 where
  pub enabled : Bool

pub record OtlpExporterConfig : Type 0 where
  pub enabled : Bool
  pub protocol : String
  pub endpoint : String

pub record MetricsConfig : Type 0 where
  pub enabled : Bool
  pub prometheus : PrometheusExporterConfig
  pub otlp : OtlpExporterConfig

pub record TraceConfig : Type 0 where
  pub enabled : Bool
  pub otlp : OtlpExporterConfig

pub record StatusConfig : Type 0 where
  pub enabled : Bool

pub record DiagConfig : Type 0 where
  pub port : ℤ
  pub enabled : Bool
  pub metrics : MetricsConfig
  pub traces : TraceConfig
  pub status : StatusConfig

pub record OriginRegexConfig : Type 0 where
  pub if_no_match : String
  pub patterns : List String
  pub regexes : List Regexp

pub record CorsConfig : Type 0 where
  pub enabled : Bool
  pub allowed_origins : List String
  pub allowed_origins_regex : OriginRegexConfig

pub record CdnProxyConfig : Type 0 where
  pub headers : Dict String String
  pub enabled : Bool
  pub cors : CorsConfig

pub record OfrepConfig : Type 0 where
  pub auth_headers : Dict String String
  pub headers : Dict String String
  pub enabled : Bool
  pub cors : CorsConfig

pub record AuthConfig : Type 0 where
  pub user : String
  pub password : String

pub record WebhookConfig : Type 0 where
  pub auth_headers : Dict String String
  pub enabled : Bool
  pub auth : AuthConfig

pub record SseConfig : Type 0 where
  pub enabled : Bool
  pub headers : Dict String String
  pub heart_beat_interval : ℤ
  pub log : LogConfig
  pub cors : CorsConfig

pub record ApiConfig : Type 0 where
  pub auth_headers : Dict String String
  pub headers : Dict String String
  pub enabled : Bool
  pub cors : CorsConfig

pub record HttpConfig : Type 0 where
  pub enabled : Bool
  pub port : ℤ
  pub cdn_proxy : CdnProxyConfig
  pub ofrep : OfrepConfig
  pub webhook : WebhookConfig
  pub sse : SseConfig
  pub api : ApiConfig
  pub status : StatusConfig
  pub log : LogConfig

pub record RedisConfig : Type 0 where
  pub enabled : Bool
  pub addresses : List String
  pub db : ℤ
  pub user : String
  pub password : String
  pub tls : TlsConfig

pub record MongoDbConfig : Type 0 where
  pub enabled : Bool
  pub url : String
  pub database : String
  pub collection : String
  pub tls : TlsConfig

pub record DynamoDbConfig : Type 0 where
  pub enabled : Bool
  pub url : String
  pub table : String

pub record CacheConfig : Type 0 where
  pub redis : RedisConfig
  pub mongodb : MongoDbConfig
  pub dynamodb : DynamoDbConfig

pub record HttpProxyConfig : Type 0 where
  pub url : String

pub record GlobalOfflineConfig : Type 0 where
  pub enabled : Bool
  pub cache_poll_interval : ℤ
  pub log : LogConfig

pub record ProfileSdkConfig : Type 0 where
  pub base_url : String
  pub log : LogConfig

pub record ProfileConfig : Type 0 where
  pub key : String
  pub secret : String
  pub base_url : String
  pub poll_interval : ℤ
  pub webhook_signature_valid_for : ℤ
  pub webhook_signing_key : String
  pub log : LogConfig
  pub sdks : ProfileSdkConfig

pub record Config : Type 0 where
  pub log : LogConfig
  pub sdks : Dict String (Option SdkConfig)
  pub grpc : GrpcConfig
  pub tls : TlsConfig
  pub diag : DiagConfig
  pub http : HttpConfig
  pub cache : CacheConfig
  pub http_proxy : HttpProxyConfig
  pub global_offline_config : GlobalOfflineConfig
  pub default_attrs : UserAttrs
  pub profile : ProfileConfig
