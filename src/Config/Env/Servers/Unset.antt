-- ===== src/Config/Env/Servers/Unset.antt =====
-- The readers of the servers, the cache and the diagnostics of config/env.go where no variable is
-- set.
use configcat_proxy.Base.{ok, String, ◌≡◌, refl, string_eq}
use configcat_proxy.Config.Types.{
  KeepAliveConfig, GrpcConfig, MetricsConfig, TraceConfig, DiagConfig, CdnProxyConfig, OfrepConfig,
  WebhookConfig, SseConfig, ApiConfig, HttpConfig, RedisConfig, MongoDbConfig, DynamoDbConfig,
  CacheConfig,
}
use configcat_proxy.Config.Env.Structs.{Converters}
use configcat_proxy.Config.Env.Structs.Unset.{
  read_env-unset, read_env_string-unset, load_log-unset, load_tls-unset, load_cors-unset,
  load_auth-unset, load_status-unset, load_otlp-unset, load_prometheus-unset,
}
use configcat_proxy.Config.Env.Servers.{
  load_keep_alive, load_grpc, load_redis, load_mongodb, load_dynamodb, load_cache, load_metrics,
  load_traces, load_diag, load_sse, load_api, load_ofrep, load_cdn_proxy, load_webhook, load_http,
}

module _ (getenv : String → String) (conv : Converters)
    (unset : (name : String) → getenv name ≡ "") where
  pub load_keep_alive-unset :
      (prefix : String) (c : KeepAliveConfig) → load_keep_alive getenv conv prefix c ≡ ok c
  unfolding load_keep_alive
  load_keep_alive-unset prefix c = simp (read_env-unset {0} getenv unset) refl

  pub load_grpc-unset : (prefix : String) (c : GrpcConfig) → load_grpc getenv conv prefix c ≡ ok c
  unfolding load_grpc
  load_grpc-unset prefix c =
      simp (read_env-unset {0} getenv unset, load_log-unset getenv conv unset) refl

  pub load_redis-unset :
      (prefix : String) (c : RedisConfig) → load_redis getenv conv prefix c ≡ ok c
  unfolding load_redis
  load_redis-unset prefix c =
      simp
        (
          read_env-unset {0} getenv unset,
          read_env_string-unset getenv unset,
          load_tls-unset getenv conv unset,
        )
        refl

  pub load_mongodb-unset :
      (prefix : String) (c : MongoDbConfig) → load_mongodb getenv conv prefix c ≡ ok c
  unfolding load_mongodb
  load_mongodb-unset prefix c =
      simp
        (
          read_env-unset {0} getenv unset,
          read_env_string-unset getenv unset,
          load_tls-unset getenv conv unset,
        )
        refl

  pub load_dynamodb-unset :
      (prefix : String) (c : DynamoDbConfig) → load_dynamodb getenv conv prefix c ≡ ok c
  unfolding load_dynamodb
  load_dynamodb-unset prefix c =
      simp (read_env-unset {0} getenv unset, read_env_string-unset getenv unset) refl

  pub load_cache-unset :
      (prefix : String) (c : CacheConfig) → load_cache getenv conv prefix c ≡ ok c
  unfolding load_cache
  load_cache-unset prefix c =
      simp
        (
          read_env-unset {0} getenv unset,
          read_env_string-unset getenv unset,
          load_tls-unset getenv conv unset,
        )
        refl

  pub load_metrics-unset :
      (prefix : String) (c : MetricsConfig) → load_metrics getenv conv prefix c ≡ ok c
  unfolding load_metrics
  load_metrics-unset prefix c =
      simp
        (
          read_env-unset {0} getenv unset,
          load_otlp-unset getenv conv unset,
          load_prometheus-unset getenv conv unset,
        )
        refl

  pub load_traces-unset :
      (prefix : String) (c : TraceConfig) → load_traces getenv conv prefix c ≡ ok c
  unfolding load_traces
  load_traces-unset prefix c =
      simp (read_env-unset {0} getenv unset, load_otlp-unset getenv conv unset) refl

  pub load_diag-unset : (prefix : String) (c : DiagConfig) → load_diag getenv conv prefix c ≡ ok c
  unfolding load_diag
  load_diag-unset prefix c =
      simp
        (
          read_env-unset {0} getenv unset,
          load_otlp-unset getenv conv unset,
          load_prometheus-unset getenv conv unset,
          load_status-unset getenv conv unset,
        )
        refl

  pub load_sse-unset : (prefix : String) (c : SseConfig) → load_sse getenv conv prefix c ≡ ok c
  unfolding load_sse
  load_sse-unset prefix c =
      simp
        (
          read_env-unset {0} getenv unset,
          load_cors-unset getenv conv unset,
          load_log-unset getenv conv unset,
        )
        refl

  pub load_api-unset : (prefix : String) (c : ApiConfig) → load_api getenv conv prefix c ≡ ok c
  unfolding load_api
  load_api-unset prefix c =
      simp (read_env-unset {0} getenv unset, load_cors-unset getenv conv unset) refl

  pub load_ofrep-unset :
      (prefix : String) (c : OfrepConfig) → load_ofrep getenv conv prefix c ≡ ok c
  unfolding load_ofrep
  load_ofrep-unset prefix c =
      simp (read_env-unset {0} getenv unset, load_cors-unset getenv conv unset) refl

  pub load_cdn_proxy-unset :
      (prefix : String) (c : CdnProxyConfig) → load_cdn_proxy getenv conv prefix c ≡ ok c
  unfolding load_cdn_proxy
  load_cdn_proxy-unset prefix c =
      simp (read_env-unset {0} getenv unset, load_cors-unset getenv conv unset) refl

  pub load_webhook-unset :
      (prefix : String) (c : WebhookConfig) → load_webhook getenv conv prefix c ≡ ok c
  unfolding load_webhook
  load_webhook-unset prefix c =
      simp (read_env-unset {0} getenv unset, load_auth-unset getenv conv unset) refl

  pub load_http-unset : (prefix : String) (c : HttpConfig) → load_http getenv conv prefix c ≡ ok c
  unfolding load_http
  load_http-unset prefix c =
      simp
        (
          read_env-unset {0} getenv unset,
          load_auth-unset getenv conv unset,
          load_cors-unset getenv conv unset,
          load_log-unset getenv conv unset,
          load_status-unset getenv conv unset,
        )
        refl
