-- ===== src/Config/Env/Sdk.antt =====
-- Which variables an SDK of CONFIGCAT_SDKS is read from, config/env.go.
use mathlib.Core.Path.{subst}
use configcat_proxy.Base.{
  ◌==◌, Bool-cases, pos, Result, ok, >>=-eq-ok, Result-cases, String, ◌<>◌, ◌≡◌, refl, ◌≢◌, ◌⊎◌,
  inl, inr, false, none, arith, eq_iff, string_eq, int_eq,
}
use configcat_proxy.Config.Types.{LogConfig, LocalConfig, OfflineConfig, SdkConfig}
use configcat_proxy.Config.Env.Structs.{
  Converters, concat_prefix, read_env, read_env_string, load_log, load_local, load_offline,
  load_sdk,
}
use configcat_proxy.Config.Env.{keyed_sdk}

module _ (getenv : String → String) where
  -- The value of the variable `prefix_name`, empty if it is not set.
  abbrev pub variable : String → String → String
  variable prefix name = getenv (prefix <> ("_" <> name))

  -- A field that is converted: unchanged where the variable is not set, and otherwise what the
  -- converter makes of it.
  abbrev pub IsRead {ℓ} : {A : Type ℓ} → (String → Result String A) → String → A → A → Type ℓ
  IsRead conv value old new = ((value ≡ "") × (new ≡ old)) ⊎ ((value ≢ "") × (conv value ≡ ok new))

  read_env-IsRead {ℓ} :
      {A : Type ℓ} (prefix name : String) (old new : A) (conv : String → Result String A)
      → read_env getenv prefix name old conv ≡ ok new
      → IsRead conv (variable prefix name) old new
  unfolding read_env
  read_env-IsRead prefix name old new conv h = elim (Bool-cases (variable prefix name == "")) [
    | inl unset ↦ inl ((eq_iff (variable prefix name) "").0 unset, ground (arith, unset, h))
    | inr there ↦ inr (
      λ e. ground (arith, there, (eq_iff (variable prefix name) "").1 e),
      elim (Result-cases (conv (variable prefix name))) [
        | inl (e, bad) ↦ absurd (ground (arith, there, bad, h))
        | inr (value, good) ↦ ground (arith, there, good, h)
      ],
    )
  ]

  read_env_string-empty :
      (prefix name : String) → read_env_string getenv prefix name "" ≡ variable prefix name
  unfolding read_env_string
  read_env_string-empty prefix name = ground (arith, eq_iff (variable prefix name) "")

  module _ (conv : Converters) where
    -- The file of an offline SDK, from the variables with the prefix.
    pub record HasLocal (prefix : String) (c : LocalConfig) : Type 0 where
      pub polling : IsRead conv.to_bool (variable prefix "POLLING") false c.polling
      pub poll_interval :
          IsRead conv.to_int (variable prefix "POLL_INTERVAL") (pos 0) c.poll_interval
      pub file_path : c.file_path ≡ variable prefix "FILE_PATH"

    pub record HasOffline (prefix : String) (c : OfflineConfig) : Type 0 where
      pub enabled : IsRead conv.to_bool (variable prefix "ENABLED") false c.enabled
      pub use_cache : IsRead conv.to_bool (variable prefix "USE_CACHE") false c.use_cache
      pub cache_poll_interval :
          IsRead conv.to_int (variable prefix "CACHE_POLL_INTERVAL") (pos 0) c.cache_poll_interval
      pub local : HasLocal (prefix <> "_LOCAL") c.local
      pub log : c.log.level ≡ variable (prefix <> "_LOG") "LEVEL"

    -- The options of a listed SDK: its key, and what the variables with its prefix hold.
    pub record HasOptions (prefix key : String) (c : SdkConfig) : Type 0 where
      pub listed_key : c.key ≡ key
      pub base_url : c.base_url ≡ variable prefix "BASE_URL"
      pub data_governance : c.data_governance ≡ variable prefix "DATA_GOVERNANCE"
      pub webhook_signing_key : c.webhook_signing_key ≡ variable prefix "WEBHOOK_SIGNING_KEY"
      pub webhook_signature_valid_for :
          IsRead conv.to_int
            (variable prefix "WEBHOOK_SIGNATURE_VALID_FOR")
            (pos 0)
            c.webhook_signature_valid_for
      pub poll_interval :
          IsRead conv.to_int (variable prefix "POLL_INTERVAL") (pos 0) c.poll_interval
      pub default_attrs :
          IsRead conv.to_user_attrs (variable prefix "DEFAULT_USER_ATTRIBUTES") none c.default_attrs
      pub offline : HasOffline (prefix <> "_OFFLINE") c.offline
      pub log : c.log.level ≡ variable (prefix <> "_LOG") "LEVEL"

    abbrev no_local : LocalConfig
    no_local = record { file_path = ""; polling = false; poll_interval = pos 0 }

    abbrev no_offline : OfflineConfig
    no_offline = record {
      enabled = false;
      use_cache = false;
      cache_poll_interval = pos 0;
      log = record { level = "" };
      local = no_local;
    }

    load_local-HasLocal :
        (prefix : String) (c : LocalConfig)
        → load_local getenv conv prefix no_local ≡ ok c
        → HasLocal (prefix <> "_LOCAL") c
    unfolding load_local concat_prefix
    load_local-HasLocal prefix c h =
        let p = prefix <> "_LOCAL" in
        let (polling, e, h') = >>=-eq-ok (read_env getenv p "POLLING" false conv.to_bool) _ h in
        let (interval, e', last) =
          >>=-eq-ok (read_env getenv p "POLL_INTERVAL" (pos 0) conv.to_int) _ h' in
        let built : LocalConfig = record {
          polling = polling;
          poll_interval = interval;
          file_path = read_env_string getenv p "FILE_PATH" "";
        } in
        let same : built ≡ c = cc last in
        subst (HasLocal p) same (record {
          polling = read_env-IsRead p "POLLING" false polling conv.to_bool e;
          poll_interval = read_env-IsRead p "POLL_INTERVAL" (pos 0) interval conv.to_int e';
          file_path = read_env_string-empty p "FILE_PATH";
        })

    load_offline-HasOffline :
        (prefix : String) (c : OfflineConfig)
        → load_offline getenv conv prefix no_offline ≡ ok c
        → HasOffline (prefix <> "_OFFLINE") c
    unfolding load_offline load_log concat_prefix
    load_offline-HasOffline prefix c h =
        let p = prefix <> "_OFFLINE" in
        let (enabled, e0, h0) = >>=-eq-ok (read_env getenv p "ENABLED" false conv.to_bool) _ h in
        let (use_cache, e1, h1) =
          >>=-eq-ok (read_env getenv p "USE_CACHE" false conv.to_bool) _ h0 in
        let (interval, e2, h2) =
          >>=-eq-ok (read_env getenv p "CACHE_POLL_INTERVAL" (pos 0) conv.to_int) _ h1 in
        let (local, e3, h3) = >>=-eq-ok (load_local getenv conv p no_local) _ h2 in
        let log : LogConfig = record { level = read_env_string getenv (p <> "_LOG") "LEVEL" "" } in
        let built : OfflineConfig = record {
          enabled = enabled;
          use_cache = use_cache;
          cache_poll_interval = interval;
          local = local;
          log = log;
        } in
        let same : built ≡ c = cc h3 in
        subst (HasOffline p) same (record {
          enabled = read_env-IsRead p "ENABLED" false enabled conv.to_bool e0;
          use_cache = read_env-IsRead p "USE_CACHE" false use_cache conv.to_bool e1;
          cache_poll_interval =
              read_env-IsRead p "CACHE_POLL_INTERVAL" (pos 0) interval conv.to_int e2;
          local = load_local-HasLocal p local e3;
          log = read_env_string-empty (p <> "_LOG") "LEVEL";
        })

    pub load_sdk-HasOptions :
        (prefix key : String) (c : SdkConfig)
        → load_sdk getenv conv prefix (keyed_sdk key) ≡ ok c
        → HasOptions prefix key c
    unfolding load_sdk load_log concat_prefix
    load_sdk-HasOptions prefix key c h =
        let (valid_for, e0, h0) =
          >>=-eq-ok (read_env getenv prefix "WEBHOOK_SIGNATURE_VALID_FOR" (pos 0) conv.to_int) _
            h in
        let (interval, e1, h1) =
          >>=-eq-ok (read_env getenv prefix "POLL_INTERVAL" (pos 0) conv.to_int) _ h0 in
        let (attrs, e2, h2) =
          >>=-eq-ok (read_env getenv prefix "DEFAULT_USER_ATTRIBUTES" none conv.to_user_attrs) _
            h1 in
        let (offline, e3, h3) = >>=-eq-ok (load_offline getenv conv prefix no_offline) _ h2 in
        let log : LogConfig = record {
          level = read_env_string getenv (prefix <> "_LOG") "LEVEL" "";
        } in
        let built : SdkConfig = record {
          key = key;
          base_url = read_env_string getenv prefix "BASE_URL" "";
          data_governance = read_env_string getenv prefix "DATA_GOVERNANCE" "";
          webhook_signing_key = read_env_string getenv prefix "WEBHOOK_SIGNING_KEY" "";
          webhook_signature_valid_for = valid_for;
          poll_interval = interval;
          default_attrs = attrs;
          offline = offline;
          log = log;
        } in
        let same : built ≡ c = cc h3 in
        subst (HasOptions prefix key) same (record {
          listed_key = refl;
          base_url = read_env_string-empty prefix "BASE_URL";
          data_governance = read_env_string-empty prefix "DATA_GOVERNANCE";
          webhook_signing_key = read_env_string-empty prefix "WEBHOOK_SIGNING_KEY";
          webhook_signature_valid_for =
              read_env-IsRead prefix "WEBHOOK_SIGNATURE_VALID_FOR" (pos 0) valid_for conv.to_int e0;
          poll_interval = read_env-IsRead prefix "POLL_INTERVAL" (pos 0) interval conv.to_int e1;
          default_attrs =
              read_env-IsRead prefix "DEFAULT_USER_ATTRIBUTES" none attrs conv.to_user_attrs e2;
          offline = load_offline-HasOffline prefix offline e3;
          log = read_env_string-empty (prefix <> "_LOG") "LEVEL";
        })
