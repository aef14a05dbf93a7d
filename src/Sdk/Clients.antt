-- ===== src/Sdk/Clients.antt =====
-- sdk/sdk.go: the client of one SDK. The ConfigCat SDK evaluates; its snapshot is a parameter.
pub mod Laws
use configcat_proxy.Base.{
  ◌==◌, if◌then◌else◌, ℤ, pos, ltb_ℤ, ℕ, zero, suc, String, Bool, true, false, not, ◌&&◌, ◌||◌,
  Option, List, [], ◌∷◌, string_eq,
}
use configcat_proxy.Base.Dict.{Dict, keys, insert}
use configcat_proxy.Model.{UserAttrs, merge_user_attrs, EvalError, Value, EvalData}
use configcat_proxy.Config.Types.{SdkConfig}
use configcat_proxy.Sdk.Store.{EntryWithEtag}

-- The stores that `NewClient` chooses from; the cached one gets the key of the cache entry.
pub data Storage : Type 0 where
  file_store : String → Storage
  notifying_cache_store : String → Storage
  cache_store in_memory_store : Storage

abbrev pub valid_empty_sdk_key : String
valid_empty_sdk_key = "0000000000000000000000/0000000000000000000000"

-- `EvaluationDetails`, as far as it is used.
pub record EvaluationDetails : Type 0 where
  pub key : String
  pub value : Value
  pub variation_id : String
  pub user : UserAttrs
  pub error : Option EvalError
  pub matched_percentage_option : Bool
  pub matched_targeting_rule : Bool

-- The ConfigCat client: `Snapshot(user)` with its two calls, and `GetAllKeys`.
pub record ConfigCatClient : Type 0 where
  pub get_value_details : UserAttrs → String → EvaluationDetails
  pub get_all_value_details : UserAttrs → List EvaluationDetails
  pub get_all_keys : List String

-- The choice of the store at the start of `NewClient`, and the key for the ConfigCat client.
pub choose_storage : (String → String) → SdkConfig → Bool → Storage × String
choose_storage produce_cache_key conf external_cache =
    if conf.offline.enabled && not (conf.offline.local.file_path == "")
    then (file_store conf.offline.local.file_path, valid_empty_sdk_key)
    else if conf.offline.enabled && conf.offline.use_cache && external_cache
    then (notifying_cache_store (produce_cache_key conf.key), conf.key)
    else if not conf.offline.enabled && external_cache
    then (cache_store, conf.key)
    else (in_memory_store, conf.key)

-- Whether the client listens to the store or polls by itself.
pub is_notifying : Storage → Bool
is_notifying (file_store path) = true
is_notifying (notifying_cache_store key) = true
is_notifying cache_store = false
is_notifying in_memory_store = false

-- The interval of `poll`.
pub poll_interval_of : SdkConfig → ℤ
poll_interval_of conf = if ltb_ℤ conf.poll_interval (pos 1) then pos 60 else conf.poll_interval

-- What `signal` reads and changes; `refreshes` and `published` count the calls.
pub record Signals : Type 0 where
  pub initialized : Bool
  pub refreshes : ℕ
  pub published : ℕ

pub signal : Bool → Signals → Signals
signal offline s =
    if not offline && not s.initialized then record s { initialized = true } else record s {
      refreshes = if offline then suc s.refreshes else s.refreshes;
      published = suc s.published;
    }

pub signals : Bool → ℕ → Signals → Signals
unfolding signal
signals offline zero s = s
signals offline (suc n) s = signals offline n (signal offline s)

abbrev eval_data_of : EvaluationDetails → EvalData
eval_data_of details = record {
  value = details.value;
  variation_id = details.variation_id;
  user = details.user;
  error = details.error;
  is_targeting = details.matched_percentage_option || details.matched_targeting_rule;
}

-- The loop of `EvalAll`.
collect : List EvaluationDetails → Dict String EvalData → Dict String EvalData
collect [] result = result
collect (details ∷ all) result = collect all (insert details.key (eval_data_of details) result)

-- The loop of `HasKey`.
is_listed : String → List String → Bool
is_listed key [] = false
is_listed key (k ∷ keys) = if k == key then true else is_listed key keys

module _ (config_cat_client : ConfigCatClient) (default_attrs : UserAttrs) where
  pub client_eval : String → UserAttrs → EvalData
  client_eval key user =
      eval_data_of (config_cat_client.get_value_details (merge_user_attrs default_attrs user) key)

  pub client_eval_all : UserAttrs → Dict String EvalData
  unfolding collect
  client_eval_all user =
      collect (config_cat_client.get_all_value_details (merge_user_attrs default_attrs user)) []

  pub client_has_key : String → Bool
  unfolding is_listed
  client_has_key key = is_listed key config_cat_client.get_all_keys

-- `IsInValidState`.
pub client_is_in_valid_state : EntryWithEtag → Bool
client_is_in_valid_state entry = not entry.empty
