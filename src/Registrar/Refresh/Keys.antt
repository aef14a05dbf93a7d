-- ===== src/Registrar/Refresh/Keys.antt =====
-- What the key check does to the map by SDK key.
use configcat_proxy.Base.{
  ◌==◌, if◌then◌else◌, ℕ, String, ◌≡◌, ◌≢◌, none, some, arith, eq_iff, string_eq, nat_eq,
}
use configcat_proxy.Base.Dict.{Dict, lookup, delete, lookup-insert, lookup-delete}
use configcat_proxy.Model.{SdkConfigModel}
use configcat_proxy.Registrar.{ClientObject, AutoRegistrar, sdk_keys}
use configcat_proxy.Registrar.Refresh.{check_sdk}

-- When the profile changes the secondary key of a client whose primary key stays, the new key leads
-- to the client and the old one nowhere. This holds of a removed secondary key too, so that then
-- the empty text leads to the client.
pub lookup-check_sdk :
    (sdks : Dict String SdkConfigModel) (id : String) (p : SdkConfigModel) (r : AutoRegistrar)
    (h : ℕ) (c : ClientObject) (old k : String)
    → lookup id sdks ≡ some p
    → lookup id r.sdk_clients ≡ some h
    → lookup h r.heap ≡ some c
    → c.conf.key ≡ p.key1
    → c.secondary ≡ some old
    → old ≢ p.key2
    → lookup k (check_sdk sdks id r).0.by_sdk_key
      ≡ (if p.key2 == k then some h else if old == k then none else lookup k r.by_sdk_key)
unfolding check_sdk sdk_keys
lookup-check_sdk sdks id p r h c old k known e at same had changed = ground (
  arith,
  eq_iff c.conf.key p.key1,
  eq_iff old p.key2,
  lookup-insert p.key2 k h (delete old r.by_sdk_key),
  lookup-delete old k r.by_sdk_key,
)
