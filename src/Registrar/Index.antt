-- ===== src/Registrar/Index.antt =====
-- The map by SDK key: what a reset, a removal and a changed secondary key do to it.
use configcat_proxy.Base.{
  ◌==◌, if◌then◌else◌, ℕ, String, ◌≡◌, ap, ◌∙◌, Bool, not, ◌&&◌, ◌||◌, Option, none, some, arith,
  eq_iff, string_eq, nat_eq,
}
use configcat_proxy.Model.{SdkConfigModel}
use configcat_proxy.Registrar.{
  ClientObject, AutoRegistrar, build_sdk_config, new_client, sdk_keys, drop_keys, put_keys,
  delete_sdk_client, reset_sdk_client,
}
use configcat_proxy.Registrar.Steps.{Inv}
use configcat_proxy.Base.Dict.{Dict, lookup, insert, delete, lookup-insert, lookup-delete}

-- `k` is a key of the client: its primary or its secondary one, the empty text being none.
abbrev pub is_key_of : String × Option String → String → Bool
is_key_of (key1, none) k = not (k == "") && key1 == k
is_key_of (key1, some key2) k = not (k == "") && (key1 == k || key2 == k)

abbrev pub is_profile_key : SdkConfigModel → String → Bool
is_profile_key m k = not (k == "") && (m.key1 == k || m.key2 == k)

pub lookup-drop_keys :
    (old : String × Option String) (k : String) (m : Dict String ℕ)
    → lookup k (drop_keys old m) ≡ (if is_key_of old k then none else lookup k m)
unfolding drop_keys
lookup-drop_keys (key1, none) k m =
    ground (arith, lookup-delete key1 k m, eq_iff key1 "", eq_iff key1 k, eq_iff k "")
lookup-drop_keys (key1, some key2) k m = ground (
  arith,
  lookup-delete key1 k m,
  lookup-delete key2 k m,
  lookup-delete key2 k (delete key1 m),
  eq_iff key1 "",
  eq_iff key2 "",
  eq_iff key1 k,
  eq_iff key2 k,
  eq_iff k "",
)

lookup-put_keys :
    (p : SdkConfigModel) (h : ℕ) (k : String) (m : Dict String ℕ)
    → lookup k (put_keys p h m) ≡ (if is_profile_key p k then some h else lookup k m)
unfolding put_keys
lookup-put_keys p h k m = ground (
  arith,
  lookup-insert p.key1 k h m,
  lookup-insert p.key2 k h m,
  lookup-insert p.key2 k h (insert p.key1 h m),
  eq_iff p.key1 "",
  eq_iff p.key2 "",
  eq_iff p.key1 k,
  eq_iff p.key2 k,
  eq_iff k "",
)

-- In a consistent registrar, a reset of a registered client leads the SDK keys of the profile to
-- the new client, the other keys of the old client nowhere, and changes the lookup of no other key.
pub lookup-reset_sdk_client :
    (id : String) (p : SdkConfigModel) (r : AutoRegistrar) (h : ℕ) (c : ClientObject) (k : String)
    → Inv r
    → lookup id r.sdk_clients ≡ some h
    → lookup h r.heap ≡ some c
    → lookup k (reset_sdk_client id p r).by_sdk_key ≡ (
        if is_profile_key p k
        then some r.next
        else if is_key_of (c.conf.key, c.secondary) k
        then none
        else lookup k r.by_sdk_key)
unfolding reset_sdk_client sdk_keys
lookup-reset_sdk_client id p r h c k v e at =
    let d = new_client id (build_sdk_config r id p) p in
    let old : sdk_keys (insert r.next d r.heap) h ≡ (c.conf.key, c.secondary) =
      ground (arith, lookup-insert r.next h d r.heap, v.free h) in
    rw (e, reset_sdk_client)
      (lookup-put_keys p r.next k (drop_keys (sdk_keys (insert r.next d r.heap) h) r.by_sdk_key)
        ∙ (rw old (
            ap (λ x. if is_profile_key p k then some r.next else x)
              (lookup-drop_keys (c.conf.key, c.secondary) k r.by_sdk_key))))

-- A removal of a registered client leads the keys of the removed client nowhere, and changes the
-- lookup of no other key.
pub lookup-delete_sdk_client :
    (id : String) (r : AutoRegistrar) (h : ℕ) (c : ClientObject) (k : String)
    → lookup id r.sdk_clients ≡ some h
    → lookup h r.heap ≡ some c
    → lookup k (delete_sdk_client id r).by_sdk_key
      ≡ (if is_key_of (c.conf.key, c.secondary) k then none else lookup k r.by_sdk_key)
unfolding delete_sdk_client sdk_keys
lookup-delete_sdk_client id r h c k e at =
    let old : sdk_keys r.heap h ≡ (c.conf.key, c.secondary) = ground arith in
    rw (e, delete_sdk_client) (rw old (lookup-drop_keys (c.conf.key, c.secondary) k r.by_sdk_key))
