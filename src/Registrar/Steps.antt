-- ===== src/Registrar/Steps.antt =====
-- One round of each loop of the registrar: it keeps the maps and the heap consistent, and changes
-- the client of one id only.
use configcat_proxy.Base.{
  ◌==◌, if◌then◌else◌, Option-cases, String, ◌≡◌, refl, ◌↔◌, inl, inr, Option, none, some, arith,
  eq_iff, string_eq, nat_eq,
}
use configcat_proxy.Model.{SdkConfigModel}
use configcat_proxy.Registrar.{
  ClientObject, AutoRegistrar, build_sdk_config, new_client, close, delete_sdk_client,
  add_sdk_client, reset_sdk_client,
}
use configcat_proxy.Registrar.Invariant.{
  IsConsistent, lookup-change, registered-lt, registered_inj, add-IsConsistent, delete-IsConsistent,
  replace-IsConsistent,
}
use configcat_proxy.Base.Dict.{lookup, insert, lookup-insert, lookup-delete}

abbrev pub Inv : AutoRegistrar → Type 0
Inv r = IsConsistent r.sdk_clients r.heap r.next

-- The client that `GetSdkOrNil` returns, as the object behind the handle.
abbrev pub client_of : AutoRegistrar → String → Option ClientObject
client_of r id = elim (lookup id r.sdk_clients) [ none ↦ none | some h ↦ lookup h r.heap ]

-- The client has the keys of the profile; no secondary key is as good as an empty one.
abbrev pub HasSecondary : Option String → String → Type 0
HasSecondary none key2 = key2 ≡ ""
HasSecondary (some old) key2 = old ≡ key2

abbrev pub Matches : ClientObject → SdkConfigModel → Type 0
Matches c m = (c.conf.key ≡ m.key1) × HasSecondary c.secondary m.key2

pub new_client-Matches :
    (r : AutoRegistrar) (id : String) (m : SdkConfigModel)
    → Matches (new_client id (build_sdk_config r id m) m) m
unfolding new_client build_sdk_config
new_client-Matches r id m = ground (arith, eq_iff m.key2 "")

module _ (r : AutoRegistrar) (v : Inv r) where
  pub delete_sdk_client-Inv : (id : String) → Inv (delete_sdk_client id r)
  unfolding delete_sdk_client
  delete_sdk_client-Inv id = elim (Option-cases (lookup id r.sdk_clients)) [
    | inl absent ↦ rw (absent, delete_sdk_client) v
    | inr (h, e) ↦ rw (e, delete_sdk_client) (delete-IsConsistent v id h e)
  ]

  pub add_sdk_client-Inv : (id : String) (m : SdkConfigModel) → Inv (add_sdk_client id m r)
  unfolding add_sdk_client new_client
  add_sdk_client-Inv id m = elim (Option-cases (lookup id r.sdk_clients)) [
    | inl absent ↦
        rw (absent, add_sdk_client)
          (add-IsConsistent v (new_client id (build_sdk_config r id m) m) absent refl)
    | inr (h, e) ↦ rw (e, add_sdk_client) v
  ]

  pub reset_sdk_client-Inv : (id : String) (m : SdkConfigModel) → Inv (reset_sdk_client id m r)
  unfolding reset_sdk_client new_client
  reset_sdk_client-Inv id m = elim (Option-cases (lookup id r.sdk_clients)) [
    | inl absent ↦
        rw (absent, reset_sdk_client)
          (add-IsConsistent v (new_client id (build_sdk_config r id m) m) absent refl)
    | inr (h, e) ↦
        rw (e, reset_sdk_client)
          (replace-IsConsistent v (new_client id (build_sdk_config r id m) m) h e refl)
  ]

  -- Other ids keep their clients.
  pub client_of-delete :
      (id j : String)
      → client_of (delete_sdk_client id r) j ≡ (if id == j then none else client_of r j)
  unfolding delete_sdk_client
  client_of-delete id j = elim (Option-cases (lookup id r.sdk_clients)) [
    | inl absent ↦ rw (absent, delete_sdk_client) (ground (arith, eq_iff id j))
    | inr (k, e) ↦ elim (Option-cases (lookup j r.sdk_clients)) [
      | inl gone ↦ ground (arith, lookup-delete id j r.sdk_clients)
      | inr (h, at) ↦ ground (
        arith,
        lookup-delete id j r.sdk_clients,
        lookup-change close k h r.heap,
        registered_inj v id j h,
        eq_iff id j,
      )
    ]
  ]

  pub client_of-reset :
      (id j : String) (m : SdkConfigModel)
      → client_of (reset_sdk_client id m r) j
        ≡ (if id == j then some (new_client id (build_sdk_config r id m) m) else client_of r j)
  unfolding reset_sdk_client
  client_of-reset id j m =
      let c = new_client id (build_sdk_config r id m) m in
      elim (Option-cases (lookup id r.sdk_clients)) [
        | inl absent ↦ elim (Option-cases (lookup j r.sdk_clients)) [
          | inl gone ↦
              ground (
                arith,
                lookup-insert id j r.next r.sdk_clients,
                lookup-insert r.next r.next c r.heap,
              )
          | inr (h, at) ↦ ground (
            arith,
            lookup-insert id j r.next r.sdk_clients,
            lookup-insert r.next h c r.heap,
            lookup-insert r.next r.next c r.heap,
            registered-lt v j h at,
          )
        ]
        | inr (k, e) ↦ elim (Option-cases (lookup j r.sdk_clients)) [
          | inl gone ↦ ground (
            arith,
            lookup-insert id j r.next r.sdk_clients,
            lookup-insert r.next r.next c r.heap,
            lookup-change close k r.next (insert r.next c r.heap),
            registered-lt v id k e,
            eq_iff id j,
          )
          | inr (h, at) ↦ ground (
            arith,
            lookup-insert id j r.next r.sdk_clients,
            lookup-insert r.next h c r.heap,
            lookup-insert r.next r.next c r.heap,
            lookup-change close k r.next (insert r.next c r.heap),
            lookup-change close k h (insert r.next c r.heap),
            registered-lt v id k e,
            registered-lt v j h at,
            registered_inj v id j h,
            eq_iff id j,
          )
        ]
      ]

  pub client_of-add :
      (id j : String) (m : SdkConfigModel)
      → lookup id r.sdk_clients ≡ none
      → client_of (add_sdk_client id m r) j
        ≡ (if id == j then some (new_client id (build_sdk_config r id m) m) else client_of r j)
  unfolding add_sdk_client
  client_of-add id j m absent =
      let c = new_client id (build_sdk_config r id m) m in
      elim (Option-cases (lookup j r.sdk_clients)) [
        | inl gone ↦
            ground
              (arith, lookup-insert id j r.next r.sdk_clients, lookup-insert r.next r.next c r.heap)
        | inr (h, at) ↦ ground (
          arith,
          lookup-insert id j r.next r.sdk_clients,
          lookup-insert r.next h c r.heap,
          lookup-insert r.next r.next c r.heap,
          registered-lt v j h at,
        )
      ]

  -- A registered id has a client, and the other way round.
  pub client_of-eq-none_iff :
      (id : String) → (client_of r id ≡ none) ↔ (lookup id r.sdk_clients ≡ none)
  client_of-eq-none_iff id = elim (Option-cases (lookup id r.sdk_clients)) [
    | inl absent ↦ ground arith
    | inr (h, e) ↦ let (c, at, _, _) = v.registered id h e in ground arith
  ]
