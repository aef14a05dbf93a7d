-- ===== src/Registrar/Refresh/Checks.antt =====
-- The key check of one remaining SDK: a client whose primary key is unchanged has the profile's
-- keys afterwards, and any other is marked for a reset.
use configcat_proxy.Base.{
  ◌==◌, nat_eq, if◌then◌else◌, Bool-cases, Option-cases, ℕ, String, ◌≡◌, refl, ◌∙◌, ◌⊎◌, inl, inr,
  true, false, not, none, some, arith, eq_iff, string_eq,
}
use configcat_proxy.Model.{SdkConfigModel}
use configcat_proxy.Registrar.{ClientObject, AutoRegistrar, sdk_keys, set_secondary, change}
use configcat_proxy.Registrar.Invariant.{lookup-change, registered_inj, change-IsConsistent}
use configcat_proxy.Registrar.Steps.{Inv, client_of, Matches}
use configcat_proxy.Registrar.Refresh.{update_secondary, check_keys, check_sdk}
use configcat_proxy.Base.Dict.{Dict, lookup}

-- What a key check does to the maps and the heap: nothing, or one secondary key is set.
pub record IsCheckStep (r s : AutoRegistrar) : Type 0 where
  pub clients : s.sdk_clients ≡ r.sdk_clients
  pub next : s.next ≡ r.next
  pub heap :
      (s.heap ≡ r.heap)
      ⊎ ((key : String) × (h : ℕ) × (s.heap ≡ change (set_secondary key) h r.heap))

check_keys-IsCheckStep :
    (id : String) (m : SdkConfigModel) (h : ℕ) (r : AutoRegistrar)
    → IsCheckStep r (check_keys id m h r).0
unfolding check_keys update_secondary
check_keys-IsCheckStep id m h r = record {
  clients = ground arith;
  next = ground arith;
  heap = changed;
}
  where
    changed :
        ((check_keys id m h r).0.heap ≡ r.heap)
        ⊎ ((key : String) × (k : ℕ) × ((check_keys id m h r).0.heap
              ≡ change (set_secondary key) k r.heap))
    changed = elim (Bool-cases ((sdk_keys r.heap h).0 == m.key1)) [
      | inr other ↦ inl (ground arith)
      | inl same ↦ elim (Option-cases (sdk_keys r.heap h).1) [
        | inl unset ↦ elim (Bool-cases (m.key2 == "")) [
          | inl empty ↦ inl (ground arith)
          | inr filled ↦ inr (m.key2, h, ground arith)
        ]
        | inr (old, e) ↦ elim (Bool-cases (old == m.key2)) [
          | inl kept ↦ inl (ground arith)
          | inr new ↦ inr (m.key2, h, ground arith)
        ]
      ]
    ]

pub check_sdk-IsCheckStep :
    (sdks : Dict String SdkConfigModel) (id : String) (r : AutoRegistrar)
    → IsCheckStep r (check_sdk sdks id r).0
unfolding check_sdk
check_sdk-IsCheckStep sdks id r = elim (Option-cases (lookup id r.sdk_clients)) [
  | inl absent ↦ rw (absent, check_sdk) (record { clients = refl; next = refl; heap = inl refl })
  | inr (h, e) ↦ elim (Option-cases (lookup id sdks)) [
    | inl unknown ↦
        rw (e, check_sdk) (rw unknown (record { clients = refl; next = refl; heap = inl refl }))
    | inr (m, at) ↦ rw (e, check_sdk) (rw at (check_keys-IsCheckStep id m h r))
  ]
]

IsCheckStep-Inv : {r s : AutoRegistrar} → IsCheckStep r s → Inv r → Inv s
IsCheckStep-Inv {r} {s} st v = elim st.heap [
  | inl same ↦ rw (st.clients, st.next, same) v
  | inr (key, h, changed) ↦
      rw (st.clients, st.next, changed)
        (change-IsConsistent v (set_secondary key) h (λ c. (refl, refl)))
]

pub check_sdk-Inv :
    (sdks : Dict String SdkConfigModel) (id : String) (r : AutoRegistrar)
    → Inv r
    → Inv (check_sdk sdks id r).0
check_sdk-Inv sdks id r v = IsCheckStep-Inv (check_sdk-IsCheckStep sdks id r) v

-- The client after the check: untouched, but for its secondary key where that differs.
pub checked_client : SdkConfigModel → ClientObject → ClientObject
checked_client m c = if not (c.conf.key == m.key1) then c else elim c.secondary [
  | none ↦ if not (m.key2 == "") then set_secondary m.key2 c else c
  | some old ↦ if not (old == m.key2) then set_secondary m.key2 c else c
]

check_keys-lookup :
    (id : String) (m : SdkConfigModel) (h k : ℕ) (r : AutoRegistrar) (c : ClientObject)
    → lookup h r.heap ≡ some c
    → lookup k (check_keys id m h r).0.heap
      ≡ (if h == k then some (checked_client m c) else lookup k r.heap)
unfolding check_keys update_secondary checked_client sdk_keys
check_keys-lookup id m h k r c e =
    ground (arith, lookup-change (set_secondary m.key2) h k r.heap, nat_eq.beq_iff h k)

check_keys-changed :
    (id : String) (m : SdkConfigModel) (h : ℕ) (r : AutoRegistrar) (c : ClientObject)
    → lookup h r.heap ≡ some c
    → (check_keys id m h r).1 ≡ not (c.conf.key == m.key1)
unfolding check_keys sdk_keys
check_keys-changed id m h r c e = ground arith

pub checked_client-Matches :
    (m : SdkConfigModel) (c : ClientObject)
    → (c.conf.key == m.key1) ≡ true
    → Matches (checked_client m c) m
unfolding checked_client
checked_client-Matches m c e = elim (Option-cases c.secondary) [
  | inl unset ↦ ground (arith, eq_iff c.conf.key m.key1, eq_iff m.key2 "")
  | inr (old, at) ↦ ground (arith, eq_iff c.conf.key m.key1, eq_iff old m.key2)
]

-- Nothing is done to a client that has the profile's keys.
pub checked_client_id :
    (m : SdkConfigModel) (c : ClientObject) → Matches c m → checked_client m c ≡ c
unfolding checked_client
checked_client_id m c (key, secondary) = elim (Option-cases c.secondary) [
  | inl unset ↦ ground (arith, eq_iff c.conf.key m.key1, eq_iff m.key2 "")
  | inr (old, at) ↦ ground (arith, eq_iff c.conf.key m.key1, eq_iff old m.key2)
]

module _ (sdks : Dict String SdkConfigModel) (r : AutoRegistrar) (v : Inv r) where
  -- What a check does to the client of each id.
  pub client_of-check_sdk :
      (id j : String) (m : SdkConfigModel) (c : ClientObject)
      → lookup id sdks ≡ some m
      → client_of r id ≡ some c
      → client_of (check_sdk sdks id r).0 j
        ≡ (if id == j then some (checked_client m c) else client_of r j)
  unfolding check_sdk
  client_of-check_sdk id j m c at found = elim (Option-cases (lookup id r.sdk_clients)) [
    | inl absent ↦ ground arith
    | inr (h, e) ↦
        let clients = (check_keys-IsCheckStep id m h r).clients in
        let on_heap : lookup h r.heap ≡ some c = ground arith in
        elim (Option-cases (lookup j r.sdk_clients)) [
          | inl gone ↦ ground (arith, eq_iff id j, clients)
          | inr (k, e') ↦ ground (
            arith,
            clients,
            check_keys-lookup id m h k r c on_heap,
            registered_inj v id j h,
            eq_iff id j,
          )
        ]
  ]

  pub check_sdk-changed :
      (id : String) (m : SdkConfigModel) (c : ClientObject)
      → lookup id sdks ≡ some m
      → client_of r id ≡ some c
      → (check_sdk sdks id r).1 ≡ not (c.conf.key == m.key1)
  unfolding check_sdk
  check_sdk-changed id m c at found = elim (Option-cases (lookup id r.sdk_clients)) [
    | inl absent ↦ ground arith
    | inr (h, e) ↦
        let on_heap : lookup h r.heap ≡ some c = ground arith in
        ground (arith, check_keys-changed id m h r c on_heap)
  ]

  pub client_of-check_sdk_other :
      (id j : String) → (id == j) ≡ false → client_of (check_sdk sdks id r).0 j ≡ client_of r j
  unfolding check_sdk
  client_of-check_sdk_other id j ne = elim (Option-cases (lookup id r.sdk_clients)) [
    | inl absent ↦ rw (absent, check_sdk)
    | inr (h, e) ↦ elim (Option-cases (lookup id sdks)) [
      | inl unknown ↦ rw (e, check_sdk) (rw unknown)
      | inr (m, at) ↦
          let (c, on_heap, _, _) = v.registered id h e in
          client_of-check_sdk id j m c at (ground arith) ∙ (rw ne)
    ]
  ]

-- A second check changes nothing.
pub checked_client_twice :
    (m : SdkConfigModel) (c : ClientObject)
    → (checked_client m (checked_client m c) ≡ checked_client m c)
      × ((checked_client m c).conf.key ≡ c.conf.key)
unfolding checked_client
checked_client_twice m c = elim (Bool-cases (c.conf.key == m.key1)) [
  | inl same ↦
      (checked_client_id m (checked_client m c) (checked_client-Matches m c same), ground arith)
  | inr other ↦ (ground arith, ground arith)
]
