-- ===== src/Registrar/Refresh/Adds.antt =====
-- The loop that adds the clients of the new SDK ids.
use configcat_proxy.Base.{
  ◌==◌, Bool-cases, Option-cases, contains, String, ◌≡◌, ◌∙◌, inl, inr, true, false, Option, none,
  some, List, [], ◌∷◌, arith, eq_iff, string_eq, nat_eq,
}
use configcat_proxy.Model.{SdkConfigModel}
use configcat_proxy.Registrar.{
  ClientObject, AutoRegistrar, build_sdk_config, new_client, add_sdk_client, for_sdks,
}
use configcat_proxy.Registrar.Steps.{
  Inv, client_of, new_client-Matches, add_sdk_client-Inv, client_of-add, client_of-eq-none_iff,
}
use configcat_proxy.Base.Dict.{Dict, lookup}
use configcat_proxy.Registrar.Refresh.Loops.{
  IsServed, skip, go_on, for_sdks-keeps, for_sdks-keeps_other,
}

-- Adding keeps every client that is there.
add_sdk_client_old :
    (r : AutoRegistrar) (v : Inv r) (id j : String) (n : SdkConfigModel) (c : ClientObject)
    → client_of r j ≡ some c
    → client_of (add_sdk_client id n r) j ≡ some c
add_sdk_client_old r v id j n c e = elim (Option-cases (lookup id r.sdk_clients)) [
  | inl absent ↦
      ground (
        arith,
        client_of-add r v id j n absent,
        eq_iff id j,
        (client_of-eq-none_iff r v id).1 absent,
      )
  | inr (h, at) ↦ unfold add_sdk_client in rw (at, add_sdk_client) e
]

-- It gives no client to another id.
add_sdk_client_other :
    (r : AutoRegistrar) (v : Inv r) (id j : String) (n : SdkConfigModel)
    → (id == j) ≡ false
    → client_of (add_sdk_client id n r) j ≡ client_of r j
add_sdk_client_other r v id j n ne = elim (Option-cases (lookup id r.sdk_clients)) [
  | inl absent ↦ client_of-add r v id j n absent ∙ rw ne
  | inr (h, at) ↦ unfold add_sdk_client in rw (at, add_sdk_client)
]

module _ (sdks : Dict String SdkConfigModel) (j : String) where
  pub add_old :
      (ids : List String) (r : AutoRegistrar) (c : ClientObject)
      → Inv r
      → client_of r j ≡ some c
      → client_of (for_sdks add_sdk_client sdks ids r) j ≡ some c
  add_old ids r c v e =
      (for_sdks-keeps (λ s. Inv s × (client_of s j ≡ some c)) add_sdk_client sdks
        (λ id n s at p. (add_sdk_client-Inv s p.0 id n, add_sdk_client_old s p.0 id j n c p.1)) ids
        r (v, e)).1

  pub add_other :
      (ids : List String) (r : AutoRegistrar) (o : Option ClientObject)
      → contains ids j ≡ false
      → Inv r
      → client_of r j ≡ o
      → client_of (for_sdks add_sdk_client sdks ids r) j ≡ o
  add_other ids r o h v e =
      (for_sdks-keeps_other (λ s. Inv s × (client_of s j ≡ o)) add_sdk_client sdks j
        (λ id n s ne p. (add_sdk_client-Inv s p.0 id n, add_sdk_client_other s p.0 id j n ne ∙ p.1))
        ids r h (v, e)).1

  -- An added id gets a client with the keys of the profile.
  pub add_mine :
      (ids : List String) (r : AutoRegistrar) (m : SdkConfigModel)
      → lookup j sdks ≡ some m
      → contains ids j ≡ true
      → Inv r
      → client_of r j ≡ none
      → IsServed (for_sdks add_sdk_client sdks ids r) j m
  unfolding contains
  add_mine [] r m at h v e = cc
  add_mine (id ∷ ids) r m at h v e = elim (Option-cases (lookup id sdks)) [
    | inl unknown ↦
        rw (skip add_sdk_client sdks id ids r unknown)
          (add_mine ids r m at (ground (arith, eq_iff j id)) v e)
    | inr (n, at') ↦
        let v' = add_sdk_client-Inv r v id n in
        rw (go_on add_sdk_client sdks id ids r n at') (elim (Bool-cases (id == j)) [
          | inl same ↦
              let same_id = (eq_iff id j).0 same in
              let c = new_client id (build_sdk_config r id n) n in
              let absent : lookup id r.sdk_clients ≡ none =
                (client_of-eq-none_iff r v id).0 (ground arith) in
              (
                c,
                add_old ids (add_sdk_client id n r) c v'
                    (client_of-add r v id j n absent ∙ rw same),
                ground (arith, new_client-Matches r id n, same_id),
              )
          | inr other ↦
              add_mine ids (add_sdk_client id n r) m at (ground (arith, eq_iff j id, eq_iff id j))
                v' (add_sdk_client_other r v id j n other ∙ e)
        ])
  ]
