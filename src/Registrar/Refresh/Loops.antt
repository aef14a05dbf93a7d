-- ===== src/Registrar/Refresh/Loops.antt =====
-- What the loops of `refreshConfig` do to the client of an id.
use configcat_proxy.Base.{
  ◌==◌, if◌then◌else◌, Bool-cases, Option-cases, contains, String, ◌≡◌, refl, sym, ◌∙◌, inl, inr,
  true, false, Option, none, some, List, [], ◌∷◌, arith, eq_iff, string_eq, nat_eq,
}
use configcat_proxy.Model.{SdkConfigModel}
use configcat_proxy.Registrar.{
  ClientObject, AutoRegistrar, build_sdk_config, new_client, delete_sdk_client, delete_sdk_clients,
  add_sdk_client, reset_sdk_client, for_sdks,
}
use configcat_proxy.Registrar.Steps.{
  Inv, client_of, Matches, new_client-Matches, delete_sdk_client-Inv, add_sdk_client-Inv,
  reset_sdk_client-Inv, client_of-delete, client_of-reset,
}
use mathlib.Core.Path.{subst}
use configcat_proxy.Base.Dict.{Dict, lookup}

pub delete_sdk_clients-Inv :
    (ids : List String) (r : AutoRegistrar) → Inv r → Inv (delete_sdk_clients ids r)
unfolding delete_sdk_clients
delete_sdk_clients-Inv [] r v = v
delete_sdk_clients-Inv (id ∷ ids) r v =
    delete_sdk_clients-Inv ids (delete_sdk_client id r) (delete_sdk_client-Inv r v id)

pub client_of-delete_sdk_clients :
    (ids : List String) (r : AutoRegistrar) (j : String)
    → Inv r
    → client_of (delete_sdk_clients ids r) j ≡ (if contains ids j then none else client_of r j)
unfolding delete_sdk_clients contains
client_of-delete_sdk_clients [] r j v = refl
client_of-delete_sdk_clients (id ∷ ids) r j v = ground (
  arith,
  client_of-delete_sdk_clients ids (delete_sdk_client id r) j (delete_sdk_client-Inv r v id),
  client_of-delete r v id j,
  eq_iff id j,
  eq_iff j id,
)

-- The client of `j` has the keys of `m`.
abbrev pub IsServed : AutoRegistrar → String → SdkConfigModel → Type 0
IsServed r j m = (c : ClientObject) × (client_of r j ≡ some c) × Matches c m

module _ (body : String → SdkConfigModel → AutoRegistrar → AutoRegistrar)
    (sdks : Dict String SdkConfigModel) (id : String) (ids : List String) (r : AutoRegistrar) where
  pub skip : lookup id sdks ≡ none → for_sdks body sdks (id ∷ ids) r ≡ for_sdks body sdks ids r
  unfolding for_sdks
  skip e = rw (e, for_sdks)

  pub go_on :
      (m : SdkConfigModel)
      → lookup id sdks ≡ some m
      → for_sdks body sdks (id ∷ ids) r ≡ for_sdks body sdks ids (body id m r)
  unfolding for_sdks
  go_on m e = rw (e, for_sdks)

-- A loop keeps what its body keeps, whatever the ids.
pub for_sdks-keeps :
    (P : AutoRegistrar → Type 0) (body : String → SdkConfigModel → AutoRegistrar → AutoRegistrar)
    (sdks : Dict String SdkConfigModel)
    → ((id : String) (m : SdkConfigModel) (r : AutoRegistrar)
        → lookup id sdks ≡ some m
        → P r
        → P (body id m r))
    → (ids : List String) (r : AutoRegistrar) → P r
    → P (for_sdks body sdks ids r)
unfolding for_sdks
for_sdks-keeps P body sdks keep [] r p = p
for_sdks-keeps P body sdks keep (id ∷ ids) r p = elim (Option-cases (lookup id sdks)) [
  | inl unknown ↦
      subst P (sym (skip body sdks id ids r unknown)) (for_sdks-keeps P body sdks keep ids r p)
  | inr (m, at) ↦
      subst P (sym (go_on body sdks id ids r m at))
        (for_sdks-keeps P body sdks keep ids (body id m r) (keep id m r at p))
]

-- A loop over ids other than `j` keeps what its body keeps for other ids.
pub for_sdks-keeps_other :
    (P : AutoRegistrar → Type 0) (body : String → SdkConfigModel → AutoRegistrar → AutoRegistrar)
    (sdks : Dict String SdkConfigModel) (j : String)
    → ((id : String) (m : SdkConfigModel) (r : AutoRegistrar)
        → (id == j) ≡ false
        → P r
        → P (body id m r))
    → (ids : List String) (r : AutoRegistrar) → contains ids j ≡ false
    → P r
    → P (for_sdks body sdks ids r)
unfolding for_sdks contains
for_sdks-keeps_other P body sdks j keep [] r h p = p
for_sdks-keeps_other P body sdks j keep (id ∷ ids) r h p = elim (Option-cases (lookup id sdks)) [
  | inl unknown ↦
      subst P (sym (skip body sdks id ids r unknown))
        (for_sdks-keeps_other P body sdks j keep ids r (ground arith) p)
  | inr (m, at) ↦ subst P (sym (go_on body sdks id ids r m at)) (
      for_sdks-keeps_other P body sdks j keep ids (body id m r) (ground arith)
        (keep id m r (ground (arith, eq_iff id j, eq_iff j id)) p))
]

module _ (sdks : Dict String SdkConfigModel) where
  pub reset-Inv :
      (ids : List String) (r : AutoRegistrar) → Inv r → Inv (for_sdks reset_sdk_client sdks ids r)
  reset-Inv =
      for_sdks-keeps Inv reset_sdk_client sdks (λ id m r at v. reset_sdk_client-Inv r v id m)

  pub add-Inv :
      (ids : List String) (r : AutoRegistrar) → Inv r → Inv (for_sdks add_sdk_client sdks ids r)
  add-Inv = for_sdks-keeps Inv add_sdk_client sdks (λ id m r at v. add_sdk_client-Inv r v id m)

  -- Resets of other ids leave the client of `j` as it is.
  pub reset_other :
      (ids : List String) (r : AutoRegistrar) (j : String) (o : Option ClientObject)
      → contains ids j ≡ false
      → Inv r
      → client_of r j ≡ o
      → client_of (for_sdks reset_sdk_client sdks ids r) j ≡ o
  reset_other ids r j o h v e =
      (for_sdks-keeps_other (λ s. Inv s × (client_of s j ≡ o)) reset_sdk_client sdks j
        (λ id m s ne p.
          (reset_sdk_client-Inv s p.0 id m, client_of-reset s p.0 id j m ∙ (rw ne p.1)))
        ids r h (v, e)).1

  reset_serves :
      (r : AutoRegistrar) (id j : String) (n m : SdkConfigModel)
      → lookup id sdks ≡ some n
      → lookup j sdks ≡ some m
      → Inv r
      → (id == j) ≡ true
      → IsServed (reset_sdk_client id n r) j m
  reset_serves r id j n m at at' v same =
      let same_id = (eq_iff id j).0 same in
      (
        new_client id (build_sdk_config r id n) n,
        client_of-reset r v id j n ∙ (rw same),
        ground (arith, new_client-Matches r id n, same_id),
      )

  -- Once `j` has the keys of the profile, more resets keep that.
  reset_keeps :
      (j : String) (m : SdkConfigModel)
      → lookup j sdks ≡ some m
      → (ids : List String) (r : AutoRegistrar) → Inv r × IsServed r j m
      → Inv (for_sdks reset_sdk_client sdks ids r)
        × IsServed (for_sdks reset_sdk_client sdks ids r) j m
  reset_keeps j m at' =
      for_sdks-keeps (λ s. Inv s × IsServed s j m) reset_sdk_client sdks
        (λ id n s at p. (
          reset_sdk_client-Inv s p.0 id n,
          elim (Bool-cases (id == j)) [
            | inl same ↦ reset_serves s id j n m at at' p.0 same
            | inr other ↦ (p.1.0, client_of-reset s p.0 id j n ∙ (rw other p.1.1), p.1.2)
          ],
        ))

  -- A reset of `j` gives its client the keys of the profile.
  pub reset_mine :
      (ids : List String) (r : AutoRegistrar) (j : String) (m : SdkConfigModel)
      → lookup j sdks ≡ some m
      → contains ids j ≡ true
      → Inv r
      → IsServed (for_sdks reset_sdk_client sdks ids r) j m
  unfolding contains
  reset_mine [] r j m at h v = cc
  reset_mine (id ∷ ids) r j m at h v = elim (Option-cases (lookup id sdks)) [
    | inl unknown ↦
        rw (skip reset_sdk_client sdks id ids r unknown)
          (reset_mine ids r j m at (ground (arith, eq_iff j id)) v)
    | inr (n, at') ↦
        let v' = reset_sdk_client-Inv r v id n in
        rw (go_on reset_sdk_client sdks id ids r n at') (elim (Bool-cases (id == j)) [
          | inl same ↦
              (reset_keeps j m at ids (reset_sdk_client id n r)
                (v', reset_serves r id j n m at' at v same)).1
          | inr other ↦
              reset_mine ids (reset_sdk_client id n r) j m at
                (ground (arith, eq_iff j id, eq_iff id j)) v'
        ])
  ]
