-- ===== src/Registrar/Refresh/KeyChecks.antt =====
-- The loop of the key checks over the remaining SDK ids.
use configcat_proxy.Base.{
  ◌==◌, Bool-cases, beq_refl, contains, String, ◌≡◌, refl, sym, ◌∙◌, inl, inr, true, false, not,
  ◌&&◌, ◌||◌, some, List, [], ◌∷◌, arith, eq_iff, string_eq, nat_eq,
}
use configcat_proxy.Registrar.Refresh.{check_sdk, check_sdks}
use configcat_proxy.Registrar.Refresh.Checks.{
  check_sdk-Inv, checked_client, client_of-check_sdk, check_sdk-changed, client_of-check_sdk_other,
  checked_client_twice,
}
use configcat_proxy.Model.{SdkConfigModel}
use configcat_proxy.Registrar.{ClientObject, AutoRegistrar}
use configcat_proxy.Registrar.Steps.{Inv, client_of}
use mathlib.Core.Path.{subst}
use configcat_proxy.Base.Dict.{Dict, lookup}

-- The loop of the key check.
module _ (sdks : Dict String SdkConfigModel) where
  pub check_sdks-Inv :
      (ids : List String) (r : AutoRegistrar) → Inv r → Inv (check_sdks sdks ids r).0
  unfolding check_sdks
  check_sdks-Inv [] r v = v
  check_sdks-Inv (id ∷ ids) r v =
      check_sdks-Inv ids (check_sdk sdks id r).0 (check_sdk-Inv sdks id r v)

  pub check_sdks_other :
      (ids : List String) (r : AutoRegistrar) (j : String)
      → Inv r
      → contains ids j ≡ false
      → (client_of (check_sdks sdks ids r).0 j ≡ client_of r j)
        × (contains (check_sdks sdks ids r).1 j ≡ false)
  unfolding check_sdks contains
  check_sdks_other [] r j v h = (refl, refl)
  check_sdks_other (id ∷ ids) r j v h = ground (
    arith,
    check_sdks_other ids (check_sdk sdks id r).0 j (check_sdk-Inv sdks id r v),
    client_of-check_sdk_other sdks r v id j,
    eq_iff id j,
    eq_iff j id,
  )

  -- After the check of `j` itself, whether or not the id comes again.
  check_sdks_again :
      (ids : List String) (r : AutoRegistrar) (j : String) (m : SdkConfigModel) (c : ClientObject)
      → Inv r
      → ((c' : ClientObject)
          → client_of r j ≡ some c'
          → contains ids j ≡ true
          → (client_of (check_sdks sdks ids r).0 j ≡ some (checked_client m c'))
            × (contains (check_sdks sdks ids r).1 j ≡ not (c'.conf.key == m.key1)))
      → client_of r j ≡ some (checked_client m c)
      → (client_of (check_sdks sdks ids r).0 j ≡ some (checked_client m c))
        × ((contains (check_sdks sdks ids r).1 j || not (c.conf.key == m.key1))
            ≡ not (c.conf.key == m.key1))
  check_sdks_again ids r j m c v ih e = elim (Bool-cases (contains ids j)) [
    | inl again ↦
        let (at, listed) = ih (checked_client m c) e again in
        let (twice, key) = checked_client_twice m c in ground arith
    | inr once ↦ let (at, unlisted) = check_sdks_other ids r j v once in (at ∙ e, ground arith)
  ]

  -- One round of the loop, as equations.
  check_sdks_step :
      (id : String) (ids : List String) (r : AutoRegistrar) (j : String)
      → (client_of (check_sdks sdks (id ∷ ids) r).0 j
          ≡ client_of (check_sdks sdks ids (check_sdk sdks id r).0).0 j)
        × (contains (check_sdks sdks (id ∷ ids) r).1 j ≡ (
            ((check_sdk sdks id r).1 && id == j)
            || contains (check_sdks sdks ids (check_sdk sdks id r).0).1 j))
  unfolding check_sdks contains
  check_sdks_step id ids r j = (refl, ground (arith, eq_iff id j, eq_iff j id))

  contains_step :
      (id : String) (ids : List String) (j : String)
      → (id == j) ≡ false
      → contains ids j ≡ contains (id ∷ ids) j
  unfolding contains
  contains_step id ids j ne = ground (arith, eq_iff id j, eq_iff j id)

  -- The round of `j` itself, given what the rest does.
  check_sdks_self :
      (ids : List String) (r : AutoRegistrar) (j : String) (m : SdkConfigModel) (c : ClientObject)
      → Inv r
      → lookup j sdks ≡ some m
      → client_of r j ≡ some c
      → ((c' : ClientObject)
          → client_of (check_sdk sdks j r).0 j ≡ some c'
          → contains ids j ≡ true
          → (client_of (check_sdks sdks ids (check_sdk sdks j r).0).0 j
              ≡ some (checked_client m c'))
            × (contains (check_sdks sdks ids (check_sdk sdks j r).0).1 j
                ≡ not (c'.conf.key == m.key1)))
      → (client_of (check_sdks sdks (j ∷ ids) r).0 j ≡ some (checked_client m c))
        × (contains (check_sdks sdks (j ∷ ids) r).1 j ≡ not (c.conf.key == m.key1))
  check_sdks_self ids r j m c v at e ih =
      let (first, listed) = check_sdks_step j ids r j in
      let (kept, marked) =
        check_sdks_again ids (check_sdk sdks j r).0 j m c (check_sdk-Inv sdks j r v) ih
          (client_of-check_sdk sdks r v j j m c at e ∙ rw (beq_refl j)) in
      (
        first ∙ kept,
        ground (arith, listed, marked, check_sdk-changed sdks r v j m c at e, beq_refl j),
      )

  -- A checked client has been brought to the profile's keys, or its id is listed for a reset.
  pub check_sdks_mine :
      (ids : List String) (r : AutoRegistrar) (j : String) (m : SdkConfigModel) (c : ClientObject)
      → Inv r
      → lookup j sdks ≡ some m
      → client_of r j ≡ some c
      → contains ids j ≡ true
      → (client_of (check_sdks sdks ids r).0 j ≡ some (checked_client m c))
        × (contains (check_sdks sdks ids r).1 j ≡ not (c.conf.key == m.key1))
  check_sdks_mine [] r j m c v at e h = unfold contains in cc
  check_sdks_mine (id ∷ ids) r j m c v at e h = elim (Bool-cases (id == j)) [
    | inl same ↦
        subst
          (λ i.
            (client_of (check_sdks sdks (i ∷ ids) r).0 j ≡ some (checked_client m c))
            × (contains (check_sdks sdks (i ∷ ids) r).1 j ≡ not (c.conf.key == m.key1)))
          (sym ((eq_iff id j).0 same))
          (check_sdks_self ids r j m c v at e λ c' e' h'.
            check_sdks_mine ids (check_sdk sdks j r).0 j m c' (check_sdk-Inv sdks j r v) at e' h')
    | inr other ↦
        let (first, listed) = check_sdks_step id ids r j in
        let (kept, marked) =
          check_sdks_mine ids (check_sdk sdks id r).0 j m c (check_sdk-Inv sdks id r v) at
            (client_of-check_sdk_other sdks r v id j other ∙ e)
            (contains_step id ids j other ∙ h) in
        (first ∙ kept, ground (arith, listed, marked))
  ]
