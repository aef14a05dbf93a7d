-- ===== src/Registrar/Start/Laws.antt =====
-- The clients of a running registrar, after any number of rounds.
use configcat_proxy.Base.{
  ◌==◌, if◌then◌else◌, Bool-cases, Option-cases, is_some, Result, ok, err, String, ◌≡◌, refl, sym,
  ap, ◌∙◌, inl, inr, Bool, true, Option, none, some, List, [], ◌∷◌, arith, eq_iff, string_eq,
  nat_eq,
}
use configcat_proxy.Base.Dict.{Dict, lookup, lookup-insert, IsMap, insert-IsMap}
use configcat_proxy.Model.{SdkConfigModel, OptionsModel, ProxyConfigModel}
use configcat_proxy.Registrar.{
  RegistrarConf, AutoRegistrar, build_sdk_config, new_client, build_sdk_client,
}
use configcat_proxy.Registrar.Invariant.{registered-lt, add-IsConsistent}
use configcat_proxy.Registrar.Steps.{Inv, client_of, new_client-Matches}
use configcat_proxy.Registrar.Refresh.Loops.{IsServed}
use configcat_proxy.Registrar.Start.{
  start_client, start_clients, without_clients, initial_etag, running, new_auto_registrar,
  poll_round, poll_rounds,
}
use configcat_proxy.Registrar.Profile.{Bytes, ProfileError, Response, get_config}
use configcat_proxy.Registrar.Refresh.{refresh_config}
use configcat_proxy.Registrar.Refresh.Laws.{IsSynced, refresh_config-IsSynced, refresh_config-Inv}

without_clients-Inv :
    (conf : RegistrarConf) (options : OptionsModel) → Inv (without_clients conf options)
unfolding lookup
without_clients-Inv conf options = record {
  registered = λ id h e. cc;
  open_registered = λ h c e live. cc;
  free = λ h above. refl;
}

module _ (r : AutoRegistrar) (v : Inv r) (id : String) (m : SdkConfigModel)
    (absent : lookup id r.sdk_clients ≡ none) where
  start_client-Inv : Inv (start_client id m r)
  unfolding start_client new_client build_sdk_client
  start_client-Inv = add-IsConsistent v (new_client id (build_sdk_config r id m) m) absent refl

  client_of-start_client :
      (j : String)
      → client_of (start_client id m r) j
        ≡ (if id == j then some (new_client id (build_sdk_config r id m) m) else client_of r j)
  unfolding start_client build_sdk_client
  client_of-start_client j =
      let c = new_client id (build_sdk_config r id m) m in
      elim (Option-cases (lookup j r.sdk_clients)) [
        | inl gone ↦
            ground
              (arith, lookup-insert id j r.next r.sdk_clients, lookup-insert r.next r.next c r.heap)
        | inr (h, at) ↦ ground (
          arith,
          lookup-insert id j r.next r.sdk_clients,
          lookup-insert r.next h c r.heap,
          lookup-insert r.next r.next c r.heap,
          registered-lt v j h at,
        )
      ]

-- What the loop at the start gives to an id: the client of the profile's entry, or the old one.
abbrev IsStarted : AutoRegistrar → AutoRegistrar → String → Option SdkConfigModel → Type 0
IsStarted r s j none = client_of s j ≡ client_of r j
IsStarted r s j (some m) = IsServed s j m

-- Starting a client leaves the later ids free.
start_client_other :
    (r : AutoRegistrar) (id : String) (m : SdkConfigModel) (j : String)
    (sdks : Dict String SdkConfigModel)
    → lookup id sdks ≡ none
    → is_some (lookup j sdks) ≡ true
    → (is_some (if id == j then some m else lookup j sdks) ≡ true → lookup j r.sdk_clients ≡ none)
    → lookup j (start_client id m r).sdk_clients ≡ none
unfolding start_client build_sdk_client
start_client_other r id m j sdks first found free =
    ground (arith, lookup-insert id j r.next r.sdk_clients, eq_iff id j, first, found, free)

-- The rest of the loop, on the state after a client was started.
start_later :
    (r : AutoRegistrar) (v : Inv r) (id : String) (m : SdkConfigModel)
    (absent : lookup id r.sdk_clients ≡ none) (s : AutoRegistrar) (j : String)
    (entry : Option SdkConfigModel)
    → (id ≡ j → entry ≡ none)
    → IsStarted (start_client id m r) s j entry
    → IsStarted r s j (if id == j then some m else entry)
start_later r v id m absent s j none unlisted e = elim (Bool-cases (id == j)) [
  | inl same ↦ rw same (
    new_client id (build_sdk_config r id m) m,
    e ∙ (client_of-start_client r v id m absent j ∙ rw same refl),
    new_client-Matches r id m,
  )
  | inr other ↦ rw other (e ∙ (client_of-start_client r v id m absent j ∙ rw other refl))
]
start_later r v id m absent s j (some n) unlisted e = elim (Bool-cases (id == j)) [
  | inl same ↦ absurd (ground (arith, unlisted ((eq_iff id j).0 same)))
  | inr other ↦ rw other e
]

start_clients-IsStarted :
    (sdks : Dict String SdkConfigModel) (r : AutoRegistrar)
    → IsMap sdks
    → Inv r
    → ((j : String) → is_some (lookup j sdks) ≡ true → lookup j r.sdk_clients ≡ none)
    → Inv (start_clients sdks r)
      × ((j : String) → IsStarted r (start_clients sdks r) j (lookup j sdks))
unfolding start_clients lookup
start_clients-IsStarted [] r once v free = (v, λ j. refl)
start_clients-IsStarted ((id, m) ∷ sdks) r (first, once) v free =
    let c = new_client id (build_sdk_config r id m) m in
    let absent : lookup id r.sdk_clients ≡ none = free id (ground (arith, eq_iff id id)) in
    let (w, at) =
      start_clients-IsStarted sdks (start_client id m r) once (start_client-Inv r v id m absent)
        (λ j found. start_client_other r id m j sdks first found (free j)) in
    (
      w,
      λ j.
          start_later r v id m absent (start_clients sdks (start_client id m r)) j (lookup j sdks)
            (λ same. ap (λ i. lookup i sdks) (sym same) ∙ first) (at j),
    )

IsStarted-IsSynced :
    (conf : RegistrarConf) (options : OptionsModel) (s : AutoRegistrar) (j : String)
    (entry : Option SdkConfigModel)
    → IsStarted (without_clients conf options) s j entry
    → IsSynced s j entry
unfolding lookup
IsStarted-IsSynced conf options s j none h = h
IsStarted-IsSynced conf options s j (some m) h = h

pub start_clients-IsMap :
    (sdks : Dict String SdkConfigModel) (r : AutoRegistrar)
    → IsMap r.sdk_clients
    → IsMap (start_clients sdks r).sdk_clients
unfolding start_clients start_client build_sdk_client
start_clients-IsMap [] r once = once
start_clients-IsMap ((id, m) ∷ sdks) r once =
    start_clients-IsMap sdks (start_client id m r) (insert-IsMap id r.next r.sdk_clients once)

-- The registrar is consistent and in line with the profile.
abbrev pub Follows : AutoRegistrar → ProxyConfigModel → Type 0
Follows r config = Inv r × ((j : String) → IsSynced r j (lookup j config.sdks))

-- What a registrar is that has started with a profile.
pub new_auto_registrar-started :
    (decode : Bytes → Result String ProxyConfigModel) (offline : Bool) (conf : RegistrarConf)
    (config : ProxyConfigModel) (cache : Option (Result String Bytes)) (answer : Response)
    (r : AutoRegistrar) (etag : Bytes)
    → (get_config decode offline initial_etag cache answer).profile ≡ ok (some config)
    → IsMap config.sdks
    → new_auto_registrar decode offline conf cache answer ≡ running r etag
    → Follows r config × IsMap r.sdk_clients
unfolding new_auto_registrar lookup
new_auto_registrar-started decode offline conf config cache answer r etag first once started =
    let r0 = without_clients conf config.options in
    let (v, at) =
      start_clients-IsStarted config.sdks r0 once (without_clients-Inv conf config.options)
        (λ j h. refl) in
    let same : start_clients config.sdks r0 ≡ r = ground (arith, first, started) in
    (
      (
        rw (← same) v,
        λ j. rw (← same) (
            IsStarted-IsSynced conf config.options (start_clients config.sdks r0) j
              (lookup j config.sdks) (at j)),
      ),
      rw (← same) (start_clients-IsMap config.sdks r0 tt),
    )

-- The profile that is in use after some rounds: that of the last round that had one.
unfoldable pub last_profile :
    (Bytes → Result String ProxyConfigModel)
    → Bool
    → ProxyConfigModel
    → Bytes
    → List (Option (Result String Bytes) × Response)
    → ProxyConfigModel
last_profile decode offline before etag [] = before
last_profile decode offline before etag ((cache, answer) ∷ rounds) =
    let outcome = get_config decode offline etag cache answer in
    last_profile decode offline
      (elim outcome.profile [ err e ↦ before | ok none ↦ before | ok (some config) ↦ config ])
      outcome.etag rounds

module _ (decode : Bytes → Result String ProxyConfigModel) (offline : Bool) where
  pub follow :
      (profile : Result ProfileError (Option ProxyConfigModel)) (r : AutoRegistrar)
      (before : ProxyConfigModel)
      → Follows r before
      → Follows
          (elim profile [ err e ↦ r | ok none ↦ r | ok (some config) ↦ refresh_config config r ])
          (elim profile [ err e ↦ before | ok none ↦ before | ok (some config) ↦ config ])
  follow (err e) r before h = h
  follow (ok none) r before h = h
  follow (ok (some config)) r before (v, synced) =
      (refresh_config-Inv config r v, refresh_config-IsSynced config r v)

  poll_rounds-Follows :
      (rounds : List (Option (Result String Bytes) × Response)) (r : AutoRegistrar)
      (before : ProxyConfigModel) (etag : Bytes)
      → Follows r before
      → Follows
          (poll_rounds decode offline rounds (r, etag)).0
          (last_profile decode offline before etag rounds)
  unfolding poll_rounds poll_round last_profile
  poll_rounds-Follows [] r before etag h = h
  poll_rounds-Follows ((cache, answer) ∷ rounds) r before etag h =
      let outcome = get_config decode offline etag cache answer in
      poll_rounds-Follows rounds _ _ outcome.etag (follow outcome.profile r before h)

  -- A registrar that started with a profile, whose SDK ids are distinct, is consistent and in line
  -- with the profile in use after any number of rounds, whatever the cache and the server answer in
  -- them: a round without a new profile keeps the one in use, and each id of the profile in use has
  -- an open client with the profile's keys while no other id has a client.
  pub poll_rounds-new_auto_registrar :
      (conf : RegistrarConf) (config : ProxyConfigModel) (cache : Option (Result String Bytes))
      (answer : Response) (rounds : List (Option (Result String Bytes) × Response))
      (r : AutoRegistrar) (etag : Bytes)
      → (get_config decode offline initial_etag cache answer).profile ≡ ok (some config)
      → IsMap config.sdks
      → new_auto_registrar decode offline conf cache answer ≡ running r etag
      → Follows
          (poll_rounds decode offline rounds (r, etag)).0
          (last_profile decode offline config etag rounds)
  poll_rounds-new_auto_registrar conf config cache answer rounds r etag first once started =
      poll_rounds-Follows rounds r config etag
        (new_auto_registrar-started decode offline conf config cache answer r etag first once
          started).0
