-- ===== src/Stream/Server/System/Laws.antt =====
-- The streams of a running system are on the clients of the profile in use.
use configcat_proxy.Base.{
  Result, ok, err, contains, String, ◌≡◌, Bool, true, Option, none, some, List, [], ◌∷◌, arith,
  string_eq, nat_eq,
}
use configcat_proxy.Model.{ProxyConfigModel}
use configcat_proxy.Utils.Laws.{contains-append}
use configcat_proxy.Registrar.{RegistrarConf, AutoRegistrar}
use configcat_proxy.Registrar.Profile.{Bytes, ProfileError, Response, get_config}
use configcat_proxy.Registrar.Steps.{Inv}
use configcat_proxy.Registrar.Refresh.{refresh_config}
use configcat_proxy.Registrar.Start.Laws.{Follows, new_auto_registrar-started, last_profile, follow}
use configcat_proxy.Stream.Server.{Server, handle_sdk_id, handle_sdk_ids}
use configcat_proxy.Stream.Server.Laws.{IsServing, handle_sdk_id-IsServing}
use configcat_proxy.Stream.Server.Sync.{
  IsInSync, stream_client-handle_sdk_ids, handle_sdk_ids-refresh_config, new_server-IsInSync,
}
use configcat_proxy.Stream.Server.System.{
  System, oldest_first, new_system, system_round, system_rounds,
}
use configcat_proxy.Base.Dict.{IsMap}
use configcat_proxy.Registrar.Start.{initial_etag, running, new_auto_registrar, poll_round}

contains-oldest_first :
    (ids : List String) (j : String) → contains ids j ≡ true → contains (oldest_first ids) j ≡ true
unfolding oldest_first contains
contains-oldest_first [] j h = h
contains-oldest_first (id ∷ ids) j h =
    ground (arith, contains-append (oldest_first ids) (id ∷ []) j, contains-oldest_first ids j, h)

-- The registrar follows a profile, and the server the registrar.
abbrev pub IsFollowing : System → ProxyConfigModel → Type 0
IsFollowing y config =
    Follows y.registrar config × IsServing y.server × IsInSync y.server y.registrar

handle_all-IsServing :
    (r : AutoRegistrar) (ids : List String) (s : Server)
    → IsServing s
    → IsServing (handle_sdk_ids r ids s)
unfolding handle_sdk_ids
handle_all-IsServing r [] s v = v
handle_all-IsServing r (id ∷ ids) s v =
    handle_all-IsServing r ids (handle_sdk_id r id s) (handle_sdk_id-IsServing r s v id)

module _ (decode : Bytes → Result String ProxyConfigModel) (offline : Bool) where
  -- The server after a round, by what the registrar got in it.
  served :
      (profile : Result ProfileError (Option ProxyConfigModel)) (r : AutoRegistrar) (s : Server)
      → Inv r
      → IsServing s
      → IsInSync s r
      → let r' : AutoRegistrar = elim profile [
        | err e ↦ r
        | ok none ↦ r
        | ok (some config) ↦ refresh_config config r
      ] in
        IsInSync (handle_sdk_ids r' (oldest_first r'.published) s) r'
  served (err e) r s v w synced =
      λ j. ground (arith, stream_client-handle_sdk_ids r (oldest_first r.published) s w j, synced j)
  served (ok none) r s v w synced =
      λ j. ground (arith, stream_client-handle_sdk_ids r (oldest_first r.published) s w j, synced j)
  served (ok (some config)) r s v w synced =
      handle_sdk_ids-refresh_config config r s (oldest_first (refresh_config config r).published) v
        w synced (contains-oldest_first (refresh_config config r).published)

  system_rounds-IsFollowing :
      (rounds : List (Option (Result String Bytes) × Response)) (y : System)
      (before : ProxyConfigModel)
      → IsFollowing y before
      → IsFollowing
          (system_rounds decode offline rounds y)
          (last_profile decode offline before y.etag rounds)
  unfolding system_rounds system_round poll_round last_profile
  system_rounds-IsFollowing [] y before h = h
  system_rounds-IsFollowing ((cache, answer) ∷ rounds) y before (followed, w, synced) =
      let outcome = get_config decode offline y.etag cache answer in
      let (r, etag) = poll_round decode offline (cache, answer) (y.registrar, y.etag) in
      system_rounds-IsFollowing rounds (system_round decode offline (cache, answer) y) _ (
        follow decode offline outcome.profile y.registrar before followed,
        handle_all-IsServing r (oldest_first r.published) y.server w,
        served outcome.profile y.registrar y.server followed.0 w synced,
      )

  -- A registrar that started with a profile, whose SDK ids are distinct, and the stream server on
  -- it stay in line with the profile in use over any number of rounds, whatever the cache and the
  -- server of the profile answer: each SDK of the profile has an open client with its keys and one
  -- open stream, which is on this client and subscribed to it alone; no other id has a client or a
  -- stream.
  pub system_rounds-new_system :
      (conf : RegistrarConf) (config : ProxyConfigModel) (cache : Option (Result String Bytes))
      (answer : Response) (rounds : List (Option (Result String Bytes) × Response))
      (r : AutoRegistrar) (etag : Bytes)
      → (get_config decode offline initial_etag cache answer).profile ≡ ok (some config)
      → IsMap config.sdks
      → new_auto_registrar decode offline conf cache answer ≡ running r etag
      → IsFollowing
          (system_rounds decode offline rounds (new_system r etag))
          (last_profile decode offline config etag rounds)
  unfolding new_system
  system_rounds-new_system conf config cache answer rounds r etag first once started =
      let (followed, distinct) =
        new_auto_registrar-started decode offline conf config cache answer r etag first once
          started in
      let (serving, synced) = new_server-IsInSync r distinct in
      system_rounds-IsFollowing rounds (new_system r etag) config (followed, serving, synced)
