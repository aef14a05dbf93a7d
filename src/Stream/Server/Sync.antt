-- ===== src/Stream/Server/Sync.antt =====
-- The server after a refresh of the registrar: it follows the ids that the refresh published.
use configcat_proxy.Base.{
  if◌then◌else◌, is_some, contains, ℕ, String, ◌≡◌, refl, true, none, List, [], ◌∷◌, arith, eq_iff,
  string_eq, nat_eq,
}
use configcat_proxy.Base.Dict.{Dict, lookup, lookup-insert, IsMap}
use configcat_proxy.Model.{ProxyConfigModel}
use configcat_proxy.Registrar.{ClientObject, AutoRegistrar}
use configcat_proxy.Registrar.Steps.{Inv}
use configcat_proxy.Registrar.Refresh.{refresh_config}
use configcat_proxy.Registrar.Refresh.Published.{refresh_config-IsAnnounced}
use configcat_proxy.Stream.Server.{
  Server, open_stream, open_streams, no_streams, new_server, handle_sdk_id, handle_sdk_ids,
}
use configcat_proxy.Stream.Server.Laws.{
  IsServing, stream_client, open_stream-IsServing, stream_client-open, handle_sdk_id-IsServing,
  stream_client-handle_sdk_id,
}

-- Each SDK has a stream exactly if the registrar has a client for it, and it is on that client.
abbrev pub IsInSync : Server → AutoRegistrar → Type 0
IsInSync s r = (j : String) → stream_client s j ≡ lookup j r.sdk_clients

pub stream_client-handle_sdk_ids :
    (r : AutoRegistrar) (ids : List String) (s : Server)
    → IsServing s
    → (j : String)
    → stream_client (handle_sdk_ids r ids s) j
      ≡ (if contains ids j then lookup j r.sdk_clients else stream_client s j)
unfolding handle_sdk_ids contains
stream_client-handle_sdk_ids r [] s v j = refl
stream_client-handle_sdk_ids r (id ∷ ids) s v j = ground (
  arith,
  stream_client-handle_sdk_ids r ids (handle_sdk_id r id s) (handle_sdk_id-IsServing r s v id) j,
  stream_client-handle_sdk_id r s v id j,
  eq_iff id j,
  eq_iff j id,
)

-- A server in line with a consistent registrar is in line with it again after a refresh of the
-- profile, once it has handled the published ids, in any order and together with any others.
pub handle_sdk_ids-refresh_config :
    (config : ProxyConfigModel) (r : AutoRegistrar) (s : Server) (ids : List String)
    → Inv r
    → IsServing s
    → IsInSync s r
    → ((j : String) → contains (refresh_config config r).published j ≡ true → contains ids j ≡ true)
    → IsInSync (handle_sdk_ids (refresh_config config r) ids s) (refresh_config config r)
handle_sdk_ids-refresh_config config r s ids v w synced handled = λ j. ground (
  arith,
  stream_client-handle_sdk_ids (refresh_config config r) ids s w j,
  refresh_config-IsAnnounced config r v j,
  synced j,
  handled j,
)

open_streams-IsInSync :
    (clients : Dict ℕ ClientObject) (all : Dict String ℕ) (s : Server)
    → IsMap all
    → IsServing s
    → ((j : String) → is_some (lookup j all) ≡ true → lookup j s.streams ≡ none)
    → IsServing (open_streams clients all s)
      × ((j : String)
          → stream_client (open_streams clients all s) j
            ≡ (if is_some (lookup j all) then lookup j all else stream_client s j))
unfolding open_streams open_stream lookup
open_streams-IsInSync clients [] s once v free = (v, λ j. refl)
open_streams-IsInSync clients ((id, h) ∷ all) s (first, once) v free =
    let absent : lookup id s.streams ≡ none = free id (ground (arith, eq_iff id id)) in
    let (w, at) =
      open_streams-IsInSync clients all (open_stream clients id h s) once
        (open_stream-IsServing clients s v id h absent)
        (λ j found. ground (arith, free j, lookup-insert id j s.next s.streams, eq_iff id j)) in
    (w, λ j. ground (arith, at j, stream_client-open clients s v id h j absent, first, eq_iff id j))

-- A new server has a stream for each client of the registrar, on it and subscribed to it, and no
-- other; the registrar's map must hold each id once.
pub new_server-IsInSync :
    (r : AutoRegistrar) → IsMap r.sdk_clients → IsServing (new_server r) × IsInSync (new_server r) r
unfolding new_server lookup
new_server-IsInSync r once =
    let (v, at) =
      open_streams-IsInSync r.heap r.sdk_clients no_streams once
        (record {
          registered = λ id k e. cc;
          open_ones = λ k o at live. cc at;
          free = λ k le. refl;
        })
        (λ j found. refl) in
    (v, λ j. ground (arith, at j))
