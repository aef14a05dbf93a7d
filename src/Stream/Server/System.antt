-- ===== src/Stream/Server/System.antt =====
-- The registrar and the stream server together: sdk/sdk_auto_registrar.go publishes ids, and the
-- loop of stream/server.go, subscribed to them by `NewServer`, handles them. A round is one round
-- of the registrar's polling, after which the server takes the ids in the order of their
-- publication.
pub mod Laws
mod Tests
use configcat_proxy.Base.{Result, String, Bool, Option, List, [], ◌∷◌, ◌++◌, string_eq, nat_eq}
use configcat_proxy.Model.{ProxyConfigModel}
use configcat_proxy.Registrar.{AutoRegistrar}
use configcat_proxy.Registrar.Profile.{Bytes, Response}
use configcat_proxy.Registrar.Start.{poll_round}
use configcat_proxy.Stream.Server.{Server, new_server, handle_sdk_ids}

pub record System : Type 0 where
  pub registrar : AutoRegistrar
  pub etag : Bytes
  pub server : Server

-- The published ids, the oldest first.
pub oldest_first : List String → List String
oldest_first [] = []
oldest_first (id ∷ ids) = oldest_first ids ++ id ∷ []

-- `NewServer` on a registrar that has started.
pub new_system : AutoRegistrar → Bytes → System
new_system r etag = record { registrar = r; etag = etag; server = new_server r }

module _ (decode : Bytes → Result String ProxyConfigModel) (offline : Bool) where
  pub system_round : Option (Result String Bytes) × Response → System → System
  unfolding oldest_first
  system_round round y =
      let (r, etag) = poll_round decode offline round (y.registrar, y.etag) in
      record {
        registrar = record r { published = [] };
        etag = etag;
        server = handle_sdk_ids r (oldest_first r.published) y.server;
      }

  pub system_rounds : List (Option (Result String Bytes) × Response) → System → System
  unfolding system_round
  system_rounds [] y = y
  system_rounds (round ∷ rounds) y = system_rounds rounds (system_round round y)
