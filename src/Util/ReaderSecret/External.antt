-- ===== src/Util/ReaderSecret/External.antt =====
-- GetExternalAddressOfAPIServer of pkg/util/cluster_secret.go.
use cluster_registry_control.Common.{String, ◌==◌, Option, none, some, List, [], ◌∷◌, if◌then◌else◌}

-- One entry of the answer about the versions: a range of clients, and the address for it.
pub record ServerAddress : Type 0 where
  pub client_cidr : String
  pub server_address : String

-- The text of the network of all addresses.
abbrev pub all_clients : String
all_clients = "0.0.0.0/0"

unfoldable pub find_external : List ServerAddress → Option String
find_external [] = none
find_external (a ∷ as') =
    if a.client_cidr == all_clients then some a.server_address else find_external as'

-- `none` is an error: no client, no answer, or no entry for all clients.
unfoldable pub get_external_address_of_api_server : Option (List ServerAddress) → Option String
unfolding find_external
get_external_address_of_api_server none = none
get_external_address_of_api_server (some as') = find_external as'
