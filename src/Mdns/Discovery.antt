-- ===== src/Mdns/Discovery.antt =====
-- mdns/discovery.py: the listener that zeroconf calls, and the sweep over the network.
pub mod Replay
pub mod Found
use adb_shell.Common.{ℕ, List, [], ◌∷◌, ◌||◌, Bool, false, Option, none, some, if◌then◌else◌}
use adb_shell.Exec.{Exec, pure, gets, modify, zoom, finally, ◌>>=◌, ◌>>◌}
use adb_shell.Mdns.Names.{Name, Named, name_eq, put, remove, values, short_name}

-- "_adb._tcp.local.", "_adb-tls-pairing._tcp.local." and "_adb-tls-connect._tcp.local."
abbrev pub tcp_local : Name
tcp_local = b'.' ∷ b'_' ∷ b't' ∷ b'c' ∷ b'p' ∷ b'.' ∷ b'l' ∷ b'o' ∷ b'c' ∷ b'a' ∷ b'l' ∷ b'.' ∷ []

abbrev pub service_type_pairing : Name
service_type_pairing =
    b'_' ∷ b'a' ∷ b'd' ∷ b'b' ∷ b'-' ∷ b't' ∷ b'l' ∷ b's' ∷ b'-' ∷ b'p' ∷ b'a' ∷ b'i' ∷ b'r' ∷ b'i'
    ∷ b'n' ∷ b'g' ∷ tcp_local

abbrev pub service_type_tls_connect : Name
service_type_tls_connect =
    b'_' ∷ b'a' ∷ b'd' ∷ b'b' ∷ b'-' ∷ b't' ∷ b'l' ∷ b's' ∷ b'-' ∷ b'c' ∷ b'o' ∷ b'n' ∷ b'n' ∷ b'e'
    ∷ b'c' ∷ b't' ∷ tcp_local

pub record AdbService : Type 0 where
  pub name : Name
  pub type : Name
  pub host : Name
  pub port : ℕ

-- What zeroconf resolves a service to: `parsed_addresses()` and `port`.
pub record ServiceInfo : Type 0 where
  pub addresses : List Name
  pub port : ℕ

-- `zc.get_service_info`, as it answers at one moment.
abbrev pub Resolver : Type 0
Resolver = Name → Name → Option ServiceInfo

-- type_ in self._service_types
unfoldable pub is_wanted : List Name → Name → Bool
unfolding name_eq
is_wanted [] type = false
is_wanted (t ∷ ts) type = name_eq t type || is_wanted ts type

pub record Listener : Type 0 where
  pub service_types : List Name
  pub results : Named AdbService

abbrev pub new_listener : List Name → Listener
new_listener service_types = record { service_types = service_types; results = [] }

-- The service that is stored, if it was resolved to an address.
abbrev pub service_at : Name → Name → ℕ → List Name → Option AdbService
service_at type name port [] = none
service_at type name port (ip ∷ ips) =
    some (record { name = short_name type name; type = type; host = ip; port = port })

abbrev pub service_of : Name → Name → Option ServiceInfo → Option AdbService
service_of type name none = none
service_of type name (some info) = service_at type name info.port info.addresses

abbrev pub stored : Name → Option AdbService → Named AdbService → Named AdbService
stored name none results = results
stored name (some service) results = put name service results

unfoldable pub add_service : Resolver → Name → Name → Listener → Listener
add_service zc type name l =
    if is_wanted l.service_types type
    then record l { results = stored name (service_of type name (zc type name)) l.results }
    else l

unfoldable pub remove_service : Name → Name → Listener → Listener
remove_service type name l = record l { results = remove name l.results }

unfoldable pub update_service : Resolver → Name → Name → Listener → Listener
unfolding add_service
update_service zc type name = add_service zc type name

-- A call of the listener by zeroconf, with the answers that `get_service_info` gives at that moment.
pub data Event : Type 0 where
  added : Resolver → Name → Name → Event
  removed : Name → Name → Event
  updated : Resolver → Name → Name → Event

unfoldable pub handle : Event → Listener → Listener
unfolding add_service remove_service update_service
handle (added zc type name) = add_service zc type name
handle (removed type name) = remove_service type name
handle (updated zc type name) = update_service zc type name

unfoldable pub observe : List Event → Listener → Listener
observe [] l = l
observe (e ∷ es) l = observe es (handle e l)

-- What is called of the packages zeroconf and time, with the calls of the listener that are made
-- meanwhile. `Z` is the network and all that the packages keep.
pub record Zeroconf (Z : Type 0) : Type 0 where
  -- Zeroconf()
  pub new : Exec Z (Unit {0})
  -- ServiceBrowser(zc, svc_type, listener)
  pub browse : Name → Exec Z (List Event)
  -- time.sleep(timeout_s)
  pub sleep : ℕ → Exec Z (List Event)
  -- zc.close()
  pub close : Exec Z (List Event)

pub record Sweep (Z : Type 0) : Type 0 where
  pub net : Z
  pub listener : Listener

module _ {Z : Type 0} (z : Zeroconf Z) where
  abbrev pub on_net : {A : Type 0} → Exec Z A → Exec (Sweep Z) A
  on_net m = zoom (λ s. s.net) (λ net s. record s { net = net }) m

  -- The listener is called while something else runs.
  unfoldable pub meanwhile : Exec Z (List Event) → Exec (Sweep Z) (Unit {0})
  meanwhile m = do
    events ← on_net m
    modify (λ s. record s { listener = observe events s.listener })

  unfoldable pub browse_all : List Name → Exec (Sweep Z) (Unit {0})
  browse_all [] = pure tt
  browse_all (svc_type ∷ service_types) = do meanwhile (z.browse svc_type); browse_all service_types

  unfoldable pub discover_services : List Name → ℕ → Exec (Sweep Z) (List AdbService)
  discover_services service_types timeout = do
    modify (λ s. record s { listener = new_listener service_types })
    on_net z.new
    finally (do browse_all service_types; meanwhile (z.sleep timeout)) (meanwhile z.close)
    gets (λ s. values s.listener.results)

  unfoldable pub discover_pairing_services : ℕ → Exec (Sweep Z) (List AdbService)
  discover_pairing_services timeout = discover_services (service_type_pairing ∷ []) timeout

  unfoldable pub discover_connect_services : ℕ → Exec (Sweep Z) (List AdbService)
  discover_connect_services timeout = discover_services (service_type_tls_connect ∷ []) timeout
