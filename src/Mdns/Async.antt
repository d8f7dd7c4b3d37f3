-- ===== src/Mdns/Async.antt =====
-- mdns/discovery_async.py: the collector, which only notes what was seen, and the sweep, which resolves it
-- afterwards.
pub mod Watched
pub mod Resolving
use adb_shell.Common.{
  ℕ, zero, suc, List, [], ◌∷◌, ◌++◌, Bool, true, false, ◌&&◌, ◌||◌, Option, none, some, length,
  ◌==◌, if◌then◌else◌,
}
use adb_shell.Errors.{runtime_error, out_of_fuel}
use adb_shell.Exec.{Exec, pure, raise, gets, modify, zoom, finally, ◌>>=◌, ◌>>◌}
use adb_shell.Mdns.Names.{Name, Named, name_eq, values}
use adb_shell.Mdns.Discovery.{
  AdbService, ServiceInfo, Event, added, removed, updated, is_wanted, service_of, stored,
  service_type_pairing, service_type_tls_connect,
}

-- (type_, name)
abbrev pub Seen : Type 0
Seen = Name × Name

unfoldable pub is_seen : Seen → List Seen → Bool
unfolding name_eq
is_seen p [] = false
is_seen p (q ∷ qs) = name_eq q.0 p.0 && name_eq q.1 p.1 || is_seen p qs

-- A set, as a list with no element twice; nothing depends on its order.
pub record Collector : Type 0 where
  pub service_types : List Name
  pub observed : List Seen

abbrev pub new_collector : List Name → Collector
new_collector service_types = record { service_types = service_types; observed = [] }

-- `observed.add(p)` and `observed.discard(p)`
unfoldable pub set_add : Seen → List Seen → List Seen
unfolding is_seen
set_add p ps = if is_seen p ps then ps else p ∷ ps

unfoldable pub set_discard : Seen → List Seen → List Seen
unfolding name_eq
set_discard p [] = []
set_discard p (q ∷ qs) =
    if name_eq q.0 p.0 && name_eq q.1 p.1 then set_discard p qs else q ∷ set_discard p qs

unfoldable pub add_service : Name → Name → Collector → Collector
add_service type name c =
    if is_wanted c.service_types type
    then record c { observed = set_add (type, name) c.observed }
    else c

unfoldable pub remove_service : Name → Name → Collector → Collector
remove_service type name c = record c { observed = set_discard (type, name) c.observed }

unfoldable pub update_service : Name → Name → Collector → Collector
update_service type name c =
    if is_wanted c.service_types type
    then record c { observed = set_add (type, name) c.observed }
    else c

-- The calls of the listener; this one asks for no answers.
unfoldable pub handle : Event → Collector → Collector
unfolding add_service remove_service update_service
handle (added zc type name) = add_service type name
handle (removed type name) = remove_service type name
handle (updated zc type name) = update_service type name

unfoldable pub observe : List Event → Collector → Collector
observe [] c = c
observe (e ∷ es) c = observe es (handle e c)

-- What is called of zeroconf and asyncio, with the calls of the listener that the event loop makes while
-- one of them is awaited. `B` is a browser.
pub record AsyncZeroconf (Z B : Type 0) : Type 0 where
  -- AsyncZeroconf()
  pub new : Exec Z (Unit {0})
  -- AsyncServiceBrowser(azc.zeroconf, svc_type, listener=collector)
  pub browse : Name → Exec Z (B × List Event)
  -- asyncio.sleep(timeout_s)
  pub sleep : ℕ → Exec Z (List Event)
  -- info.async_request(azc.zeroconf, timeout=2000), and the port and the IPv4 addresses of the info
  -- if that was true
  pub request : Name → Name → Exec Z (Option ServiceInfo × List Event)
  -- browser.async_cancel() and azc.async_close()
  pub cancel : B → Exec Z (List Event)
  pub close : Exec Z (List Event)
  -- What the iterator of a set comes to at its k-th step, in the set as it is then.
  pub item : ℕ → List Seen → Option Seen

pub record Sweep (Z B : Type 0) : Type 0 where
  pub net : Z
  pub collector : Collector
  pub browsers : List B

module _ {Z B : Type 0} (z : AsyncZeroconf Z B) where
  abbrev pub on_net : {A : Type 0} → Exec Z A → Exec (Sweep Z B) A
  on_net m = zoom (λ s. s.net) (λ net s. record s { net = net }) m

  abbrev pub notice : List Event → Exec (Sweep Z B) (Unit {0})
  notice events = modify (λ s. record s { collector = observe events s.collector })

  unfoldable pub browse_all : List Name → Exec (Sweep Z B) (Unit {0})
  browse_all [] = pure tt
  browse_all (svc_type ∷ service_types) = do
    (browser, events) ← on_net (z.browse svc_type)
    notice events
    modify (λ s. record s { browsers = s.browsers ++ browser ∷ [] })
    browse_all service_types

  -- One service: none, at the end of the set.
  abbrev pub visit :
      Option Seen
      → Named AdbService
      → (Named AdbService → Exec (Sweep Z B) (Named AdbService))
      → Exec (Sweep Z B) (Named AdbService)
  visit none results rest = pure results
  visit (some (type, name)) results rest = do
    (info, events) ← on_net (z.request type name)
    notice events
    rest (stored name (service_of type name info) results)

  -- `for type_, name in collector.observed:`, at its k-th step and with `results` so far. A set that has
  -- another size than at the start is a RuntimeError at the next step.
  unfoldable pub resolve : ℕ → ℕ → ℕ → Named AdbService → Exec (Sweep Z B) (Named AdbService)
  resolve zero size k results = raise out_of_fuel
  resolve (suc fuel) size k results = do
    observed ← gets (λ s. s.collector.observed)
    let rest = λ (found : Named AdbService). resolve fuel size (suc k) found
    if length observed == size then visit (z.item k observed) results rest else raise runtime_error

  unfoldable pub cancel_all : List B → Exec (Sweep Z B) (Unit {0})
  cancel_all [] = pure tt
  cancel_all (browser ∷ browsers) = do
    events ← on_net (z.cancel browser)
    notice events
    cancel_all browsers

  unfoldable pub discover_services_async : ℕ → List Name → ℕ → Exec (Sweep Z B) (List AdbService)
  discover_services_async fuel service_types timeout = do
    modify (λ s. record s { collector = new_collector service_types; browsers = [] })
    on_net z.new
    results ←
        finally
          (do
            browse_all service_types
            events ← on_net (z.sleep timeout)
            notice events
            size ← gets (λ s. length s.collector.observed)
            resolve fuel size 0 [])
          (do
            browsers ← gets (λ s. s.browsers)
            cancel_all browsers
            events ← on_net z.close
            notice events)
    pure (values results)

  unfoldable pub discover_pairing_services_async : ℕ → ℕ → Exec (Sweep Z B) (List AdbService)
  discover_pairing_services_async fuel timeout =
      discover_services_async fuel (service_type_pairing ∷ []) timeout

  unfoldable pub discover_connect_services_async : ℕ → ℕ → Exec (Sweep Z B) (List AdbService)
  discover_connect_services_async fuel timeout =
      discover_services_async fuel (service_type_tls_connect ∷ []) timeout
