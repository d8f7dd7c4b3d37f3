-- ===== src/Tests/Discovery.antt =====
-- Discovery over a network with one device, which answers and is withdrawn.
use mathlib.Core.Path.{subst}
use mathlib.Core.List.{append_assoc, append-nil}
use adb_shell.Common.{
  ◌++◌, length, length-append, All, if◌then◌else◌, sym, ap, ◌∙◌, ℕ, ◌≡◌, refl, List, [], ◌∷◌, Bool,
  true, false, Option, none, some, zero, suc, arith,
}
use adb_shell.Errors.{ok}
use adb_shell.Exec.{◌>>=◌, finally, zoom}
use adb_shell.Mdns.Names
use adb_shell.Mdns.Names.{Name, Named, name_eq, get, put, values, short_name, ends_with}
use adb_shell.Mdns.Discovery.{
  AdbService, Resolver, new_listener, Event, added, removed, is_wanted, Zeroconf, Sweep, observe,
  handle, add_service, remove_service, meanwhile, browse_all, discover_services,
}
use adb_shell.Mdns.Discovery.Replay.{last_word, get-observe}
use adb_shell.Mdns.Discovery.Found.{
  IsFound, Closes, discover_services_lem, discover_services_closes,
}
use adb_shell.Mdns.Async
use adb_shell.Mdns.Async.{Seen, Collector, new_collector, AsyncZeroconf, is_seen, resolve}
use adb_shell.Mdns.Async.Watched.{last_seen, is_seen-observe}
use adb_shell.Mdns.Async.Resolving.{GoesThrough, IsIterator, IsResolved, IsListed, resolve_lem}

-- A type `t`, and the name `d.t`.
abbrev type : Name
type = b't' ∷ []

abbrev device : Name
device = b'd' ∷ b'.' ∷ b't' ∷ []

abbrev found : AdbService
found = record { name = b'd' ∷ []; type = type; host = b'1' ∷ []; port = 5555 }

abbrev answers : Resolver
answers t n = some (record { addresses = (b'1' ∷ []) ∷ []; port = 5555 })

abbrev calls : List Event
calls = added answers type device ∷ removed type (b'x' ∷ []) ∷ []

get-observe_example : get device (observe calls (new_listener (type ∷ []))).results ≡ some found
unfolding get is_wanted name_eq short_name last_word
get-observe_example = get-observe calls (new_listener (type ∷ [])) device

-- Whether a Zeroconf object is open.
abbrev network : Zeroconf Bool
network = record {
  new = λ w. (ok tt, true);
  browse = λ t w. (ok calls, w);
  sleep = λ n w. (ok [], w);
  close = λ w. (ok [], false);
}

abbrev sweep : Sweep Bool
sweep = record { net = false; listener = new_listener [] }

runs : (discover_services network (type ∷ []) 4 sweep).0 ≡ ok (found ∷ [])
unfolding discover_services ◌>>=◌ finally zoom meanwhile browse_all observe handle add_service
    remove_service is_wanted name_eq put Names.remove short_name
runs = refl

discover_services_lem_example :
    (d : Named AdbService) × (◌≡◌ {A = List AdbService} (found ∷ []) (values d))
    × IsFound (type ∷ []) d
discover_services_lem_example = discover_services_lem (type ∷ []) network 4 sweep (found ∷ []) runs

network-Closes : Closes network (λ w. w)
network-Closes = record { new_lem = λ w w' e h. absurd (ground arith); close_lem = λ w. refl }

discover_services_closes_example : (discover_services network (type ∷ []) 4 sweep).1.net ≡ false
discover_services_closes_example =
    discover_services_closes network (λ w. w) network-Closes (type ∷ []) 4 sweep refl

is_seen-observe_example :
    is_seen (type, device) (Async.observe calls (new_collector (type ∷ []))).observed ≡ true
unfolding is_seen is_wanted name_eq last_seen
is_seen-observe_example = is_seen-observe calls (new_collector (type ∷ [])) (type, device)

-- One device has an address, and the others have none.
abbrev some_answers : Resolver
some_answers t n =
    some (record { addresses = (if name_eq n device then (b'1' ∷ []) ∷ [] else []); port = 5555 })

-- A set is gone through in the order of its list, and nothing is called while a request is awaited.
abbrev nth : ℕ → List Seen → Option Seen
nth k [] = none
nth zero (p ∷ ps) = some p
nth (suc k) (p ∷ ps) = nth k ps

abbrev calm : AsyncZeroconf (Unit {0}) (Unit {0})
calm = record {
  new = λ w. (ok tt, w);
  browse = λ t w. (ok (tt, []), w);
  sleep = λ n w. (ok [], w);
  request = λ t n w. (ok (some_answers t n, []), w);
  cancel = λ b w. (ok [], w);
  close = λ w. (ok [], w);
  item = nth;
}

nth-end : (before : List Seen) → nth (length before) before ≡ none
nth-end [] = refl
nth-end (p ∷ before) = nth-end before

nth-append :
    (before : List Seen) (p : Seen) (ps : List Seen)
    → nth (length before) (before ++ p ∷ ps) ≡ some p
nth-append [] p ps = refl
nth-append (q ∷ before) p ps = nth-append before p ps

goes_on : (set before ps : List Seen) → before ++ ps ≡ set → GoesThrough calm set (length before) ps
goes_on set before [] e = ap (nth (length before)) (sym e ∙ append-nil before) ∙ nth-end before
goes_on set before (p ∷ ps) e = (
  ap (nth (length before)) (sym e) ∙ nth-append before p ps,
  subst (λ k. GoesThrough calm set k ps) (length-append before (p ∷ []) ∙ omega arith)
      (goes_on set (before ++ p ∷ []) ps (append_assoc before (p ∷ []) ps ∙ e)),
)

in_order : IsIterator calm
in_order = record {
  order = λ set. set;
  visits = λ set. goes_on set [] set refl;
  same = λ set p. refl;
  count = λ set. refl;
}

abbrev other : Name
other = b'e' ∷ []

abbrev seen_two : Async.Sweep (Unit {0}) (Unit {0})
seen_two = record {
  net = tt;
  collector = record { service_types = type ∷ []; observed = (type, other) ∷ (type, device) ∷ [] };
  browsers = tt ∷ [];
}

resolve_lem_example :
    (results : Named AdbService) × (s : Async.Sweep (Unit {0}) (Unit {0})) × (resolve calm 5 2 0 []
        seen_two
      ≡ (ok results, s))
    × (s.collector.observed ≡ (type, other) ∷ (type, device) ∷ [])
    × All (IsResolved some_answers ((type, other) ∷ (type, device) ∷ [])) results
    × All (IsListed some_answers results) ((type, other) ∷ (type, device) ∷ [])
resolve_lem_example =
    resolve_lem calm in_order some_answers (λ t n w. (w, refl)) 5 seen_two (omega arith)

one_found : (resolve calm 5 2 0 [] seen_two).0 ≡ ok ((device, found) ∷ [])
unfolding resolve put name_eq short_name ◌>>=◌ zoom Async.observe ends_with
one_found = refl
