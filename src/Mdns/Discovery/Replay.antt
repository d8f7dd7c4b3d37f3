-- ===== src/Mdns/Discovery/Replay.antt =====
-- What _Listener of mdns/discovery.py holds under a name after any calls.
use adb_shell.Common.{
  ◌≡◌, refl, sym, ◌∙◌, ap, inl, inr, Option-cases, List, [], ◌∷◌, Bool, ◌&&◌, Option, none, some,
  if◌then◌else◌, arith,
}
use adb_shell.Mdns.Names.{Name, name_eq, get, get-put, get-remove}
use adb_shell.Mdns.Discovery.{
  AdbService, Resolver, Listener, Event, added, removed, updated, is_wanted, service_of,
  add_service, remove_service, update_service, handle, observe,
}

-- The last word on one name: a service that was resolved counts if its type is looked for, one that
-- could not be resolved changes nothing, and a withdrawal counts whatever its type.
abbrev pub known : Bool → Option AdbService → Option AdbService → Option AdbService
known counts none before = before
known counts (some service) before = if counts then some service else before

unfoldable pub last_word : List Name → Name → List Event → Option AdbService → Option AdbService
last_word types n [] before = before
last_word types n (added zc type name ∷ es) before =
    last_word types n es
      (known (name_eq name n && is_wanted types type) (service_of type name (zc type name)) before)
last_word types n (removed type name ∷ es) before =
    last_word types n es (if name_eq name n then none else before)
last_word types n (updated zc type name ∷ es) before =
    last_word types n es
      (known (name_eq name n && is_wanted types type) (service_of type name (zc type name)) before)

-- One call of `add_service`, on every branch.
get-add :
    (n type name : Name) (zc : Resolver) (l : Listener)
    → let l' = add_service zc type name l in
      (get n l'.results
        ≡ known
            (name_eq name n && is_wanted l.service_types type)
            (service_of type name (zc type name))
            (get n l.results))
      × (l'.service_types ≡ l.service_types)
unfolding add_service
get-add n type name zc l = elim (Option-cases (service_of type name (zc type name))) [
  | inl e ↦ rw e (ground arith, ground arith)
  | inr (service, e) ↦ rw e (ground (arith, get-put name n service l.results), ground arith)
]

-- The listener's types stay as they are.
types_lem : (e : Event) (l : Listener) → (handle e l).service_types ≡ l.service_types
unfolding handle remove_service update_service last_word
types_lem (added zc type name) l = (get-add type type name zc l).1
types_lem (removed type name) l = refl
types_lem (updated zc type name) l = (get-add type type name zc l).1

one_call :
    (n : Name) (e : Event) (l : Listener)
    → get n (handle e l).results ≡ last_word l.service_types n (e ∷ []) (get n l.results)
unfolding handle remove_service update_service last_word
one_call n (added zc type name) l = (get-add n type name zc l).0
one_call n (removed type name) l = get-remove name n l.results
one_call n (updated zc type name) l = (get-add n type name zc l).0

last_word-cons :
    (types : List Name) (n : Name) (e : Event) (es : List Event) (o : Option AdbService)
    → last_word types n (e ∷ es) o ≡ last_word types n es (last_word types n (e ∷ []) o)
unfolding last_word
last_word-cons types n (added zc type name) es o = refl
last_word-cons types n (removed type name) es o = refl
last_word-cons types n (updated zc type name) es o = refl

-- After any calls by zeroconf, in any order, what the listener holds under a name is the last word on it:
-- the service of the last call for the name that resolved to an address and had a type that is looked
-- for, unless the name was withdrawn after it. Where no call counted, it is what was held before.
pub get-observe :
    (es : List Event) (l : Listener) (n : Name)
    → get n (observe es l).results ≡ last_word l.service_types n es (get n l.results)
unfolding observe
get-observe [] l n = unfold last_word in refl
get-observe (e ∷ es) l n =
    get-observe es (handle e l) n
    ∙ ap (λ ts. last_word ts n es (get n (handle e l).results)) (types_lem e l)
    ∙ ap (last_word l.service_types n es) (one_call n e l)
    ∙ sym (last_word-cons l.service_types n e es (get n l.results))
