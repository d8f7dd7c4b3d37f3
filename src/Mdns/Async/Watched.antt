-- ===== src/Mdns/Async/Watched.antt =====
-- What _AsyncCollector of mdns/discovery_async.py has noted after any calls.
use adb_shell.Common.{
  ◌≡◌, refl, ap, ◌∙◌, List, [], ◌∷◌, Bool, true, false, ◌&&◌, ◌||◌, Bool-cases, inl, inr,
  if◌then◌else◌, arith,
}
use adb_shell.Mdns.Names.{Name, name_eq, name_eq_iff}
use adb_shell.Mdns.Discovery.{Event, added, removed, updated, is_wanted}
use adb_shell.Mdns.Async.{
  Seen, is_seen, Collector, set_add, set_discard, add_service, remove_service, update_service,
  handle, observe,
}

abbrev pub same : Seen → Seen → Bool
same p q = name_eq p.0 q.0 && name_eq p.1 q.1

-- The last word on one type and name.
unfoldable pub last_seen : List Name → Seen → List Event → Bool → Bool
last_seen types p [] before = before
last_seen types p (added zc type name ∷ es) before =
    last_seen types p es (same (type, name) p && is_wanted types type || before)
last_seen types p (removed type name ∷ es) before =
    last_seen types p es (if same (type, name) p then false else before)
last_seen types p (updated zc type name ∷ es) before =
    last_seen types p es (same (type, name) p && is_wanted types type || before)

module _ (p q : Seen) where
  is_seen-same : (ps : List Seen) → same p q ≡ true → is_seen p ps ≡ is_seen q ps
  is_seen-same ps h =
      ap (λ r. is_seen r ps) (ground (arith, name_eq_iff p.0 q.0, name_eq_iff p.1 q.1))

  is_seen-add : (ps : List Seen) → is_seen q (set_add p ps) ≡ (same p q || is_seen q ps)
  unfolding set_add
  is_seen-add ps = elim (Bool-cases (is_seen p ps)) [
    | inl e ↦ rw e (ground (arith, is_seen-same ps))
    | inr e ↦ rw e (unfold is_seen in refl)
  ]

  is_seen-discard :
      (ps : List Seen) → is_seen q (set_discard p ps) ≡ (if same p q then false else is_seen q ps)
  unfolding set_discard is_seen
  is_seen-discard [] = ground arith
  is_seen-discard (r ∷ ps) = ground (
    arith,
    is_seen-discard ps,
    name_eq_iff p.0 q.0,
    name_eq_iff p.1 q.1,
    name_eq_iff r.0 p.0,
    name_eq_iff r.1 p.1,
    name_eq_iff r.0 q.0,
    name_eq_iff r.1 q.1,
  )

types_lem : (e : Event) (c : Collector) → (handle e c).service_types ≡ c.service_types
unfolding handle add_service remove_service update_service
types_lem (added zc type name) c = ground arith
types_lem (removed type name) c = refl
types_lem (updated zc type name) c = ground arith

one_call :
    (p : Seen) (e : Event) (c : Collector) (es : List Event)
    → last_seen c.service_types p es (is_seen p (handle e c).observed)
      ≡ last_seen c.service_types p (e ∷ es) (is_seen p c.observed)
unfolding handle add_service remove_service update_service last_seen
one_call p (added zc type name) c es =
    ap (last_seen c.service_types p es) (ground (arith, is_seen-add (type, name) p c.observed))
one_call p (removed type name) c es =
    ap (last_seen c.service_types p es) (is_seen-discard (type, name) p c.observed)
one_call p (updated zc type name) c es =
    ap (last_seen c.service_types p es) (ground (arith, is_seen-add (type, name) p c.observed))

-- After any calls by zeroconf, in any order, a type and name are in the set exactly if the last word on
-- them is that they were seen, with a type that is looked for, and not withdrawn since. Where no call counted, that is
-- as it was before.
pub is_seen-observe :
    (es : List Event) (c : Collector) (p : Seen)
    → is_seen p (observe es c).observed ≡ last_seen c.service_types p es (is_seen p c.observed)
unfolding observe
is_seen-observe [] c p = unfold last_seen in refl
is_seen-observe (e ∷ es) c p =
    is_seen-observe es (handle e c) p
    ∙ ap (λ ts. last_seen ts p es (is_seen p (handle e c).observed)) (types_lem e c)
    ∙ one_call p e c es
