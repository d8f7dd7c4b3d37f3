-- ===== src/Mdns/Discovery/Found.antt =====
-- What discover_services of mdns/discovery.py returns and leaves behind.
use adb_shell.Common.{
  ℕ, ◌≡◌, refl, sym, ap, ◌∙◌, List, [], ◌∷◌, Bool, true, false, Bool-cases, inl, inr, Option, none,
  some, arith,
}
use adb_shell.Errors.{Error, Result, Result-cases, ok, err}
use adb_shell.Exec.{Exec, continue, gets, modify, finally, zoom, ◌>>=◌, ◌>>◌}
use adb_shell.Exec.Rules.{
  Keeps, Keeps-bind, Keeps-zoom, Keeps-finally, Keeps-pure, Yields, Yields-Any, Yields-bind,
  OfValue-ok,
}
use adb_shell.Mdns.Names.{
  Name, Named, name_eq, name_eq_iff, get, put, remove, values, get-put, get-remove, short_name,
}
use adb_shell.Mdns.Discovery.{
  AdbService, ServiceInfo, Resolver, Listener, new_listener, Event, added, removed, updated,
  is_wanted, service_of, service_at, stored, add_service, remove_service, update_service, handle,
  observe, Zeroconf, Sweep, on_net, meanwhile, browse_all, discover_services,
}

-- Each name once, under it a service of a type that is looked for, with its short name.
abbrev pub IsFound : List Name → Named AdbService → Type 0
IsFound types [] = Unit {0}
IsFound types ((k, s) ∷ d) =
    (get k d ≡ none)
    × (is_wanted types s.type ≡ true)
    × (s.name ≡ short_name s.type k)
    × IsFound types d

module _ (types : List Name) where
  put-IsFound :
      (k : Name) (s : AdbService) (d : Named AdbService)
      → is_wanted types s.type ≡ true
      → s.name ≡ short_name s.type k
      → IsFound types d
      → IsFound types (put k s d)
  unfolding put
  put-IsFound k s [] w e h = (unfold get in refl, w, e, tt)
  put-IsFound k s ((j, r) ∷ d) w e (new, wr, er, h) = elim (Bool-cases (name_eq j k)) [
    | inl same ↦ rw same (new, w, e ∙ ap (short_name s.type) (sym ((name_eq_iff j k).0 same)), h)
    | inr other ↦ rw other (
      ground (arith, get-put k j s d, name_eq_iff j k, name_eq_iff k j),
      wr,
      er,
      put-IsFound k s d w e h,
    )
  ]

  remove-IsFound : (k : Name) (d : Named AdbService) → IsFound types d → IsFound types (remove k d)
  unfolding remove
  remove-IsFound k [] h = tt
  remove-IsFound k ((j, r) ∷ d) (new, wr, er, h) = elim (Bool-cases (name_eq j k)) [
    | inl same ↦ rw same (remove-IsFound k d h)
    | inr other ↦ rw other (ground (arith, get-remove k j d), wr, er, remove-IsFound k d h)
  ]

  stored-IsFound :
      (type name : Name) (o : Option ServiceInfo) (d : Named AdbService)
      → is_wanted types type ≡ true
      → IsFound types d
      → IsFound types (stored name (service_of type name o) d)
  stored-IsFound type name none d w h = h
  stored-IsFound type name (some info) d w h = by_addresses info.addresses
    where
      by_addresses :
          (ips : List Name) → IsFound types (stored name (service_at type name info.port ips) d)
      by_addresses [] = h
      by_addresses (ip ∷ ips) = put-IsFound name _ d w refl h

  abbrev pub Listens : Listener → Type 0
  Listens l = (l.service_types ≡ types) × IsFound types l.results

  add-Listens :
      (zc : Resolver) (type name : Name) (l : Listener)
      → Listens l
      → Listens (add_service zc type name l)
  unfolding add_service
  add-Listens zc type name l (e, h) = elim (Bool-cases (is_wanted l.service_types type)) [
    | inl w ↦ rw w (
      e,
      stored-IsFound type name (zc type name) l.results (ap (λ ts. is_wanted ts type) (sym e) ∙ w)
          h,
    )
    | inr w ↦ rw w (e, h)
  ]

  handle-Listens : (e : Event) (l : Listener) → Listens l → Listens (handle e l)
  unfolding handle remove_service update_service
  handle-Listens (added zc type name) l h = add-Listens zc type name l h
  handle-Listens (removed type name) l (e, h) = (e, remove-IsFound name l.results h)
  handle-Listens (updated zc type name) l h = add-Listens zc type name l h

  observe-Listens : (es : List Event) (l : Listener) → Listens l → Listens (observe es l)
  unfolding observe
  observe-Listens [] l h = h
  observe-Listens (e ∷ es) l h = observe-Listens es (handle e l) (handle-Listens e l h)

  module _ {Z : Type 0} (z : Zeroconf Z) where
    abbrev OnSweep : Sweep Z → Type 0
    OnSweep s = Listens s.listener

    net-Keeps : {A : Type 0} (m : Exec Z A) → Keeps OnSweep (on_net z m)
    net-Keeps m = Keeps-zoom _ _ m (λ s h. h)

    meanwhile-Keeps : (m : Exec Z (List Event)) → Keeps OnSweep (meanwhile z m)
    unfolding meanwhile
    meanwhile-Keeps m =
        Keeps-bind _ _ (net-Keeps m) (λ es. record { at = λ s h. observe-Listens es s.listener h })

    browse-Keeps : (ts : List Name) → Keeps OnSweep (browse_all z ts)
    unfolding browse_all
    browse-Keeps [] = Keeps-pure tt
    browse-Keeps (t ∷ ts) = Keeps-bind _ _ (meanwhile-Keeps (z.browse t)) (λ _. browse-Keeps ts)

    -- The values of such a dictionary.
    AreFound : List AdbService → Type 0
    AreFound services = (d : Named AdbService) × (services ≡ values d) × IsFound types d

    sweep-Yields :
        (timeout : ℕ)
        → Yields OnSweep AreFound (do
          on_net z z.new
          finally (do browse_all z types; meanwhile z (z.sleep timeout)) (meanwhile z z.close)
          gets (λ s. values s.listener.results))
    unfolding AreFound
    sweep-Yields timeout = Yields-bind _ _ (Yields-Any _ (net-Keeps z.new)) (λ _ _.
        Yields-bind _ _
          (Yields-Any _ (
            Keeps-finally _ _
              (Keeps-bind _ _ (browse-Keeps types) (λ _. meanwhile-Keeps (z.sleep timeout)))
              (meanwhile-Keeps z.close)))
          (λ _ _. record { at = λ s h. (h, (s.listener.results, refl, h.1)) }))

    -- Whatever zeroconf calls, and whenever: the services that `discover_services` returns are the values of
    -- a dictionary that has each name once, and under it a service of one of the types that were asked for,
    -- by its short name.
    pub discover_services_lem :
        (timeout : ℕ) (s : Sweep Z) (services : List AdbService)
        → (discover_services z types timeout s).0 ≡ ok services
        → (d : Named AdbService) × (services ≡ values d) × IsFound types d
    unfolding discover_services ◌>>=◌ AreFound
    discover_services_lem timeout s services e =
        OfValue-ok AreFound
          ((sweep-Yields timeout).at (record s { listener = new_listener types }) (refl, tt)).1 e

-- `is_open` says whether a Zeroconf object is open: one that could not be made is not, and `close` closes
-- it whether it raises or not.
pub record Closes {Z : Type 0} (z : Zeroconf Z) (is_open : Z → Bool) : Type 0 where
  pub new_lem : (w w' : Z) (e : Error) → z.new w ≡ (err e, w') → is_open w' ≡ is_open w
  pub close_lem : (w : Z) → is_open (z.close w).1 ≡ false

module _ {Z : Type 0} (z : Zeroconf Z) (is_open : Z → Bool) (c : Closes z is_open) where
  after_close :
      (r : Result (List Event)) (s : Sweep Z)
      → is_open s.net ≡ false
      → is_open
          (continue r (λ es. modify (λ s. record s { listener = observe es s.listener })) s).1.net
        ≡ false
  after_close (ok es) s h = h
  after_close (err e) s h = h

  after_finally :
      (m : Exec (Sweep Z) (Unit {0})) (s : Sweep Z)
      → is_open (finally m (meanwhile z z.close) s).1.net ≡ false
  unfolding finally meanwhile ◌>>=◌ zoom
  after_finally m s = after_close _ _ (c.close_lem (m s).1.net)

  after_gets :
      {A B : Type 0} (r : Result A) (view : Sweep Z → B) (s : Sweep Z)
      → is_open s.net ≡ false
      → is_open (continue r (λ _. gets view) s).1.net ≡ false
  after_gets (ok a) view s h = h
  after_gets (err e) view s h = h

  -- Where a Zeroconf object that could not be made is not open, and `close` closes it whether it raises or
  -- not: `discover_services` leaves none open, whether it returns or raises.
  pub discover_services_closes :
      (types : List Name) (timeout : ℕ) (s : Sweep Z)
      → is_open s.net ≡ false
      → is_open (discover_services z types timeout s).1.net ≡ false
  unfolding discover_services ◌>>=◌ zoom
  discover_services_closes types timeout s h = elim (Result-cases (z.new s.net).0) [
    | inl (u, e) ↦ rw e (after_gets _ _ _ (after_finally _ _))
    | inr (x, e) ↦ rw e (c.new_lem s.net (z.new s.net).1 x (ap (λ r. (r, (z.new s.net).1)) e) ∙ h)
  ]
