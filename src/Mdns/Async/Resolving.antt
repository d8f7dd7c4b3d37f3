-- ===== src/Mdns/Async/Resolving.antt =====
-- The loop of discover_services_async (mdns/discovery_async.py) over the services that were seen.
use mathlib.Core.Path.{subst}
use adb_shell.Common.{
  ◌⊎◌, inl, inr, sym, true, Bool-cases, All, ℕ, zero, suc, ◌<◌, ◌≡◌, ◌≢◌, refl, ap, ◌∙◌, List, [],
  ◌∷◌, Option, none, some, length, ==_refl, arith,
}
use adb_shell.Errors.{ok}
use adb_shell.Exec.{◌>>=◌, zoom}
use adb_shell.Mdns.Names.{
  Name, Named, get, put, name_eq, name_eq_refl, eq-name_eq, get-put, short_name,
}
use adb_shell.Mdns.Discovery.{AdbService, ServiceInfo, Event, service_at, service_of, stored}
use adb_shell.Mdns.Async.{Seen, is_seen, AsyncZeroconf, Sweep, observe, resolve}

module _ {Z B : Type 0} (z : AsyncZeroconf Z B) where
  -- One round, and the last.
  resolve_step :
      (fuel size k : ℕ) (results : Named AdbService) (s : Sweep Z B) (type name : Name)
      (info : Option ServiceInfo) (events : List Event) (net : Z)
      → length s.collector.observed ≡ size
      → z.item k s.collector.observed ≡ some (type, name)
      → z.request type name s.net ≡ (ok (info, events), net)
      → resolve z (suc fuel) size k results s
        ≡ resolve z fuel size
            (suc k)
            (stored name (service_of type name info) results)
            (record s { net = net; collector = observe events s.collector })
  unfolding resolve ◌>>=◌ zoom
  resolve_step fuel size k results s type name info events net n e r =
      rw (n, ==_refl size, e, r) refl

  resolve_end :
      (fuel size k : ℕ) (results : Named AdbService) (s : Sweep Z B)
      → length s.collector.observed ≡ size
      → z.item k s.collector.observed ≡ none
      → resolve z (suc fuel) size k results s ≡ (ok results, s)
  unfolding resolve ◌>>=◌
  resolve_end fuel size k results s n e = rw (n, ==_refl size, e) refl

  -- The iterator goes through `ps`, from its k-th step on.
  abbrev pub GoesThrough : List Seen → ℕ → List Seen → Type 0
  GoesThrough set k [] = z.item k set ≡ none
  GoesThrough set k (p ∷ ps) = (z.item k set ≡ some p) × GoesThrough set (suc k) ps

  -- The iterator of a set that stays as it is: in some order it comes to the elements of the set and to
  -- nothing else, in as many steps as the set has elements, and then it ends.
  pub record IsIterator : Type 0 where
    pub order : List Seen → List Seen
    pub visits : (set : List Seen) → GoesThrough set 0 (order set)
    pub same : (set : List Seen) (p : Seen) → is_seen p (order set) ≡ is_seen p set
    pub count : (set : List Seen) → length (order set) ≡ length set

module _ (answer : Name → Name → Option ServiceInfo) where
  -- A service that was seen, and resolved to a first address.
  abbrev pub IsResolved : List Seen → Name × AdbService → Type 0
  IsResolved set (name, service) =
      (type : Name) × (ip : Name) × (ips : List Name) × (port : ℕ) × (is_seen (type, name) set
        ≡ true)
      × (answer type name ≡ some (record { addresses = ip ∷ ips; port = port }))
      × (service ≡ record { name = short_name type name; type = type; host = ip; port = port })

  -- There is no answer, or none with an address.
  abbrev pub HasNoAddress : Seen → Type 0
  HasNoAddress (type, name) =
      (answer type name ≡ none)
      ⊎ ((port : ℕ) × (answer type name ≡ some (record { addresses = []; port = port })))

  -- A service is listed under its name, if it has an address.
  abbrev pub IsListed : Named AdbService → Seen → Type 0
  IsListed d p = HasNoAddress p ⊎ (get p.1 d ≢ none)

  -- What is listed stays listed.
  abbrev Kept : Named AdbService → Named AdbService → Type 0
  Kept d d' = (n : Name) → get n d ≢ none → get n d' ≢ none

  put-All :
      (P : Name × AdbService → Type 0) (k : Name) (v : AdbService) (d : Named AdbService)
      → P (k, v)
      → All P d
      → All P (put k v d)
  unfolding put
  put-All P k v [] h hs = (h, tt)
  put-All P k v ((j, w) ∷ d) h (h', hs) = elim (Bool-cases (name_eq j k)) [
    | inl e ↦ rw e (subst (λ i. P (i, v)) (sym (eq-name_eq j k e)) h, hs)
    | inr e ↦ rw e (h', put-All P k v d h hs)
  ]

  put-Kept : (k : Name) (v : AdbService) (d : Named AdbService) → Kept d (put k v d)
  put-Kept k v d n h = ground (arith, get-put k n v d)

  put_listed : (k : Name) (v : AdbService) (d : Named AdbService) → get k (put k v d) ≢ none
  put_listed k v d = ground (arith, get-put k k v d, name_eq_refl k)

  -- What one answer does to the results.
  stored_lem :
      (set : List Seen) (type name : Name) (a : Option ServiceInfo) (d : Named AdbService)
      → answer type name ≡ a
      → is_seen (type, name) set ≡ true
      → All (IsResolved set) d
      → let d' = stored name (service_of type name a) d in
        All (IsResolved set) d' × IsListed d' (type, name) × Kept d d'
  stored_lem set type name none d e seen h = (h, inl (inl e), λ n k. k)
  stored_lem set type name (some info) d e seen h = from_addresses info.addresses refl
    where
      from_addresses :
          (ips : List Name)
          → info.addresses ≡ ips
          → let d' = stored name (service_at type name info.port ips) d in
            All (IsResolved set) d' × IsListed d' (type, name) × Kept d d'
      from_addresses [] q = (
        h,
        inl (inr (info.port, e ∙ ap (λ x. some (record { addresses = x; port = info.port })) q)),
        λ n k. k,
      )
      from_addresses (ip ∷ ips) q =
          let service : AdbService = record {
            name = short_name type name;
            type = type;
            host = ip;
            port = info.port;
          } in
          (
            put-All (IsResolved set) name service d
                (
                  type,
                  ip,
                  ips,
                  info.port,
                  seen,
                  e ∙ ap (λ x. some (record { addresses = x; port = info.port })) q,
                  refl,
                )
                h,
            inr (put_listed name service d),
            put-Kept name service d,
          )

  IsListed-Kept : (d d' : Named AdbService) (p : Seen) → Kept d d' → IsListed d p → IsListed d' p
  IsListed-Kept d d' p k (inl none_there) = inl none_there
  IsListed-Kept d d' p k (inr there) = inr (k p.1 there)

  module _ {Z B : Type 0} (z : AsyncZeroconf Z B)
      (calm : (type name : Name) (w : Z)
        → (w' : Z) × (z.request type name w ≡ (ok (answer type name, []), w'))) where
    -- What the loop comes to.
    record Outcome (set : List Seen) (ps : List Seen) (d : Named AdbService) (fuel k : ℕ)
        (s : Sweep Z B) : Type 0 where
      results : Named AdbService
      after : Sweep Z B
      ran : resolve z fuel (length set) k d s ≡ (ok results, after)
      left_alone : after.collector.observed ≡ set
      sound : All (IsResolved set) results
      listed : All (IsListed results) ps
      kept : Kept d results

    looped :
        (ps : List Seen) (fuel k : ℕ) (d : Named AdbService) (s : Sweep Z B)
        → GoesThrough z s.collector.observed k ps
        → length ps < fuel
        → All (λ p. is_seen p s.collector.observed ≡ true) ps
        → All (IsResolved s.collector.observed) d
        → Outcome s.collector.observed ps d fuel k s
    unfolding observe
    looped ps zero k d s g few seen h = absurd (omega (arith, few))
    looped [] (suc fuel) k d s g few seen h = record {
      results = d;
      after = s;
      ran = resolve_end z fuel (length s.collector.observed) k d s refl g;
      left_alone = refl;
      sound = h;
      listed = tt;
      kept = λ n e. e;
    }
    looped ((type, name) ∷ ps) (suc fuel) k d s (g, gs) few (here, seen) h =
        let (w, r) = calm type name s.net in
        let set = s.collector.observed in
        let d1 = stored name (service_of type name (answer type name)) d in
        let (h1, listed1, kept1) = stored_lem set type name (answer type name) d refl here h in
        let rest =
          looped ps fuel (suc k) d1 (record s { net = w }) gs (omega (arith, few)) seen h1 in
        record {
          results = rest.results;
          after = rest.after;
          ran =
              resolve_step z fuel (length set) k d s type name (answer type name) [] w refl g r
              ∙ rest.ran;
          left_alone = rest.left_alone;
          sound = rest.sound;
          listed = (IsListed-Kept d1 rest.results (type, name) rest.kept listed1, rest.listed);
          kept = λ n e. rest.kept n (kept1 n e);
        }

is_seen_head : (p : Seen) (ps : List Seen) → is_seen p (p ∷ ps) ≡ true
unfolding is_seen
is_seen_head p ps = ground (arith, name_eq_refl p.0, name_eq_refl p.1)

is_seen_behind : (p q : Seen) (ps : List Seen) → is_seen p ps ≡ true → is_seen p (q ∷ ps) ≡ true
unfolding is_seen
is_seen_behind p q ps h = ground (arith, h)

all_of : (P : Seen → Type 0) (ps : List Seen) → ((p : Seen) → is_seen p ps ≡ true → P p) → All P ps
all_of P [] h = tt
all_of P (p ∷ ps) h = (h p (is_seen_head p ps), all_of P ps (λ q e. h q (is_seen_behind q p ps e)))

seen_cases :
    (p q : Seen) (ps : List Seen) → is_seen p (q ∷ ps) ≡ true → (q ≡ p) ⊎ (is_seen p ps ≡ true)
unfolding is_seen
seen_cases (type, name) (type', name') ps h =
    ground (arith, h, eq-name_eq type' type, eq-name_eq name' name)

of_all : (P : Seen → Type 0) (ps : List Seen) → All P ps → (p : Seen) → is_seen p ps ≡ true → P p
unfolding is_seen
of_all P [] hs p e = absurd cc
of_all P (q ∷ ps) (h, hs) p e = elim (seen_cases p q ps e) [
  | inl same ↦ subst P same h
  | inr behind ↦ of_all P ps hs p behind
]

-- Where the iterator goes through a set that stays as it is, zeroconf calls nobody while answers are
-- awaited, and no request raises: with more rounds than the set has elements, the loop of
-- `discover_services_async` returns, and leaves the set as it was. Each service that it returns is one of the
-- set with an answer that has an address, with the first of them, the port, the type and the short name;
-- and each of the set whose answer has an address is listed under its name.
pub resolve_lem :
    {Z B : Type 0} (z : AsyncZeroconf Z B) (iterator : IsIterator z)
    (answer : Name → Name → Option ServiceInfo)
    (calm : (type name : Name) (w : Z)
      → (w' : Z) × (z.request type name w ≡ (ok (answer type name, []), w')))
    (fuel : ℕ) (s : Sweep Z B)
    → length s.collector.observed < fuel
    → (results : Named AdbService) × (s' : Sweep Z B) × (resolve z fuel
          (length s.collector.observed)
          0
          []
          s
        ≡ (ok results, s'))
      × (s'.collector.observed ≡ s.collector.observed)
      × All (IsResolved answer s.collector.observed) results
      × All (IsListed answer results) s.collector.observed
resolve_lem z iterator answer calm fuel s few =
    let set = s.collector.observed in
    let order = iterator.order set in
    let end =
      looped answer z calm order fuel 0 [] s (iterator.visits set)
        (omega (arith, few, iterator.count set))
        (all_of _ order (λ p e. sym (iterator.same set p) ∙ e)) tt in
    (
      end.results,
      end.after,
      end.ran,
      end.left_alone,
      end.sound,
      all_of _ set (λ p e. of_all _ order end.listed p (iterator.same set p ∙ e)),
    )
