-- ===== src/IoManager/Concurrent/Locks.antt =====
-- Who holds the locks of _AdbIOManager: a lock's owner is the task that stands behind its acquisition.
use adb_shell.Common.{
  ℕ, ◌≡◌, ◌≢◌, refl, sym, ap, ◌∙◌, Bool, true, false, Option, none, some, arith, ◌==◌,
  if◌then◌else◌,
}
use adb_shell.Errors.{Result, ok, err}
use adb_shell.Exec.{pure}
use adb_shell.Constants.{same_command, clse}
use adb_shell.TransactionInfo.{args_match}
use adb_shell.PacketStore.{PacketStore, Packet}
use adb_shell.Transport.{Transport, Credentials}
use adb_shell.IoManager.Packets.{now, unless_late, send}
use adb_shell.IoManager.Connect.{handshake}
use adb_shell.IoManager.Read.{drain}
use adb_shell.IoManager.Concurrent.{
  Request, Pc, find_wait, find_inside, timer, transport_wait, again_wait, again_inside, receiving,
  put_wait, put_inside, clear_wait, clear_inside, clock, send_wait, send_inside, close_wait,
  connect_wait, connect_inside, connect_store_wait, connect_store_inside, connecting, after_login,
  close_inside, close_store_wait, close_store_inside, returned, finished, raised, Shared, Out,
  after_find, after_again, after_packet, answered, after_clock, after_time, after_send,
  acquire_store, acquire_transport, move,
}

-- The lines under `with self._transport_lock` and under `with self._store_lock`.
abbrev pub holds_transport : Pc → Bool
holds_transport (again_wait start) = true
holds_transport (again_inside start) = true
holds_transport (receiving start) = true
holds_transport (put_wait start p) = true
holds_transport (put_inside start p) = true
holds_transport (clear_wait start p) = true
holds_transport (clear_inside start p) = true
holds_transport (send_inside m info) = true
holds_transport close_inside = true
holds_transport close_store_wait = true
holds_transport close_store_inside = true
holds_transport (connect_inside login) = true
holds_transport (connect_store_wait login) = true
holds_transport (connect_store_inside login) = true
holds_transport (connecting login) = true
holds_transport _ = false

abbrev pub holds_store : Pc → Bool
holds_store find_inside = true
holds_store (again_inside start) = true
holds_store (put_inside start p) = true
holds_store (clear_inside start p) = true
holds_store close_store_inside = true
holds_store (connect_store_inside login) = true
holds_store _ = false

abbrev pub owns : Option ℕ → ℕ → Bool
owns none k = false
owns (some j) k = j == k

-- What a move of task k from one line to another may do to a lock.
pub record Handed (k : ℕ) (lock lock' : Option ℕ) (holds' : Bool) : Type 0 where
  pub own : holds' ≡ owns lock' k
  pub others : (j : ℕ) → j ≢ k → owns lock' j ≡ owns lock j

kept :
    (k : ℕ) (lock : Option ℕ) (holds holds' : Bool)
    → holds ≡ owns lock k
    → holds ≡ holds'
    → Handed k lock lock holds'
kept k lock holds holds' e same = record { own = sym same ∙ e; others = λ j ne. refl }

taken : (k : ℕ) → Handed k none (some k) true
taken k = record { own = ground arith; others = λ j ne. ground (arith, ne) }

dropped : (k : ℕ) (lock : Option ℕ) → true ≡ owns lock k → Handed k lock none false
dropped k none e = absurd cc
dropped k (some i) e = record { own = refl; others = λ j ne. ground (arith, e, ne) }

-- Both locks, over a move.
abbrev pub Fair : {D : Type 0} → ℕ → Shared D → Pc × Shared D → Type 0
Fair k s (pc, s') =
    Handed k s.transport_lock s'.transport_lock (holds_transport pc)
    × Handed k s.store_lock s'.store_lock (holds_store pc)

abbrev pub FairOut : {D : Type 0} → ℕ → Shared D → Out D → Type 0
FairOut k s none = Unit {0}
FairOut k s (some out) = Fair k s out

-- A line with no lock.
abbrev pub IsQuiet : Pc → Type 0
IsQuiet pc = (holds_transport pc ≡ false) × (holds_store pc ≡ false)

at_rest_find : (r : Result (Option Packet)) → IsQuiet (after_find r)
at_rest_find (ok (some p)) = (refl, refl)
at_rest_find (ok none) = (refl, refl)
at_rest_find (err e) = (refl, refl)

at_rest_answer : (q : Request) (start : ℕ) (p : Packet) → IsQuiet (answered q start p)
at_rest_answer q start p = (ground arith, ground arith)

at_rest_clock : (start : ℕ) (r : Result (Unit {0})) → IsQuiet (after_clock start r)
at_rest_clock start (ok _) = (refl, refl)
at_rest_clock start (err e) = (refl, refl)

at_rest_time : (r : Result ℕ) → IsQuiet (after_time r)
at_rest_time (ok start) = (refl, refl)
at_rest_time (err e) = (refl, refl)

at_rest_send : (r : Result (Unit {0})) → IsQuiet (after_send r)
at_rest_send (ok _) = (refl, refl)
at_rest_send (err e) = (refl, refl)

at_rest_login : (r : Result ℕ) → IsQuiet (after_login r)
at_rest_login (ok maxdata) = (refl, refl)
at_rest_login (err e) = (refl, refl)

-- A lock that is dropped, and one that was not held, by a task that comes to a quiet line.
dropped_at :
    (k : ℕ) (lock : Option ℕ) (holds : Bool)
    → holds ≡ false
    → true ≡ owns lock k
    → Handed k lock none holds
dropped_at k lock holds quiet e = record {
  own = quiet ∙ (dropped k lock e).own;
  others = (dropped k lock e).others;
}

unheld_at :
    (k : ℕ) (lock : Option ℕ) (holds : Bool)
    → holds ≡ false
    → false ≡ owns lock k
    → Handed k lock lock holds
unheld_at k lock holds quiet e = record { own = quiet ∙ e; others = λ j ne. refl }

module _ {D : Type 0} (k : ℕ) (s : Shared D) where
  by_store :
      (pc : Pc) (lock : Option ℕ)
      → lock ≡ s.store_lock
      → holds_transport pc ≡ owns s.transport_lock k
      → holds_store pc ≡ true
      → FairOut k s (acquire_store k pc s lock)
  by_store pc none e own inside = (
    record { own = own; others = λ j ne. refl },
    record {
      own = inside ∙ (taken k).own;
      others = λ j ne. (taken k).others j ne ∙ ap (λ l. owns l j) e;
    },
  )
  by_store pc (some i) e own inside = tt

  by_transport :
      (pc : Pc) (lock : Option ℕ)
      → lock ≡ s.transport_lock
      → holds_store pc ≡ owns s.store_lock k
      → holds_transport pc ≡ true
      → FairOut k s (acquire_transport k pc s lock)
  by_transport pc none e own inside = (
    record {
      own = inside ∙ (taken k).own;
      others = λ j ne. (taken k).others j ne ∙ ap (λ l. owns l j) e;
    },
    record { own = own; others = λ j ne. refl },
  )
  by_transport pc (some i) e own inside = tt

  by_again :
      (start : ℕ) (r : Result (Option Packet)) (store : PacketStore)
      → true ≡ owns s.transport_lock k
      → true ≡ owns s.store_lock k
      → Fair k s (after_again start r (record s { store = store }))
  by_again start (ok (some p)) store et es =
      (dropped k s.transport_lock et, dropped k s.store_lock es)
  by_again start (ok none) store et es =
      (record { own = et; others = λ j ne. refl }, dropped k s.store_lock es)
  by_again start (err e) store et es = (dropped k s.transport_lock et, dropped k s.store_lock es)

  by_choice :
      (q : Request) (start : ℕ) (p : Packet) (ours closing : Bool) (d : D)
      → true ≡ owns s.transport_lock k
      → false ≡ owns s.store_lock k
      → let s' = record s { transport = d } in
        Fair k s (
          if ours
          then (if closing
              then (clear_wait start p, s')
              else (answered q start p, record s' { transport_lock = none }))
          else (put_wait start p, s'))
  by_choice q start p true true d et es =
      (record { own = et; others = λ j ne. refl }, record { own = es; others = λ j ne. refl })
  by_choice q start p true false d et es = (
    dropped_at k s.transport_lock _ (at_rest_answer q start p).0 et,
    unheld_at k s.store_lock _ (at_rest_answer q start p).1 es,
  )
  by_choice q start p false closing d et es =
      (record { own = et; others = λ j ne. refl }, record { own = es; others = λ j ne. refl })

  by_packet :
      (q : Request) (start : ℕ) (r : Result Packet) (d : D)
      → true ≡ owns s.transport_lock k
      → false ≡ owns s.store_lock k
      → Fair k s (after_packet q start r (record s { transport = d }))
  by_packet q start (ok p) d et es =
      by_choice q start p (args_match q.info p.arg0 p.arg1 q.allow_zeros) (same_command p.cmd clse)
        d et es
  by_packet q start (err e) d et es =
      (dropped k s.transport_lock et, record { own = es; others = λ j ne. refl })

module _ {D : Type 0} (t : Transport D) (credentials : Credentials) (fuel : ℕ) where
  -- A move changes the locks as the lines say, and no other task's hold on them.
  pub move_fair :
      (k : ℕ) (q : Request) (pc : Pc) (s : Shared D)
      → holds_transport pc ≡ owns s.transport_lock k
      → holds_store pc ≡ owns s.store_lock k
      → FairOut k s (move t credentials fuel k q pc s)
  unfolding move
  move_fair k q find_wait s et es = by_store k s find_inside s.store_lock refl et refl
  move_fair k q find_inside s et es =
      let (u, v) = at_rest_find (drain q.expected q.info q.allow_zeros s.store).0 in
      (unheld_at k s.transport_lock _ u et, dropped_at k s.store_lock _ v es)
  move_fair k q timer s et es =
      let (u, v) = at_rest_time (now t s.transport).0 in
      (unheld_at k s.transport_lock _ u et, unheld_at k s.store_lock _ v es)
  move_fair k q (transport_wait start) s et es =
      by_transport k s (again_wait start) s.transport_lock refl es refl
  move_fair k q (again_wait start) s et es =
      by_store k s (again_inside start) s.store_lock refl et refl
  move_fair k q (again_inside start) s et es = by_again k s start _ _ et es
  move_fair k q (receiving start) s et es = by_packet k s q start _ _ et es
  move_fair k q (put_wait start p) s et es =
      by_store k s (put_inside start p) s.store_lock refl et refl
  move_fair k q (put_inside start p) s et es =
      (dropped k s.transport_lock et, dropped k s.store_lock es)
  move_fair k q (clear_wait start p) s et es =
      by_store k s (clear_inside start p) s.store_lock refl et refl
  move_fair k q (clear_inside start p) s et es =
      let (u, v) = at_rest_answer q start p in
      (dropped_at k s.transport_lock _ u et, dropped_at k s.store_lock _ v es)
  move_fair k q (clock start) s et es =
      let (u, v) =
        at_rest_clock start (unless_late t start q.info.read_timeout_s (pure tt) s.transport).0 in
      (unheld_at k s.transport_lock _ u et, unheld_at k s.store_lock _ v es)
  move_fair k q (send_wait m info) s et es =
      by_transport k s (send_inside m info) s.transport_lock refl es refl
  move_fair k q (send_inside m info) s et es =
      let (u, v) = at_rest_send (send t m info s.transport).0 in
      (dropped_at k s.transport_lock _ u et, unheld_at k s.store_lock _ v es)
  move_fair k q close_wait s et es = by_transport k s close_inside s.transport_lock refl es refl
  move_fair k q close_inside s et es =
      (record { own = et; others = λ j ne. refl }, record { own = es; others = λ j ne. refl })
  move_fair k q close_store_wait s et es = by_store k s close_store_inside s.store_lock refl et refl
  move_fair k q close_store_inside s et es =
      (dropped k s.transport_lock et, dropped k s.store_lock es)
  move_fair k q (connect_wait login) s et es =
      by_transport k s (connect_inside login) s.transport_lock refl es refl
  move_fair k q (connect_inside login) s et es =
      (record { own = et; others = λ j ne. refl }, record { own = es; others = λ j ne. refl })
  move_fair k q (connect_store_wait login) s et es =
      by_store k s (connect_store_inside login) s.store_lock refl et refl
  move_fair k q (connect_store_inside login) s et es =
      (record { own = et; others = λ j ne. refl }, dropped k s.store_lock es)
  move_fair k q (connecting login) s et es =
      let (u, v) =
        at_rest_login
          (handshake t credentials fuel login.banner login.keys login.auth_timeout_s none login.info
            login.tls_priv_pem (record { store = s.store; transport = s.transport })).0 in
      (dropped_at k s.transport_lock _ u et, unheld_at k s.store_lock _ v es)
  move_fair k q (returned p) s et es = tt
  move_fair k q finished s et es = tt
  move_fair k q (raised e) s et es = tt
