-- ===== src/IoManager/Concurrent.antt =====
-- _AdbIOManager under its two locks (adb_device.py, and adb_device_async.py with the same calls awaited):
-- tasks in `read`, `send`, `connect` and `close`, interleaved in any order. A task moves from one acquisition of a
-- lock to the next.
pub mod Locks
pub mod Progress
pub mod Moves
pub mod Streams
use adb_shell.Common.{ℕ, List, [], Bool, true, false, Option, none, some, ◌≡◌, ◌==◌, if◌then◌else◌}
use adb_shell.Errors.{Error, Result, ok, err}
use adb_shell.Exec.{pure}
use adb_shell.Constants.{Command, same_command, clse}
use adb_shell.Message.{AdbMessage}
use adb_shell.TransactionInfo.{AdbInfo, args_match}
use adb_shell.PacketStore
use adb_shell.PacketStore.{PacketStore, Packet, clear_all}
use adb_shell.Transport.{Transport, Signer, Credentials}
use adb_shell.IoManager.{IoManager, is_expected}
use adb_shell.IoManager.Packets.{now, unless_late, read_packet, send}
use adb_shell.IoManager.Connect.{handshake}
use adb_shell.IoManager.Read.{drain}

-- The arguments of a call of `read`.
pub record Request : Type 0 where
  pub expected : List Command
  pub info : AdbInfo
  pub allow_zeros : Bool

-- The arguments of a call of `connect`, which has no callback here.
pub record Login : Type 0 where
  pub banner : List ℕ
  pub keys : List Signer
  pub auth_timeout_s : Option ℕ
  pub info : AdbInfo
  pub tls_priv_pem : Option (List ℕ)

-- Where a task stands. `wait` is before an acquisition, `inside` behind it; a number is `start`.
pub data Pc : Type 0 where
  -- read: the store first, then the clock
  find_wait find_inside timer : Pc
  -- the round of `while True`, under the transport's lock
  transport_wait again_wait again_inside receiving : ℕ → Pc
  put_wait put_inside clear_wait clear_inside : ℕ → Packet → Pc
  -- the test of the clock, with no lock
  clock : ℕ → Pc
  send_wait send_inside : AdbMessage → AdbInfo → Pc
  close_wait close_inside close_store_wait close_store_inside : Pc
  -- connect keeps the transport's lock to its end
  connect_wait connect_inside connect_store_wait connect_store_inside connecting : Login → Pc
  -- over
  returned : Packet → Pc
  finished : Pc
  raised : Error → Pc

-- What the tasks share; a lock names its owner.
pub record Shared (D : Type 0) : Type 0 where
  pub store : PacketStore
  pub transport : D
  pub transport_lock : Option ℕ
  pub store_lock : Option ℕ

abbrev pub Out : Type 0 → Type 0
Out D = Option (Pc × Shared D)

-- The end of the first look at the store.
abbrev pub after_find : Result (Option Packet) → Pc
after_find (ok (some p)) = returned p
after_find (ok none) = timer
after_find (err e) = raised e

-- if cmd in expected_cmds: return ...
abbrev pub answered : Request → ℕ → Packet → Pc
answered q start p = if is_expected p.cmd q.expected then returned p else clock start

abbrev pub after_clock : ℕ → Result (Unit {0}) → Pc
after_clock start (ok _) = transport_wait start
after_clock start (err e) = raised e

abbrev pub after_time : Result ℕ → Pc
after_time (ok start) = transport_wait start
after_time (err e) = raised e

abbrev pub after_login : Result ℕ → Pc
after_login (ok maxdata) = finished
after_login (err e) = raised e

abbrev pub after_send : Result (Unit {0}) → Pc
after_send (ok _) = finished
after_send (err e) = raised e

module _ {D : Type 0} where
  -- A lock that is taken lets nobody in.
  abbrev pub acquire_store : ℕ → Pc → Shared D → Option ℕ → Out D
  acquire_store k pc s none = some (pc, record s { store_lock = some k })
  acquire_store k pc s (some j) = none

  abbrev pub acquire_transport : ℕ → Pc → Shared D → Option ℕ → Out D
  acquire_transport k pc s none = some (pc, record s { transport_lock = some k })
  acquire_transport k pc s (some j) = none

  abbrev pub leave_store : Shared D → Shared D
  leave_store s = record s { store_lock = none }

  abbrev pub leave_transport : Shared D → Shared D
  leave_transport s = record s { transport_lock = none }

  abbrev pub leave_both : Shared D → Shared D
  leave_both s = leave_transport (leave_store s)

  -- The end of the second one: with nothing found the transport's lock is kept.
  abbrev pub after_again : ℕ → Result (Option Packet) → Shared D → Pc × Shared D
  after_again start (ok (some p)) s = (returned p, leave_both s)
  after_again start (ok none) s = (receiving start, leave_store s)
  after_again start (err e) s = (raised e, leave_both s)

  abbrev pub after_packet : Request → ℕ → Result Packet → Shared D → Pc × Shared D
  after_packet q start (err e) s = (raised e, leave_transport s)
  after_packet q start (ok p) s =
      if args_match q.info p.arg0 p.arg1 q.allow_zeros
      then (if same_command p.cmd clse
          then (clear_wait start p, s)
          else (answered q start p, leave_transport s))
      else (put_wait start p, s)

module _ {D : Type 0} (t : Transport D) (credentials : Credentials) (fuel : ℕ) where
  -- The move of task k, if no lock keeps it waiting.
  unfoldable pub move : ℕ → Request → Pc → Shared D → Out D
  move k q find_wait s = acquire_store k find_inside s s.store_lock
  move k q find_inside s =
      let (r, store) = drain q.expected q.info q.allow_zeros s.store in
      some (after_find r, leave_store (record s { store = store }))
  move k q timer s =
      let (r, d) = now t s.transport in some (after_time r, record s { transport = d })
  move k q (transport_wait start) s = acquire_transport k (again_wait start) s s.transport_lock
  move k q (again_wait start) s = acquire_store k (again_inside start) s s.store_lock
  move k q (again_inside start) s =
      let (r, store) = drain q.expected q.info q.allow_zeros s.store in
      some (after_again start r (record s { store = store }))
  move k q (receiving start) s =
      let (r, d) = read_packet t fuel q.info s.transport in
      some (after_packet q start r (record s { transport = d }))
  move k q (put_wait start p) s = acquire_store k (put_inside start p) s s.store_lock
  move k q (put_inside start p) s = some (
    clock start,
    leave_both (record s { store = PacketStore.put p.arg0 p.arg1 p.cmd p.payload s.store }),
  )
  move k q (clear_wait start p) s = acquire_store k (clear_inside start p) s s.store_lock
  move k q (clear_inside start p) s = some (
    answered q start p,
    leave_both (record s { store = PacketStore.clear p.arg0 p.arg1 s.store }),
  )
  move k q (clock start) s =
      let (r, d) = unless_late t start q.info.read_timeout_s (pure tt) s.transport in
      some (after_clock start r, record s { transport = d })
  move k q (send_wait m info) s = acquire_transport k (send_inside m info) s s.transport_lock
  move k q (send_inside m info) s =
      let (r, d) = send t m info s.transport in
      some (after_send r, leave_transport (record s { transport = d }))
  move k q close_wait s = acquire_transport k close_inside s s.transport_lock
  move k q close_inside s = some (close_store_wait, record s { transport = t.close s.transport })
  move k q close_store_wait s = acquire_store k close_store_inside s s.store_lock
  move k q close_store_inside s = some (finished, leave_both (record s { store = clear_all }))
  move k q (connect_wait login) s = acquire_transport k (connect_inside login) s s.transport_lock
  move k q (connect_inside login) s =
      some (connect_store_wait login, record s { transport = t.close s.transport })
  move k q (connect_store_wait login) s =
      acquire_store k (connect_store_inside login) s s.store_lock
  move k q (connect_store_inside login) s =
      some (connecting login, leave_store (record s { store = clear_all }))
  move k q (connecting login) s =
      let (r, io) =
        handshake t credentials fuel login.banner login.keys login.auth_timeout_s none login.info
          login.tls_priv_pem (record { store = s.store; transport = s.transport }) in
      some
        (after_login r, leave_transport (record s { store = io.store; transport = io.transport }))
  move k q (returned p) s = none
  move k q finished s = none
  move k q (raised e) s = none

-- The tasks, each with its call, over what they share.
pub record System (D : Type 0) : Type 0 where
  pub shared : Shared D
  pub tasks : ℕ → Pc

abbrev pub update : (ℕ → Pc) → ℕ → Pc → ℕ → Pc
update tasks k pc j = if k == j then pc else tasks j

abbrev pub begins : Pc → Bool
begins find_wait = true
begins (send_wait m info) = true
begins close_wait = true
begins (connect_wait login) = true
begins _ = false

-- Nobody holds a lock, and every task is at its first line.
pub record IsInitial {D : Type 0} (s : System D) : Type 0 where
  pub transport_free : s.shared.transport_lock ≡ none
  pub store_free : s.shared.store_lock ≡ none
  pub first_line : (k : ℕ) → begins (s.tasks k) ≡ true

module _ {D : Type 0} (t : Transport D) (credentials : Credentials) (fuel : ℕ)
    (requests : ℕ → Request) where
  pub data Step (s : System D) : System D → Type 0 where
    pick :
        (k : ℕ) {pc : Pc} {shared : Shared D}
        → move t credentials fuel k (requests k) (s.tasks k) s.shared ≡ some (pc, shared)
        → Step s (record { shared = shared; tasks = update s.tasks k pc })

  pub data Reach (s : System D) : System D → Type 0 where
    here : Reach s s
    later : {u v : System D} → Reach s u → Step u v → Reach s v
