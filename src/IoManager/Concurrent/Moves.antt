-- ===== src/IoManager/Concurrent/Moves.antt =====
-- What one move of a task of _AdbIOManager (adb_device.py, adb_device_async.py) does to the packet
-- store, and what the task then knows.
use adb_shell.Common.{
  ℕ, ◌≡◌, refl, sym, Bool, true, false, Option, none, some, arith, inl, inr, Bool-cases,
}
use mathlib.Core.List.{[], append-nil}
use mathlib.Core.Path.{subst}
use adb_shell.Errors.{Result, ok, err}
use adb_shell.Constants.{same_command, clse}
use adb_shell.TransactionInfo.{args_match}
use adb_shell.PacketStore
use adb_shell.PacketStore.{PacketStore, Packet}
use adb_shell.PacketStore.Dicts.{IsValid, clear_all-IsValid}
use adb_shell.PacketStore.View.{or_empty, queue_at, entry-clear}
use adb_shell.PacketStore.Get.{put-IsValid, clear-IsValid}
use adb_shell.Transport.{Transport, Credentials}
use adb_shell.IoManager.{is_expected}
use adb_shell.IoManager.Packets.{now}
use adb_shell.IoManager.Read.Drain.{
  IsOurs, IsForeign, IsWanted, Drained, drain_lem, foreign-ne-ours,
}
use adb_shell.IoManager.Read.Isolation.{Grew, Grew-refl, Grew-put}
use adb_shell.Exec.Rules.{Keeps-pure}
use adb_shell.IoManager.Connect.{run_callback}
use adb_shell.IoManager.Invariant.{handshake-IsSound}
use adb_shell.IoManager.Concurrent.{
  Request, Pc, find_wait, find_inside, timer, transport_wait, again_wait, again_inside, receiving,
  put_wait, put_inside, clear_wait, clear_inside, clock, send_wait, send_inside, close_wait,
  connect_wait, connect_inside, connect_store_wait, connect_store_inside, connecting, Login,
  after_login, close_inside, close_store_wait, close_store_inside, returned, finished, raised,
  Shared, Out, after_find, after_again, after_packet, answered, after_clock, after_time, after_send,
  acquire_store, acquire_transport, move,
}

abbrev pub clears : Pc → Bool
clears close_wait = true
clears close_inside = true
clears close_store_wait = true
clears close_store_inside = true
clears (connect_wait login) = true
clears (connect_inside login) = true
clears (connect_store_wait login) = true
clears (connect_store_inside login) = true
clears (connecting login) = true
clears _ = false

abbrev pub Foreign : Request → ℕ → ℕ → Type 0
Foreign q b0 b1 = IsForeign q.expected q.info q.allow_zeros b0 b1

abbrev pub Wanted : Request → Packet → Type 0
Wanted q p = IsWanted q.expected q.info q.allow_zeros p

-- What a task knows of the packet that it carries.
abbrev pub Knows : Request → Pc → Type 0
Knows q (clear_wait start p) = IsOurs q.expected q.info q.allow_zeros p.arg0 p.arg1
Knows q (clear_inside start p) = IsOurs q.expected q.info q.allow_zeros p.arg0 p.arg1
Knows q (returned p) = Wanted q p
Knows q _ = Unit

-- A move from line `pc` to line `pc'`, and from one store to another.
pub record IsSound (q : Request) (pc : Pc) (store : PacketStore) (pc' : Pc) (store' : PacketStore)
    : Type 0 where
  pub valid : IsValid store'
  pub knows : Knows q pc'
  pub still_open : clears pc ≡ false → clears pc' ≡ false
  pub others :
      clears pc ≡ false
      → (b0 b1 : ℕ) → Foreign q b0 b1
      → Grew (queue_at b0 b1 store) (queue_at b0 b1 store')

-- A move that leaves the store alone.
calm :
    (q : Request) (pc pc' : Pc) (store : PacketStore)
    → IsValid store
    → Knows q pc'
    → (clears pc ≡ false → clears pc' ≡ false)
    → IsSound q pc store pc' store
calm q pc pc' store v k c = record {
  valid = v;
  knows = k;
  still_open = c;
  others = λ o b0 b1 f. Grew-refl (queue_at b0 b1 store);
}

abbrev pub SoundOut : {D : Type 0} → Request → Pc → Shared D → Out D → Type 0
SoundOut q pc s none = Unit {0}
SoundOut q pc s (some (pc', s')) = IsSound q pc s.store pc' s'.store

module _ (q : Request) where
  by_drain :
      (pc pc' : Pc) (s : PacketStore) (r : Result (Option Packet)) (s' : PacketStore)
      → Drained q.expected q.info q.allow_zeros s r s'
      → Knows q pc'
      → clears pc' ≡ false
      → IsSound q pc s pc' s'
  by_drain pc pc' s r s' d k c = record {
    valid = d.valid;
    knows = k;
    still_open = λ o. c;
    others = λ o b0 b1 f.
        subst (λ e. Grew (queue_at b0 b1 s) (or_empty e)) (sym (d.others b0 b1 f))
          (Grew-refl (queue_at b0 b1 s));
  }

  found_packet :
      (s : PacketStore) (p : Packet) (s' : PacketStore)
      → Drained q.expected q.info q.allow_zeros s (ok (some p)) s'
      → Wanted q p
  found_packet s p s' d = d.wanted p (ground (arith, d.returned))

  by_find :
      (pc : Pc) (s : PacketStore) (r : Result (Option Packet)) (s' : PacketStore)
      → Drained q.expected q.info q.allow_zeros s r s'
      → IsSound q pc s (after_find r) s'
  by_find pc s (ok (some p)) s' d = by_drain pc (returned p) s _ s' d (found_packet s p s' d) refl
  by_find pc s (ok none) s' d = by_drain pc timer s _ s' d tt refl
  by_find pc s (err e) s' d = by_drain pc (raised e) s _ s' d tt refl

  by_again :
      {D : Type 0} (pc : Pc) (s : PacketStore) (start : ℕ) (r : Result (Option Packet))
      (shared : Shared D)
      → Drained q.expected q.info q.allow_zeros s r shared.store
      → let (pc', shared') = after_again start r shared in IsSound q pc s pc' shared'.store
  by_again pc s start (ok (some p)) shared d =
      by_drain pc (returned p) s _ _ d (found_packet s p _ d) refl
  by_again pc s start (ok none) shared d = by_drain pc (receiving start) s _ _ d tt refl
  by_again pc s start (err e) shared d = by_drain pc (raised e) s _ _ d tt refl

  after_answer :
      (start : ℕ) (p : Packet)
      → IsOurs q.expected q.info q.allow_zeros p.arg0 p.arg1
      → Knows q (answered q start p)
  after_answer start p ours = elim (Bool-cases (is_expected p.cmd q.expected)) [
    | inl e ↦ rw e (e, ours)
    | inr e ↦ rw e tt
  ]

  open_answer : (start : ℕ) (p : Packet) → clears (answered q start p) ≡ false
  open_answer start p = ground arith

  by_packet :
      {D : Type 0} (pc : Pc) (start : ℕ) (r : Result Packet) (s : Shared D)
      → IsValid s.store
      → let (pc', s') = after_packet q start r s in IsSound q pc s.store pc' s'.store
  by_packet pc start (err e) s v = calm q pc (raised e) s.store v tt (λ o. refl)
  by_packet pc start (ok p) s v =
      elim (Bool-cases (args_match q.info p.arg0 p.arg1 q.allow_zeros)) [
        | inr foreign ↦ rw foreign (calm q pc (put_wait start p) s.store v tt (λ o. refl))
        | inl ours ↦ elim (Bool-cases (same_command p.cmd clse)) [
          | inl e ↦ rw (ours, e) (calm q pc (clear_wait start p) s.store v ours (λ o. refl))
          | inr e ↦
              rw (ours, e)
                (calm q pc (answered q start p) s.store v (after_answer start p ours)
                  (λ o. open_answer start p))
        ]
      ]

  by_clear :
      (pc : Pc) (start : ℕ) (p : Packet) (s : PacketStore)
      → IsValid s
      → IsOurs q.expected q.info q.allow_zeros p.arg0 p.arg1
      → IsSound q pc s (answered q start p) (PacketStore.clear p.arg0 p.arg1 s)
  by_clear pc start p s v ours = record {
    valid = clear-IsValid p.arg0 p.arg1 s v;
    knows = after_answer start p ours;
    still_open = λ o. open_answer start p;
    others = λ o b0 b1 f. (
      [],
      ground (
        arith,
        entry-clear p.arg0 p.arg1 b0 b1 s,
        foreign-ne-ours q.info q.allow_zeros p.arg0 p.arg1 b0 b1 ours f,
        append-nil (queue_at b0 b1 s),
      ),
    );
  }

  by_put :
      (pc : Pc) (start : ℕ) (p : Packet) (s : PacketStore)
      → IsValid s
      → IsSound q pc s (clock start) (PacketStore.put p.arg0 p.arg1 p.cmd p.payload s)
  by_put pc start p s v = record {
    valid = put-IsValid p.arg0 p.arg1 s v p.cmd p.payload;
    knows = tt;
    still_open = λ o. refl;
    others = λ o b0 b1 f. Grew-put p.arg0 p.arg1 b0 b1 p.cmd p.payload s;
  }

  by_clock :
      (pc : Pc) (start : ℕ) (r : Result (Unit {0})) (s : PacketStore)
      → IsValid s
      → IsSound q pc s (after_clock start r) s
  by_clock pc start (ok _) s v = calm q pc (transport_wait start) s v tt (λ o. refl)
  by_clock pc start (err e) s v = calm q pc (raised e) s v tt (λ o. refl)

  by_time : (pc : Pc) (r : Result ℕ) (s : PacketStore) → IsValid s → IsSound q pc s (after_time r) s
  by_time pc (ok start) s v = calm q pc (transport_wait start) s v tt (λ o. refl)
  by_time pc (err e) s v = calm q pc (raised e) s v tt (λ o. refl)

  by_send :
      (pc : Pc) (r : Result (Unit {0})) (s : PacketStore)
      → IsValid s
      → IsSound q pc s (after_send r) s
  by_send pc (ok _) s v = calm q pc finished s v tt (λ o. refl)
  by_send pc (err e) s v = calm q pc (raised e) s v tt (λ o. refl)

  by_login :
      (login : Login) (s : PacketStore) (r : Result ℕ) (s' : PacketStore)
      → IsValid s'
      → IsSound q (connecting login) s (after_login r) s'
  by_login login s (ok maxdata) s' v = record {
    valid = v;
    knows = tt;
    still_open = λ o. refl;
    others = λ o. absurd cc;
  }
  by_login login s (err e) s' v = record {
    valid = v;
    knows = tt;
    still_open = λ o. refl;
    others = λ o. absurd cc;
  }

  at_store :
      {D : Type 0} (k : ℕ) (pc pc' : Pc) (s : Shared D) (lock : Option ℕ)
      → IsValid s.store
      → Knows q pc'
      → (clears pc ≡ false → clears pc' ≡ false)
      → SoundOut q pc s (acquire_store k pc' s lock)
  at_store k pc pc' s none v kn c = calm q pc pc' s.store v kn c
  at_store k pc pc' s (some j) v kn c = tt

  at_transport :
      {D : Type 0} (k : ℕ) (pc pc' : Pc) (s : Shared D) (lock : Option ℕ)
      → IsValid s.store
      → Knows q pc'
      → (clears pc ≡ false → clears pc' ≡ false)
      → SoundOut q pc s (acquire_transport k pc' s lock)
  at_transport k pc pc' s none v kn c = calm q pc pc' s.store v kn c
  at_transport k pc pc' s (some j) v kn c = tt

module _ {D : Type 0} (t : Transport D) (credentials : Credentials) (fuel : ℕ) where
  pub move_sound :
      (k : ℕ) (q : Request) (l : ℕ) (pc : Pc) (s : Shared D)
      → q.info.local_id ≡ some l
      → IsValid s.store
      → Knows q pc
      → SoundOut q pc s (move t credentials fuel k q pc s)
  unfolding move run_callback
  move_sound k q l find_wait s own v kn =
      at_store q k find_wait find_inside s s.store_lock v tt (λ o. refl)
  move_sound k q l find_inside s own v kn =
      by_find q find_inside s.store _ _ (drain_lem q.expected q.info q.allow_zeros l own s.store v)
  move_sound k q l timer s own v kn = by_time q timer (now t s.transport).0 s.store v
  move_sound k q l (transport_wait start) s own v kn =
      at_transport q k (transport_wait start) (again_wait start) s s.transport_lock v tt (λ o. refl)
  move_sound k q l (again_wait start) s own v kn =
      at_store q k (again_wait start) (again_inside start) s s.store_lock v tt (λ o. refl)
  move_sound k q l (again_inside start) s own v kn =
      by_again q (again_inside start) s.store start _ _
        (drain_lem q.expected q.info q.allow_zeros l own s.store v)
  move_sound k q l (receiving start) s own v kn = by_packet q (receiving start) start _ _ v
  move_sound k q l (put_wait start p) s own v kn =
      at_store q k (put_wait start p) (put_inside start p) s s.store_lock v tt (λ o. refl)
  move_sound k q l (put_inside start p) s own v kn = by_put q (put_inside start p) start p s.store v
  move_sound k q l (clear_wait start p) s own v kn =
      at_store q k (clear_wait start p) (clear_inside start p) s s.store_lock v kn (λ o. refl)
  move_sound k q l (clear_inside start p) s own v kn =
      by_clear q (clear_inside start p) start p s.store v kn
  move_sound k q l (clock start) s own v kn = by_clock q (clock start) start _ s.store v
  move_sound k q l (send_wait m info) s own v kn =
      at_transport q k (send_wait m info) (send_inside m info) s s.transport_lock v tt (λ o. refl)
  move_sound k q l (send_inside m info) s own v kn = by_send q (send_inside m info) _ s.store v
  move_sound k q l close_wait s own v kn =
      at_transport q k close_wait close_inside s s.transport_lock v tt (λ o. absurd cc)
  move_sound k q l close_inside s own v kn =
      calm q close_inside close_store_wait s.store v tt (λ o. absurd cc)
  move_sound k q l close_store_wait s own v kn =
      at_store q k close_store_wait close_store_inside s s.store_lock v tt (λ o. absurd cc)
  move_sound k q l close_store_inside s own v kn = record {
    valid = clear_all-IsValid;
    knows = tt;
    still_open = λ o. refl;
    others = λ o. absurd cc;
  }
  move_sound k q l (connect_wait login) s own v kn =
      at_transport q k (connect_wait login) (connect_inside login) s s.transport_lock v tt
        (λ o. absurd cc)
  move_sound k q l (connect_inside login) s own v kn =
      calm q (connect_inside login) (connect_store_wait login) s.store v tt (λ o. absurd cc)
  move_sound k q l (connect_store_wait login) s own v kn =
      at_store q k (connect_store_wait login) (connect_store_inside login) s s.store_lock v tt
        (λ o. absurd cc)
  move_sound k q l (connect_store_inside login) s own v kn = record {
    valid = clear_all-IsValid;
    knows = tt;
    still_open = λ o. absurd cc;
    others = λ o. absurd cc;
  }
  move_sound k q l (connecting login) s own v kn = by_login q login s.store _ _ (
      (handshake-IsSound t credentials fuel login.banner login.keys login.auth_timeout_s none
          login.info login.tls_priv_pem (Keeps-pure tt)).at
        (record { store = s.store; transport = s.transport }) v)
  move_sound k q l (returned p) s own v kn = tt
  move_sound k q l finished s own v kn = tt
  move_sound k q l (raised e) s own v kn = tt
