-- ===== src/IoManager/Concurrent/Streams.antt =====
-- What tasks of _AdbIOManager (adb_device.py, adb_device_async.py) in any order do to the packet
-- store, and what their reads return.
use adb_shell.Common.{ℕ, ◌≡◌, true, false, some, arith, ◌==◌, inl, inr, Bool-cases}
use mathlib.Core.Path.{subst}
use adb_shell.PacketStore.{Packet}
use adb_shell.PacketStore.Dicts.{IsValid}
use adb_shell.PacketStore.View.{queue_at}
use adb_shell.Transport.{Transport, Credentials}
use adb_shell.IoManager.Read.Isolation.{Grew, Grew-refl, Grew-trans}
use adb_shell.IoManager.Concurrent.{
  Request, Pc, find_wait, send_wait, close_wait, connect_wait, returned, Shared, Out, move, System,
  update, begins, IsInitial, Step, pick, Reach, here, later,
}
use adb_shell.IoManager.Concurrent.Moves.{
  clears, Foreign, Wanted, Knows, IsSound, SoundOut, move_sound,
}

-- What is known of all tasks.
pub record IsSorted {D : Type 0} (requests : ℕ → Request) (s : System D) : Type 0 where
  pub valid : IsValid s.shared.store
  pub knows : (k : ℕ) → Knows (requests k) (s.tasks k)

at_first_line : (q : Request) (pc : Pc) → begins pc ≡ true → Knows q pc
at_first_line q find_wait e = tt
at_first_line q (send_wait m info) e = tt
at_first_line q close_wait e = tt
at_first_line q (connect_wait login) e = tt
at_first_line q _ e = absurd cc

updated :
    (P : ℕ → Pc → Type 0) (tasks : ℕ → Pc) (k j : ℕ) (pc : Pc)
    → P k pc
    → P j (tasks j)
    → P j (update tasks k pc j)
updated P tasks k j pc new old = elim (Bool-cases (k == j)) [
  | inl q ↦ rw q (subst (λ i. P i pc) (ground arith) new)
  | inr q ↦ rw q old
]

module _ {D : Type 0} (t : Transport D) (credentials : Credentials) (fuel : ℕ)
    (requests : ℕ → Request) (own : (k : ℕ) → (l : ℕ) × ((requests k).info.local_id ≡ some l)) where
  sound_out :
      (q : Request) (pc : Pc) (s : Shared D) (out : Out D) (pc' : Pc) (s' : Shared D)
      → out ≡ some (pc', s')
      → SoundOut q pc s out
      → IsSound q pc s.store pc' s'.store
  sound_out q pc s out pc' s' e h = subst (λ o. SoundOut q pc s o) e h

  picked :
      (s : System D) (k : ℕ) (pc : Pc) (shared : Shared D)
      → move t credentials fuel k (requests k) (s.tasks k) s.shared ≡ some (pc, shared)
      → IsSorted requests s
      → IsSound (requests k) (s.tasks k) s.shared.store pc shared.store
  picked s k pc shared e h =
      let (l, o) = own k in
      sound_out (requests k) (s.tasks k) s.shared _ pc shared e
        (move_sound t credentials fuel k (requests k) l (s.tasks k) s.shared o h.valid (h.knows k))

  IsSorted-once :
      {s s' : System D}
      → Step t credentials fuel requests s s'
      → IsSorted requests s
      → IsSorted requests s'
  IsSorted-once {s} (pick k {pc} {shared} e) h =
      let m = picked s k pc shared e h in
      record {
        valid = m.valid;
        knows = λ j. updated (λ i x. Knows (requests i) x) s.tasks k j pc m.knows (h.knows j);
      }

  IsSorted-ever :
      {s s' : System D}
      → Reach t credentials fuel requests s s'
      → IsSorted requests s
      → IsSorted requests s'
  IsSorted-ever here h = h
  IsSorted-ever (later r x) h = IsSorted-once x (IsSorted-ever r h)

  abbrev IsOpen : System D → Type 0
  IsOpen s = (k : ℕ) → clears (s.tasks k) ≡ false

  others_once :
      {s s' : System D} (b0 b1 : ℕ)
      → Step t credentials fuel requests s s'
      → IsSorted requests s
      → IsOpen s
      → ((k : ℕ) → Foreign (requests k) b0 b1)
      → IsOpen s' × Grew (queue_at b0 b1 s.shared.store) (queue_at b0 b1 s'.shared.store)
  others_once {s} b0 b1 (pick k {pc} {shared} e) h o f =
      let m = picked s k pc shared e h in
      (
        λ j. updated (λ i x. clears x ≡ false) s.tasks k j pc (m.still_open (o k)) (o j),
        m.others (o k) b0 b1 (f k),
      )

  others_ever :
      {s s' : System D} (b0 b1 : ℕ)
      → Reach t credentials fuel requests s s'
      → IsSorted requests s
      → IsOpen s
      → ((k : ℕ) → Foreign (requests k) b0 b1)
      → IsOpen s' × Grew (queue_at b0 b1 s.shared.store) (queue_at b0 b1 s'.shared.store)
  others_ever b0 b1 here h o f = (o, Grew-refl _)
  others_ever b0 b1 (later r x) h o f =
      let (o', g) = others_ever b0 b1 r h o f in
      let (o'', g') = others_once b0 b1 x (IsSorted-ever r h) o' f in (o'', Grew-trans _ _ _ g g')

-- Tasks that begin at the first lines of `read`, `send`, `connect` and `close` with both locks free and a valid
-- store, where each request has a local id: whatever the transport does and in whatever order the tasks
-- go on, the store stays valid; a packet that a `read` returns is expected and of the stream that it was
-- asked for; and, where no task closes or connects, the queue of a stream that nobody reads keeps its packets in
-- order, with new ones only behind them.
pub interleaved_reads :
    {D : Type 0} (t : Transport D) (credentials : Credentials) (fuel : ℕ) (requests : ℕ → Request)
    (s s' : System D)
    → ((k : ℕ) → (l : ℕ) × ((requests k).info.local_id ≡ some l))
    → IsInitial s
    → IsValid s.shared.store
    → Reach t credentials fuel requests s s'
    → IsValid s'.shared.store
      × ((k : ℕ) (p : Packet) → s'.tasks k ≡ returned p → Wanted (requests k) p)
      × (((k : ℕ) → clears (s.tasks k) ≡ false)
          → (b0 b1 : ℕ) → ((k : ℕ) → Foreign (requests k) b0 b1)
          → Grew (queue_at b0 b1 s.shared.store) (queue_at b0 b1 s'.shared.store))
interleaved_reads t credentials fuel requests s s' own i v r =
    let first : IsSorted requests s = record {
      valid = v;
      knows = λ k. at_first_line (requests k) (s.tasks k) (i.first_line k);
    } in
    let last = IsSorted-ever t credentials fuel requests own r first in
    (
      last.valid,
      λ k p e. subst (λ x. Knows (requests k) x) e (last.knows k),
      λ o b0 b1 f. (others_ever t credentials fuel requests own b0 b1 r first o f).1,
    )
