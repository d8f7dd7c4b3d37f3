-- ===== src/PacketStore/View.antt =====
-- _AdbPacketStore (hidden_helpers.py) seen as a function from pairs of ids to queues.
use adb_shell.Common.{
  ℕ, ◌≡◌, refl, List, [], ◌∷◌, ◌++◌, Bool, false, ◌&&◌, Option, none, some, ◌==◌, arith, ◌⊎◌,
  if◌then◌else◌,
}
use adb_shell.Common.Dict
use adb_shell.Common.Dict.{Dict, dict_laws, get-put, get-remove, get-nil}
use adb_shell.Errors.{ok, err, key_error, queue_empty}
use adb_shell.Constants.{Command, same_command, clse}
use adb_shell.PacketStore.{PacketStore, Packet, Queue, put, clear, pop_at, is_nonempty}

-- The queue at a pair of ids, if there is one.
unfoldable pub entry : ℕ → ℕ → PacketStore → Option Queue
entry arg0 arg1 s = elim (Dict.get arg1 s) [ none ↦ none | some inner ↦ Dict.get arg0 inner ]

abbrev pub or_empty : Option Queue → Queue
or_empty none = []
or_empty (some queue) = queue

-- The packets that wait at a pair of ids, oldest first.
abbrev pub queue_at : ℕ → ℕ → PacketStore → Queue
queue_at arg0 arg1 s = or_empty (entry arg0 arg1 s)

abbrev pub same_pair : ℕ → ℕ → ℕ → ℕ → Bool
same_pair a0 a1 b0 b1 = a0 == b0 && a1 == b1

-- A queue with a packet put behind it; a `CLSE` opens no queue.
abbrev pub enqueued : Command → List ℕ → Option Queue → Option Queue
enqueued cmd payload (some queue) = some (queue ++ (cmd, payload) ∷ [])
enqueued cmd payload none = if same_command cmd clse then none else some ((cmd, payload) ∷ [])

module _ (b0 b1 : ℕ) where
  entry-write :
      (a1 : ℕ) (inner : Dict Queue) (s : PacketStore)
      → entry b0 b1 (Dict.put a1 inner s) ≡ (if a1 == b1 then Dict.get b0 inner else entry b0 b1 s)
  unfolding entry
  entry-write a1 inner s = ground (arith, get-put a1 b1 inner s)

  entry-remove :
      (a1 : ℕ) (s : PacketStore)
      → entry b0 b1 (Dict.remove a1 s) ≡ (if a1 == b1 then none else entry b0 b1 s)
  unfolding entry
  entry-remove a1 s = ground (arith, get-remove a1 b1 s)

pub entry_lem :
    (a0 a1 : ℕ) (s : PacketStore)
    → entry a0 a1 s ≡ elim (Dict.get a1 s) [ none ↦ none | some inner ↦ Dict.get a0 inner ]
unfolding entry
entry_lem a0 a1 s = refl

get_single : (k j : ℕ) (q : Queue) → Dict.get j ((k, q) ∷ []) ≡ (if k == j then some q else none)
unfolding Dict.get
get_single k j q = refl

get_nil : (d : Dict Queue) (k : ℕ) → is_nonempty d ≡ false → Dict.get k d ≡ none
unfolding Dict.get
get_nil [] k h = refl
get_nil (x ∷ d) k h = cc

-- What `put` does to the queue at each pair of ids: at its own pair the packet goes last, and opens
-- a queue unless it is a `CLSE`; every other pair is as it was.
pub entry-put :
    (a0 a1 b0 b1 : ℕ) (cmd : Command) (payload : List ℕ) (s : PacketStore)
    → entry b0 b1 (put a0 a1 cmd payload s)
      ≡ (if same_pair a0 a1 b0 b1 then enqueued cmd payload (entry a0 a1 s) else entry b0 b1 s)
unfolding put
entry-put a0 a1 b0 b1 cmd payload s =
    grind (arith, entry-write, entry_lem a0 a1 s, entry_lem b0 b1 s, get-put, get_single)

-- `clear` leaves no queue at its pair, and every other pair is as it was.
pub entry-clear :
    (a0 a1 b0 b1 : ℕ) (s : PacketStore)
    → entry b0 b1 (clear a0 a1 s) ≡ (if same_pair a0 a1 b0 b1 then none else entry b0 b1 s)
unfolding clear
entry-clear a0 a1 b0 b1 s =
    grind
      (arith, entry-write, entry-remove, entry_lem a0 a1 s, entry_lem b0 b1 s, get-remove, get_nil)

-- The packet at the head of a queue, as `get` hands it out.
abbrev pub packet_of : Command → ℕ → ℕ → List ℕ → Packet
packet_of cmd arg0 arg1 payload = record { cmd = cmd; arg0 = arg0; arg1 = arg1; payload = payload }

-- A queue behind its head, once the head was taken: a `CLSE` drops the queue.
abbrev pub dequeued : Command → Queue → Option Queue
dequeued cmd queue = if same_command cmd clse then none else some queue

module _ (a0 a1 : ℕ) (s : PacketStore) {cmd : Command} {payload : List ℕ} {queue : Queue}
    (waiting : entry a0 a1 s ≡ some ((cmd, payload) ∷ queue)) where
  pub pop_at_lem : (pop_at a0 a1 s).0 ≡ ok (packet_of cmd a0 a1 payload)
  unfolding pop_at
  pop_at_lem = grind (arith, entry_lem a0 a1 s)

  -- Where a queue has a packet at its head, `get` leaves the rest of the queue, or no queue if the
  -- packet is a `CLSE`; every other pair is as it was.
  pub entry-pop_at :
      (b0 b1 : ℕ)
      → entry b0 b1 (pop_at a0 a1 s).1
        ≡ (if same_pair a0 a1 b0 b1 then dequeued cmd queue else entry b0 b1 s)
  unfolding pop_at
  entry-pop_at b0 b1 =
      grind (arith, entry-write, entry-clear, entry_lem a0 a1 s, entry_lem b0 b1 s, get-put)

-- Taking from a pair with no packet changes nothing and raises.
pub pop_at_empty :
    (a0 a1 : ℕ) (s : PacketStore)
    → queue_at a0 a1 s ≡ []
    → ((pop_at a0 a1 s ≡ (err key_error, s)) ⊎ (pop_at a0 a1 s ≡ (err queue_empty, s)))
unfolding pop_at
pop_at_empty a0 a1 s h = ground (arith, entry_lem a0 a1 s)
