-- ===== src/Tests/Tasks.antt =====
-- Two tasks of an I/O manager: one reads, the other sends.
use adb_shell.Common.{ℕ, ◌≡◌, ◌==◌, refl, [], ◌∷◌, true, false, none, some, arith, if◌then◌else◌}
use adb_shell.Constants.{okay, wrte}
use adb_shell.Message.{AdbMessage, new_message}
use adb_shell.TransactionInfo.{AdbInfo}
use adb_shell.PacketStore.{PacketStore, Packet, put, clear_all}
use adb_shell.PacketStore.Dicts.{IsValid, clear_all-IsValid}
use adb_shell.PacketStore.View.{queue_at}
use adb_shell.PacketStore.Get.{put-IsValid}
use adb_shell.Errors.{err, value_error}
use adb_shell.Transport.{Transport, Credentials}
use adb_shell.Transport.Script.{Script, scripted}
use adb_shell.IoManager.Read.{drain}
use adb_shell.IoManager.Read.Isolation.{Grew}
use adb_shell.IoManager.Concurrent.{
  Request, Pc, find_wait, find_inside, send_wait, send_inside, returned, after_find, Shared,
  leave_store, move, System, update, IsInitial, Step, pick, Reach, here, later,
}
use adb_shell.IoManager.Concurrent.Locks.{holds_transport, holds_store}
use adb_shell.IoManager.Concurrent.Progress.{mutual_exclusion, no_deadlock}
use adb_shell.IoManager.Concurrent.Moves.{clears, Foreign, Wanted}
use adb_shell.IoManager.Concurrent.Streams.{interleaved_reads}

abbrev radio : Transport Script
radio = scripted 4 true

abbrev no_key : Credentials
no_key pem = err value_error

abbrev stream_info : AdbInfo
stream_info = record {
  local_id = some 1;
  remote_id = some 5;
  timeout_s = none;
  read_timeout_s = 9;
  transport_timeout_s = some 9;
}

abbrev all_ask : ℕ → Request
all_ask k = record { expected = wrte ∷ []; info = stream_info; allow_zeros = false }

abbrev answer : AdbMessage
answer = new_message okay (some 1) (some 5) []

-- A packet of the stream 5-1, and one of another stream.
abbrev two_streams : PacketStore
two_streams = put 6 2 wrte (3 ∷ []) (put 5 1 wrte (9 ∷ []) clear_all)

two_streams-IsValid : IsValid two_streams
two_streams-IsValid =
    put-IsValid 6 2 _ (put-IsValid 5 1 _ clear_all-IsValid wrte (9 ∷ [])) wrte (3 ∷ [])

abbrev quiet : Shared Script
quiet = record {
  store = two_streams;
  transport = record { incoming = []; sent = []; clock = 0 };
  transport_lock = none;
  store_lock = none;
}

abbrev first_lines : ℕ → Pc
first_lines k = if k == 1 then send_wait answer stream_info else find_wait

abbrev s0 : System Script
s0 = record { shared = quiet; tasks = first_lines }

abbrev s1 : System Script
s1 = record {
  shared = record quiet { store_lock = some 0 };
  tasks = update first_lines 0 find_inside;
}

abbrev s2 : System Script
s2 = record {
  shared = record s1.shared { transport_lock = some 1 };
  tasks = update s1.tasks 1 (send_inside answer stream_info);
}

abbrev s3 : System Script
s3 = record {
  shared =
      leave_store
        (record s2.shared { store = (drain (wrte ∷ []) stream_info false two_streams).1 });
  tasks = update s2.tasks 0 (after_find (drain (wrte ∷ []) stream_info false two_streams).0);
}

reads_first : Step radio no_key 9 all_ask s0 s1
unfolding move
reads_first = pick 0 refl

sends_next : Step radio no_key 9 all_ask s1 s2
unfolding move
sends_next = pick 1 refl

reads_on : Step radio no_key 9 all_ask s2 s3
unfolding move
reads_on = pick 0 refl

both_inside : Reach radio no_key 9 all_ask s0 s2
both_inside = later (later here reads_first) sends_next

read_over : Reach radio no_key 9 all_ask s0 s3
read_over = later both_inside reads_on

s0-IsInitial : IsInitial s0
s0-IsInitial = record { transport_free = refl; store_free = refl; first_line = λ k. ground arith }

mutual_exclusion_example :
    (holds_transport (s2.tasks 1) ≡ true → holds_transport (s2.tasks 1) ≡ true → ◌≡◌ {A = ℕ} 1 1)
    × (holds_store (s2.tasks 1) ≡ true → holds_store (s2.tasks 1) ≡ true → ◌≡◌ {A = ℕ} 1 1)
mutual_exclusion_example =
    mutual_exclusion radio no_key 9 all_ask s0 s2 1 1 s0-IsInitial both_inside

no_deadlock_example : (s : System Script) × Step radio no_key 9 all_ask s2 s
no_deadlock_example = no_deadlock radio no_key 9 all_ask s0 s2 1 s0-IsInitial both_inside refl

interleaved_reads_example :
    IsValid s3.shared.store
    × ((k : ℕ) (p : Packet) → s3.tasks k ≡ returned p → Wanted (all_ask k) p)
    × (((k : ℕ) → clears (first_lines k) ≡ false)
        → (b0 b1 : ℕ) → ((k : ℕ) → Foreign (all_ask k) b0 b1)
        → Grew (queue_at b0 b1 two_streams) (queue_at b0 b1 s3.shared.store))
interleaved_reads_example =
    interleaved_reads radio no_key 9 all_ask s0 s3 (λ k. (1, refl)) s0-IsInitial two_streams-IsValid
      read_over
