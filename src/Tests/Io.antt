-- ===== src/Tests/Io.antt =====
-- The I/O manager over a recorded transport.
use adb_shell.Common.{
  ℕ, ◌≡◌, ◌==◌, refl, List, [], ◌∷◌, ◌++◌, true, false, Option, none, some, arith, if◌then◌else◌,
}
use adb_shell.Errors.{ok, err, invalid_checksum}
use adb_shell.Constants.{okay, wrte, id_to_wire}
use adb_shell.Message.{checksum, new_message, pack}
use adb_shell.Message.Struct.{word, pack_fields}
use adb_shell.TransactionInfo.{AdbInfo}
use adb_shell.PacketStore.{PacketStore, Packet, put, clear_all, is_nonempty}
use adb_shell.PacketStore.Dicts.{IsValid, clear_all-IsValid}
use adb_shell.PacketStore.View.{entry, queue_at, packet_of}
use adb_shell.PacketStore.Get.{put-IsValid}
use adb_shell.Transport.{Transport, Credentials}
use adb_shell.Transport.Script.{Script, scripted, scripted-Delivers}
use adb_shell.IoManager.{IoManager}
use adb_shell.IoManager.Packets.{read_packet}
use adb_shell.IoManager.Packets.RoundTrip.{packet_received}
use adb_shell.IoManager.Read.{drain, read}
use adb_shell.IoManager.Read.Drain.{IsOurs, IsForeign, IsWanted, drain_cases}
use adb_shell.IoManager.Read.Isolation.{read_isolation, Grew}

abbrev tiny : Transport Script
tiny = scripted 4 true

-- The header of a `WRTE` from 5 to 1 with the data 200 100.
abbrev packed : List ℕ
packed =
    87 ∷ 82 ∷ 84 ∷ 69 ∷ 5 ∷ 0 ∷ 0 ∷ 0 ∷ 1 ∷ 0 ∷ 0 ∷ 0 ∷ 2 ∷ 0 ∷ 0 ∷ 0 ∷ 44 ∷ 1 ∷ 0 ∷ 0 ∷ 168 ∷ 173
    ∷ 171 ∷ 186 ∷ []

abbrev info : AdbInfo
info = record {
  local_id = some 1;
  remote_id = some 5;
  timeout_s = none;
  read_timeout_s = 9;
  transport_timeout_s = some 9;
}

abbrev world : Script
world = record { incoming = packed ++ (200 ∷ 101 ∷ 7 ∷ []); sent = []; clock = 0 }

packed_lem : pack (new_message wrte (some 5) (some 1) (200 ∷ 100 ∷ [])) ≡ ok packed
unfolding pack pack_fields new_message word checksum id_to_wire
packed_lem = refl

packet_received_example :
    (d' : Script) × (read_packet tiny 24 info world ≡ (
      if checksum (200 ∷ 101 ∷ []) == checksum (200 ∷ 100 ∷ [])
          then ok (packet_of wrte 5 1 (200 ∷ 101 ∷ []))
          else err invalid_checksum,
      d',
    ))
    × (d'.incoming ≡ 7 ∷ [])
packet_received_example =
    packet_received tiny (λ d. d.incoming) 0 0 (scripted-Delivers 4) info 24 wrte 5 1
      (200 ∷ 100 ∷ []) (200 ∷ 101 ∷ []) (7 ∷ []) packed world (omega arith) (omega arith)
      (omega arith) (omega arith) packed_lem refl (omega arith) (omega arith) refl

-- A `WRTE` of the stream 5-1 and one of the stream 6-2.
abbrev waiting : PacketStore
waiting = put 6 2 wrte (3 ∷ []) (put 5 1 wrte (9 ∷ []) clear_all)

waiting-IsValid : IsValid waiting
waiting-IsValid =
    put-IsValid 6 2 _ (put-IsValid 5 1 _ clear_all-IsValid wrte (9 ∷ [])) wrte (3 ∷ [])

drain_cases_example :
    (found : Option Packet) × (s' : PacketStore) × (drain (okay ∷ []) info false waiting
      ≡ (ok found, s'))
    × IsValid s'
    × ((b0 b1 : ℕ) → IsForeign (okay ∷ []) info false b0 b1 → entry b0 b1 s' ≡ entry b0 b1 waiting)
    × ((p : Packet) → found ≡ some p → IsWanted (okay ∷ []) info false p)
    × (found ≡ none
        → (b0 b1 : ℕ) → IsOurs (okay ∷ []) info false b0 b1
        → is_nonempty (queue_at b0 b1 s') ≡ false)
drain_cases_example = drain_cases (okay ∷ []) info false 1 waiting refl waiting-IsValid

abbrev manager : IoManager Script
manager = record { store = waiting; transport = world }

read_isolation_example :
    let (r, io') = read tiny 30 (wrte ∷ []) info false manager in
    IsValid io'.store
    × ((p : Packet) → r ≡ ok p → IsWanted (wrte ∷ []) info false p)
    × ((b0 b1 : ℕ)
        → IsForeign (wrte ∷ []) info false b0 b1
        → Grew (queue_at b0 b1 waiting) (queue_at b0 b1 io'.store))
read_isolation_example =
    read_isolation tiny 30 (wrte ∷ []) info false 1 manager refl waiting-IsValid

abbrev no_credentials : Credentials
no_credentials pem = ok ([], [])
