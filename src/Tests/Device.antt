-- ===== src/Tests/Device.antt =====
-- Devices over a recorded transport.
use adb_shell.Common.{ℕ, ◌^◌, ◌<◌, ◌≡◌, refl, List, [], ◌∷◌, true, false, none, some, ◌⊎◌}
use adb_shell.Errors.{Error, ok, err}
use adb_shell.Constants.{okay, wrte, clse, id_to_wire, wire_to_id, same_command}
use adb_shell.Message.{checksum, new_message, pack, unpack}
use adb_shell.Message.Struct.{word, pack_fields, unpack_words}
use adb_shell.PacketStore.Dicts.{IsValid}
use adb_shell.TransactionInfo.{AdbInfo, args_match}
use adb_shell.Transport.{Transport, Credentials}
use adb_shell.Transport.Script.{Script, scripted}
use adb_shell.IoManager.Read
use adb_shell.Device.{AdbDevice, connect, new_device}
use adb_shell.Device.Streams
use adb_shell.Device.Streams.{Limits, Streaming, read_until, okay_stream}
use adb_shell.Exec.{◌>>=◌, zoom}
use adb_shell.IoManager.{is_expected}
use adb_shell.IoManager.Packets.{
  unless_late, read_rest, read_bytes, read_payload, read_packet, send,
}
use adb_shell.Common.Dict
use adb_shell.PacketStore
use adb_shell.PacketStore.{find, find_inner, find_allow_zeros, first_where, first_pair}
use adb_shell.Device.Services.{reboot, shell}
use adb_shell.Device.Invariant.Calls.{here, next, shell_call, reboot_call, reachable_sound}
use adb_shell.Device.Guards.{connect_available}

abbrev tiny : Transport Script
tiny = scripted 4 true

abbrev info : AdbInfo
info = record {
  local_id = some 1;
  remote_id = some 5;
  timeout_s = none;
  read_timeout_s = 9;
  transport_timeout_s = some 9;
}

-- The bytes of a `WRTE` from 5 to 1 with the data 200 100.
abbrev write_packet : List ℕ
write_packet =
    87 ∷ 82 ∷ 84 ∷ 69 ∷ 5 ∷ 0 ∷ 0 ∷ 0 ∷ 1 ∷ 0 ∷ 0 ∷ 0 ∷ 2 ∷ 0 ∷ 0 ∷ 0 ∷ 44 ∷ 1 ∷ 0 ∷ 0 ∷ 168 ∷ 173
    ∷ 171 ∷ 186 ∷ 200 ∷ 100 ∷ []

-- The header of an `OKAY` from 1 to 5.
abbrev okay_packet : List ℕ
okay_packet =
    79 ∷ 75 ∷ 65 ∷ 89 ∷ 1 ∷ 0 ∷ 0 ∷ 0 ∷ 5 ∷ 0 ∷ 0 ∷ 0 ∷ 0 ∷ 0 ∷ 0 ∷ 0 ∷ 0 ∷ 0 ∷ 0 ∷ 0 ∷ 176 ∷ 180
    ∷ 190 ∷ 166 ∷ []

abbrev world : Script
world = record { incoming = write_packet; sent = []; clock = 0 }

abbrev device : AdbDevice Script
device = record {
  io = record { store = []; transport = world };
  available = true;
  banner = b'h' ∷ [];
  default_transport_timeout_s = none;
  local_id = 1;
  maxdata = 4096;
}

okay_packet_lem : pack (new_message okay info.local_id info.remote_id []) ≡ ok okay_packet
unfolding pack pack_fields new_message word checksum id_to_wire
okay_packet_lem = refl

read_until_runs : (read_until tiny 40 (clse ∷ wrte ∷ []) info device).0 ≡ ok (wrte, 200 ∷ 100 ∷ [])
unfolding read_until zoom ◌>>=◌ Read.read Read.drain Read.drain_from Read.find_for Read.read_loop
    Read.read_round Read.found_or_next Read.sort_packet Read.unless_late_io is_expected unless_late
    read_rest read_bytes read_payload read_packet send okay_stream Streams.send pack unpack
    pack_fields unpack_words new_message word checksum id_to_wire wire_to_id same_command args_match
    find find_inner find_allow_zeros first_where first_pair PacketStore.put Dict.get
read_until_runs = refl

abbrev limits : Limits
limits = record { transport_timeout_s = none; read_timeout_s = 9; timeout_s = none }

abbrev no_credentials : Credentials
no_credentials pem = ok ([], [])

abbrev closed : AdbDevice Script
closed = record device { available = false }

abbrev start : AdbDevice Script
start = new_device tiny world none []

connect_available_example :
    let (r, d') = connect tiny no_credentials (ok (b'h' ∷ [])) 30 [] none none 9 none none device in
    ((r ≡ ok true) × (d'.available ≡ true))
    ⊎ ((e : Error) × (r ≡ err e) × (d'.available ≡ false) × (d'.maxdata ≡ 4096))
connect_available_example =
    connect_available tiny no_credentials (ok (b'h' ∷ [])) 30 [] none none 9 none none device

reachable_sound_example :
    let e = (shell tiny 30 (b'l' ∷ []) limits true (reboot tiny 30 false limits start).1).1 in
    IsValid e.io.store × (e.local_id < 2 ^ 32)
reachable_sound_example =
    reachable_sound tiny no_credentials (ok (b'h' ∷ [])) world none []
      (shell tiny 30 (b'l' ∷ []) limits true (reboot tiny 30 false limits start).1).1
      (next (next here (reboot_call 30 false limits)) (shell_call 30 (b'l' ∷ []) limits true))
