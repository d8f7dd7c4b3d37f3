-- ===== src/Tests/FileSync.antt =====
-- The send buffer of a file transfer.
use adb_shell.Common.{◌≡◌, refl, [], ◌∷◌, ◌++◌, true, none, some, arith, replicate}
use adb_shell.Errors.{ok}
use adb_shell.Exec.{◌>>=◌}
use adb_shell.Constants.{filesync_id_to_wire}
use adb_shell.Constants
use adb_shell.Message.Struct.{pack_words, pack_fields, word}
use adb_shell.TransactionInfo.{AdbInfo}
use adb_shell.FileSyncInfo.{
  FileSyncInfo, new_filesync, can_add_to_send_buffer, add_to_send_buffer, write_slice, pending,
}
use adb_shell.FileSyncInfo.Buffer.{IsValid, new_filesync-IsValid}
use adb_shell.Transport.Script.{Script, scripted}
use adb_shell.Device.{AdbDevice}
use adb_shell.Device.FileSync.{send_sized}
use adb_shell.Device.FileSync.Send.{send_sized_lem, filesync_packet}

abbrev info : AdbInfo
info = record {
  local_id = some 1;
  remote_id = some 5;
  timeout_s = none;
  read_timeout_s = 9;
  transport_timeout_s = some 9;
}

abbrev device : AdbDevice Script
device = record {
  io = record { store = []; transport = record { incoming = []; sent = []; clock = 0 } };
  available = true;
  banner = b'h' ∷ [];
  default_transport_timeout_s = none;
  local_id = 1;
  maxdata = 24;
}

-- The path `/d` of a RECV, in a buffer of 24 bytes.
abbrev received : FileSyncInfo
received = record {
  send_buffer = 82 ∷ 69 ∷ 67 ∷ 86 ∷ 2 ∷ 0 ∷ 0 ∷ 0 ∷ 47 ∷ 100 ∷ replicate 14 0;
  send_idx = 10;
  recv_buffer = [];
  recv_words = 2;
  maxdata = 24;
}

received_lem :
    (send_sized
      (scripted 4 true)
      9
      Constants.recv
      info
      (new_filesync 2 24)
      (47 ∷ 100 ∷ [])
      2
      device).0
    ≡ ok received
unfolding send_sized ◌>>=◌ new_filesync can_add_to_send_buffer add_to_send_buffer write_slice
    pack_words pack_fields word filesync_id_to_wire
received_lem = refl

send_sized_lem_example :
    IsValid received
    × (received.maxdata ≡ 24)
    × (pending received
        ≡ pending (new_filesync 2 24) ++ filesync_packet Constants.recv 2 (47 ∷ 100 ∷ []))
unfolding new_filesync can_add_to_send_buffer
send_sized_lem_example =
    send_sized_lem (scripted 4 true) 9 info Constants.recv (new_filesync 2 24) received
      (47 ∷ 100 ∷ []) 2 device (new_filesync-IsValid 2 24) (omega arith) (omega arith) received_lem
