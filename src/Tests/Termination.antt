-- ===== src/Tests/Termination.antt =====
-- Reads that end, over a recorded transport whose clock counts its readings.
use adb_shell.Common.{◌≢◌, refl, [], ◌∷◌, false, none, some, arith}
use adb_shell.Errors.{err, out_of_fuel}
use adb_shell.Constants.{okay}
use adb_shell.TransactionInfo.{AdbInfo}
use adb_shell.PacketStore.Dicts.{clear_all-IsValid}
use adb_shell.PacketStore.{clear_all}
use adb_shell.Transport.{Transport}
use adb_shell.Transport.Script.{Script, scripted, scripted-Ticks}
use adb_shell.IoManager.Packets.{read_expected}
use adb_shell.IoManager.Packets.Termination.{read_expected_terminates}
use adb_shell.IoManager.Read.{read}
use adb_shell.IoManager.Read.Termination.{read_terminates}

abbrev counting : Transport Script
counting = scripted 4 false

abbrev info : AdbInfo
info = record {
  local_id = some 1;
  remote_id = some 5;
  timeout_s = none;
  read_timeout_s = 9;
  transport_timeout_s = some 9;
}

-- Nothing comes.
abbrev silent : Script
silent = record { incoming = []; sent = []; clock = 0 }

read_expected_terminates_example :
    (read_expected counting 20 (okay ∷ []) info silent).0 ≢ err out_of_fuel
read_expected_terminates_example =
    read_expected_terminates counting (λ d. d.clock) (scripted-Ticks 4) info (λ n timeout d e. cc)
      20 (okay ∷ []) silent (omega arith)

read_terminates_example :
    (read counting 10 (okay ∷ []) info false (record { store = clear_all; transport = silent })).0
    ≢ err out_of_fuel
read_terminates_example =
    read_terminates counting (λ d. d.clock) (scripted-Ticks 4) (okay ∷ []) info false 1 refl
      (λ n timeout d e. cc) 10 (omega arith) (record { store = clear_all; transport = silent })
      clear_all-IsValid
