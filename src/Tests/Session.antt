-- ===== src/Tests/Session.antt =====
-- A shell command over a recorded transport, from its `OPEN` to its `CLSE`.
use adb_shell.Common.{refl, List, [], ◌∷◌, ◌++◌, true, none, arith}
use adb_shell.Common.Text.{encode}
use adb_shell.Constants.{wrte}
use adb_shell.PacketStore.{Packet, clear_all}
use adb_shell.Transport.{Transport}
use adb_shell.Transport.Script.{Script, scripted, scripted-Duplex}
use adb_shell.IoManager.Session.Idle.{clear_all-IsIdle}
use adb_shell.Device.{AdbDevice}
use adb_shell.Device.Streams.{Limits, next_local_id}
use adb_shell.Device.Services.{shell, exec_out, shell_name, exec_name}
use adb_shell.Device.Session.{Piece, AreOthers}
use adb_shell.Device.Session.Opening.{IsPatient}
use adb_shell.Device.Session.Shell.{IsSession, RanToEnd, answer, shell_lem, exec_out_lem}

abbrev tiny : Transport Script
tiny = scripted 4 true

-- A packet for the stream 7.
abbrev stray : Packet
stray = record { cmd = wrte; arg0 = 3; arg1 = 7; payload = 1 ∷ 2 ∷ [] }

abbrev strays : List Packet
strays = stray ∷ []

abbrev pieces : List Piece
pieces =
    record { before = strays; chunk = b'h' ∷ b'e' ∷ [] }
    ∷ record { before = []; chunk = b'y' ∷ [] }
    ∷ []

abbrev limits : Limits
limits = record { transport_timeout_s = none; read_timeout_s = 9; timeout_s = none }

abbrev device : AdbDevice Script
device = record {
  io = record {
    store = [];
    transport = record { incoming = answer 1 5 strays pieces [] (200 ∷ []); sent = []; clock = 0 };
  };
  available = true;
  banner = [];
  default_transport_timeout_s = none;
  local_id = 0;
  maxdata = 4096;
}

strays_lem : AreOthers 1 40 strays
strays_lem = record {
  few = omega arith;
  all = (record { other = omega arith; nonzero = omega arith; fits = omega arith }, tt);
}

patient : IsPatient 0 limits
patient = record { each = omega arith; total = λ k e. omega arith }

nobody : AreOthers 1 40 []
nobody = record { few = omega arith; all = tt }

session : IsSession 1 5 40 (shell_name ++ (b':' ∷ encode (b'l' ∷ []))) strays pieces []
unfolding encode
session = record {
  header = omega arith;
  request = omega arith;
  device_id = omega arith;
  others = strays_lem;
  rounds = omega arith;
  pieces = (
    record { others = strays_lem; fits = omega arith },
    (record { others = nobody; fits = omega arith }, tt),
  );
  end = nobody;
}

shell_lem_example :
    RanToEnd tiny
      (λ d. d.incoming)
      (λ d. d.sent)
      0
      0
      (scripted-Duplex 4)
      device
      5
      40
      limits
      strays
      pieces
      []
      (200 ∷ [])
      shell_name
      (encode (b'l' ∷ []))
      true
      (shell tiny 40 (b'l' ∷ []) limits true)
unfolding next_local_id clear_all
shell_lem_example =
    shell_lem tiny (λ d. d.incoming) (λ d. d.sent) 0 0 (scripted-Duplex 4) device 5 40 limits strays
      pieces [] (200 ∷ []) (b'l' ∷ []) true refl (clear_all-IsIdle 1) patient session refl

exec-IsSession : IsSession 1 5 40 (exec_name ++ (b':' ∷ encode (b'l' ∷ []))) strays pieces []
unfolding encode
exec-IsSession = record {
  header = omega arith;
  request = omega arith;
  device_id = omega arith;
  others = strays_lem;
  rounds = omega arith;
  pieces = (
    record { others = strays_lem; fits = omega arith },
    (record { others = nobody; fits = omega arith }, tt),
  );
  end = nobody;
}

exec_out_lem_example :
    RanToEnd tiny
      (λ d. d.incoming)
      (λ d. d.sent)
      0
      0
      (scripted-Duplex 4)
      device
      5
      40
      limits
      strays
      pieces
      []
      (200 ∷ [])
      exec_name
      (encode (b'l' ∷ []))
      true
      (exec_out tiny 40 (b'l' ∷ []) limits true)
unfolding next_local_id clear_all
exec_out_lem_example =
    exec_out_lem tiny (λ d. d.incoming) (λ d. d.sent) 0 0 (scripted-Duplex 4) device 5 40 limits
      strays pieces [] (200 ∷ []) (b'l' ∷ []) true refl (clear_all-IsIdle 1) patient exec-IsSession
      refl
