-- ===== src/Tests/Download.antt =====
-- A file pulled over a recorded transport, from its `OPEN` to its `CLSE`.
use adb_shell.Common.{ℕ, ◌≡◌, refl, All, false, List, [], ◌∷◌, true, none, arith}
use adb_shell.Common.Text.{encode}
use adb_shell.Errors.{ok}
use adb_shell.Constants.{wrte, recv, filesync_id_to_wire}
use adb_shell.PacketStore.{Packet, clear_all}
use adb_shell.Message.Struct.{words}
use adb_shell.Transport.{Transport}
use adb_shell.Transport.Script.{Script, scripted, scripted-Duplex}
use adb_shell.IoManager.Session.Idle.{clear_all-IsIdle}
use adb_shell.IoManager.Session.Wires.{Fits}
use adb_shell.Device.{AdbDevice}
use adb_shell.Device.Streams.{join, next_local_id}
use adb_shell.Device.Files.{Transfer, pull, limits_of}
use adb_shell.Device.Session.{Piece, AreOthers}
use adb_shell.Device.Session.Opening.{IsPatient}
use adb_shell.Device.Session.Closing.{chunks}
use adb_shell.Device.Session.Replies.{packet}
use adb_shell.Device.Session.Requests.{requested}
use adb_shell.Device.Session.Feeding.{IsFull}
use adb_shell.Device.Session.Pulling.{file_packets}
use adb_shell.Device.Session.Pull.{IsPull, pull_answer}
use adb_shell.Device.Session.Download.{HasArrived, pull_lem}

abbrev tiny : Transport Script
tiny = scripted 4 true

-- A packet for the stream 7.
abbrev strays : List Packet
strays = record { cmd = wrte; arg0 = 3; arg1 = 7; payload = 1 ∷ 2 ∷ [] } ∷ []

-- Two blocks, cut inside the headers.
abbrev blocks : List (List ℕ)
blocks = (b'a' ∷ b'b' ∷ []) ∷ (b'c' ∷ []) ∷ []

abbrev pieces : List Piece
pieces =
    record { before = strays; chunk = b'D' ∷ b'A' ∷ b'T' ∷ b'A' ∷ 2 ∷ [] }
    ∷ record {
      before = [];
      chunk =
          0 ∷ 0 ∷ 0 ∷ b'a' ∷ b'b' ∷ b'D' ∷ b'A' ∷ b'T' ∷ b'A' ∷ 1 ∷ 0 ∷ 0 ∷ 0 ∷ b'c' ∷ b'D' ∷ [];
    }
    ∷ record { before = []; chunk = b'O' ∷ b'N' ∷ b'E' ∷ 0 ∷ 0 ∷ 0 ∷ 0 ∷ [] }
    ∷ []

blocks_sent : join (chunks pieces) ≡ file_packets blocks
unfolding join file_packets words filesync_id_to_wire
blocks_sent = refl

abbrev device : AdbDevice Script
device = record {
  io = record {
    store = [];
    transport = record {
      incoming = pull_answer 1 5 strays [] [] pieces (200 ∷ []);
      sent = [];
      clock = 0;
    };
  };
  available = true;
  banner = [];
  default_transport_timeout_s = none;
  local_id = 0;
  maxdata = 4096;
}

abbrev transfer : Transfer Script
transfer = record { device = device; stream = 9 ∷ []; progress = [] }

abbrev path : List ℕ
path = b'/' ∷ b'x' ∷ []

strays_lem : AreOthers 1 40 strays
strays_lem = record {
  few = omega arith;
  all = (record { other = omega arith; nonzero = omega arith; fits = omega arith }, tt);
}

nobody : AreOthers 1 40 []
nobody = record { few = omega arith; all = tt }

patient : IsPatient 0 (limits_of tiny 40 none 9)
patient = record { each = omega arith; total = λ k e. cc }

piece_lem : All (IsFull 1 5 40) pieces
piece_lem = (
  (record { others = strays_lem; fits = omega arith }, refl),
  (
    (record { others = nobody; fits = omega arith }, refl),
    ((record { others = nobody; fits = omega arith }, refl), tt),
  ),
)

asked : Fits 40 (requested 1 5 (packet recv (encode path)))
unfolding encode words
asked = omega arith

conditions : IsPull 1 5 40 4096 path strays [] [] pieces blocks
unfolding encode
conditions = record {
  header = omega arith;
  host_id = omega arith;
  device_id = omega arith;
  room = omega arith;
  request = asked;
  firsts = strays_lem;
  seconds = nobody;
  lasts = nobody;
  pieces = piece_lem;
  piece_rounds = omega arith;
  blocks_short = (omega arith, (omega arith, tt));
  block_rounds = omega arith;
  contents = blocks_sent;
}

pull_lem_example :
    HasArrived tiny
      (λ d. d.incoming)
      (λ d. d.sent)
      0
      0
      (scripted-Duplex 4)
      transfer
      5
      40
      none
      9
      path
      strays
      []
      []
      pieces
      blocks
      (200 ∷ [])
      (pull tiny 40 path (ok tt) false none 9)
unfolding next_local_id clear_all
pull_lem_example =
    pull_lem tiny (λ d. d.incoming) (λ d. d.sent) 0 0 (scripted-Duplex 4) transfer 5 40 none 9 path
      strays [] [] pieces blocks (200 ∷ []) refl (clear_all-IsIdle 1) patient conditions refl refl
