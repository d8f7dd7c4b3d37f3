-- ===== src/Device/Session.antt =====
-- One service, or one pull, of AdbDevice (adb_device.py) over a connection, from `_open` to the device's
-- `CLSE`: what the two sides write, packet by packet.
pub mod Lines
pub mod Opening
pub mod Closing
pub mod Shell
pub mod Feeding
pub mod Buffering
pub mod Replies
pub mod Pulling
pub mod Requests
pub mod Pull
pub mod Download
use adb_shell.Common.{ℕ, ◌<◌, List, [], ◌∷◌, ◌++◌, All, length}
use adb_shell.Constants.{clse, okay, open_stream, wrte}
use adb_shell.PacketStore.{Packet}
use adb_shell.IoManager.Session.Wires.{Fits, bytes_of, wires}
use adb_shell.IoManager.Session.Reads.{IsOther}

-- The packets of a stream with the local id `l` and the device's id `r`: the host's `OPEN`, the device's
-- `OKAY`, its `WRTE`, the host's `OKAY`, the device's `CLSE` and the host's.
abbrev pub opening : ℕ → List ℕ → Packet
opening l destination = record {
  cmd = open_stream;
  arg0 = l;
  arg1 = 0;
  payload = destination ++ 0 ∷ [];
}

abbrev pub opened : ℕ → ℕ → Packet
opened l r = record { cmd = okay; arg0 = r; arg1 = l; payload = [] }

abbrev pub written : ℕ → ℕ → List ℕ → Packet
written l r chunk = record { cmd = wrte; arg0 = r; arg1 = l; payload = chunk }

abbrev pub acknowledged : ℕ → ℕ → Packet
acknowledged l r = record { cmd = okay; arg0 = l; arg1 = r; payload = [] }

abbrev pub closed : ℕ → ℕ → Packet
closed l r = record { cmd = clse; arg0 = r; arg1 = l; payload = [] }

abbrev pub closing : ℕ → ℕ → Packet
closing l r = record { cmd = clse; arg0 = l; arg1 = r; payload = [] }

-- What the device sends in one `WRTE`, behind packets of other streams.
pub record Piece : Type 0 where
  pub before : List Packet
  pub chunk : List ℕ

-- All that comes from the device once the stream is open.
unfoldable pub spoken : ℕ → ℕ → List Piece → List Packet → List ℕ
spoken l r [] last = wires last ++ bytes_of (closed l r)
spoken l r (c ∷ cs) last = wires c.before ++ (bytes_of (written l r c.chunk) ++ spoken l r cs last)

-- All that the host writes then: an `OKAY` for each `WRTE`, and its `CLSE`.
unfoldable pub answered : ℕ → ℕ → List Piece → List ℕ
answered l r [] = bytes_of (closing l r)
answered l r (c ∷ cs) = bytes_of (acknowledged l r) ++ answered l r cs

-- Fewer packets of other streams than a loop has rounds.
pub record AreOthers (l fuel : ℕ) (ps : List Packet) : Type 0 where
  pub few : length ps < fuel
  pub all : All (IsOther l fuel) ps

pub record IsPiece (l r fuel : ℕ) (c : Piece) : Type 0 where
  pub others : AreOthers l fuel c.before
  pub fits : Fits fuel (written l r c.chunk)
