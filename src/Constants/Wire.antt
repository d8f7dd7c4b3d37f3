-- ===== src/Constants/Wire.antt =====
-- The tables of constants.py between commands and the integers on the wire.
use adb_shell.Common.{ℕ, ◌<◌, ◌^◌, ◌≡◌, refl, ◌↔◌, some, arith}
use adb_shell.Constants.{
  Command, id_to_wire, wire_to_id, FileSyncId, filesync_id_to_wire, filesync_wire_to_id,
}
use adb_shell.Constants.{auth}
use adb_shell.Constants.{data_chunk}

pub id_to_wire-lt : (c : Command) → id_to_wire c < 2 ^ 32
unfolding id_to_wire
id_to_wire-lt auth = omega arith
id_to_wire-lt _ = omega arith

wire_to_id-id_to_wire : (c : Command) → wire_to_id (id_to_wire c) ≡ some c
unfolding id_to_wire wire_to_id
wire_to_id-id_to_wire auth = refl
wire_to_id-id_to_wire _ = refl

id_to_wire-wire_to_id : (n : ℕ) (c : Command) → wire_to_id n ≡ some c → n ≡ id_to_wire c
unfolding id_to_wire wire_to_id
id_to_wire-wire_to_id n c h = ground arith

-- `WIRE_TO_ID` finds a command at an integer exactly when `ID_TO_WIRE` sends it there.
pub wire_to_id_iff : (n : ℕ) (c : Command) → (wire_to_id n ≡ some c) ↔ (n ≡ id_to_wire c)
wire_to_id_iff n c = (id_to_wire-wire_to_id n c, λ e. rw e (wire_to_id-id_to_wire c))

pub filesync_id_to_wire-lt : (c : FileSyncId) → filesync_id_to_wire c < 2 ^ 32
unfolding filesync_id_to_wire
filesync_id_to_wire-lt data_chunk = omega arith
filesync_id_to_wire-lt _ = omega arith

pub filesync_there : (c : FileSyncId) → filesync_wire_to_id (filesync_id_to_wire c) ≡ some c
unfolding filesync_id_to_wire filesync_wire_to_id
filesync_there data_chunk = refl
filesync_there _ = refl

filesync_back :
    (n : ℕ) (c : FileSyncId) → filesync_wire_to_id n ≡ some c → n ≡ filesync_id_to_wire c
unfolding filesync_id_to_wire filesync_wire_to_id
filesync_back n c h = ground arith

-- `FILESYNC_WIRE_TO_ID` finds an id at an integer exactly when `FILESYNC_ID_TO_WIRE` sends it there.
pub filesync_wire_to_id_iff :
    (n : ℕ) (c : FileSyncId) → (filesync_wire_to_id n ≡ some c) ↔ (n ≡ filesync_id_to_wire c)
filesync_wire_to_id_iff n c = (filesync_back n c, λ e. rw e (filesync_there c))
