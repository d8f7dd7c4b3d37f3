-- ===== src/IoManager/Read.antt =====
-- `_AdbIOManager.read`: the packets that wait in the store first, then the device.
pub mod Drain
pub mod Isolation
pub mod Termination
use adb_shell.Common.{ℕ, zero, suc, List, Bool, Option, none, some, if◌then◌else◌}
use adb_shell.Errors.{Result, ok, err, out_of_fuel}
use adb_shell.Exec.{Exec, pure, raise, modify, ◌>>=◌, ◌>>◌}
use adb_shell.Constants.{Command, same_command, clse}
use adb_shell.TransactionInfo.{AdbInfo, args_match}
use adb_shell.PacketStore
use adb_shell.PacketStore.{PacketStore, Packet}
use adb_shell.PacketStore.Get.{size}
use adb_shell.Transport.{Transport}
use adb_shell.IoManager.{IoManager, is_expected, on_transport, on_store}
use adb_shell.IoManager.Packets.{read_packet, unless_late, now}

-- `find` or `find_allow_zeros`
unfoldable pub find_for : AdbInfo → Bool → PacketStore → Option (ℕ × ℕ)
find_for info allow_zeros s =
    if allow_zeros
    then PacketStore.find_allow_zeros info.remote_id info.local_id s
    else PacketStore.find info.remote_id info.local_id s

-- The loop `while arg0_arg1: ...` over the store: packets of this stream are taken out, oldest first,
-- until one is expected; the others are dropped.
unfoldable pub drain_from : ℕ → List Command → AdbInfo → Bool → Exec PacketStore (Option Packet)
drain_from zero expected info allow_zeros s = (err out_of_fuel, s)
drain_from (suc fuel) expected info allow_zeros s = elim (find_for info allow_zeros s) [
  | none ↦ (ok none, s)
  | some (key0, key1) ↦
      (do
        p ← PacketStore.get (some key0) (some key1)
        let rest = drain_from fuel expected info allow_zeros
        if is_expected p.cmd expected then pure (some p) else rest)
        s
]

-- The fuel is the number of packets in the store, and one more.
unfoldable pub drain : List Command → AdbInfo → Bool → Exec PacketStore (Option Packet)
drain expected info allow_zeros s = drain_from (suc (size s)) expected info allow_zeros s

module _ {D : Type 0} (t : Transport D) where
  -- A packet from the device: one of another stream goes to the store. `some` is what `read` returns.
  unfoldable pub sort_packet :
      List Command → AdbInfo → Bool → Packet → Exec (IoManager D) (Option Packet)
  sort_packet expected info allow_zeros p =
      if args_match info p.arg0 p.arg1 allow_zeros
      then (do
        if same_command p.cmd clse
            then on_store (modify (PacketStore.clear p.arg0 p.arg1))
            else pure tt
        if is_expected p.cmd expected then pure (some p) else pure none)
      else (do on_store (modify (PacketStore.put p.arg0 p.arg1 p.cmd p.payload)); pure none)

  -- With nothing found in the store, a packet is read from the device.
  unfoldable pub found_or_next :
      ℕ → List Command → AdbInfo → Bool → Option Packet → Exec (IoManager D) (Option Packet)
  found_or_next fuel expected info allow_zeros (some p) = pure (some p)
  found_or_next fuel expected info allow_zeros none = do
    p ← on_transport (read_packet t fuel info)
    sort_packet expected info allow_zeros p

  -- One round of `while True`: `none` goes on to the test of the clock.
  unfoldable pub read_round : ℕ → List Command → AdbInfo → Bool → Exec (IoManager D) (Option Packet)
  read_round fuel expected info allow_zeros = do
    found ← on_store (drain expected info allow_zeros)
    found_or_next fuel expected info allow_zeros found

  abbrev pub done_or : Option Packet → Exec (IoManager D) Packet → Exec (IoManager D) Packet
  done_or (some p) rest = pure p
  done_or none rest = rest

  -- if time.time() - start > limit: break, and then the timeout is raised
  unfoldable pub unless_late_io : ℕ → ℕ → Exec (IoManager D) Packet → Exec (IoManager D) Packet
  unless_late_io start limit rest = do on_transport (unless_late t start limit (pure tt)); rest

  unfoldable pub read_loop : ℕ → ℕ → ℕ → List Command → AdbInfo → Bool → Exec (IoManager D) Packet
  read_loop zero fuel start expected info allow_zeros = raise out_of_fuel
  read_loop (suc rounds) fuel start expected info allow_zeros = do
    found ← read_round fuel expected info allow_zeros
    let rest = read_loop rounds fuel start expected info allow_zeros
    done_or found (unless_late_io start info.read_timeout_s rest)

  unfoldable pub read : ℕ → List Command → AdbInfo → Bool → Exec (IoManager D) Packet
  read fuel expected info allow_zeros = do
    found ← on_store (drain expected info allow_zeros)
    done_or found
        (do start ← on_transport (now t); read_loop fuel fuel start expected info allow_zeros)
