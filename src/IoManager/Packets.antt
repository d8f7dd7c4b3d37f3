-- ===== src/IoManager/Packets.antt =====
-- Reading and writing whole packets: `_read_bytes_from_device`, `_read_packet_from_device`, `_send`
-- and `_read_expected_packet_from_device`, which only touch the transport.
-- A loop runs at most `fuel` rounds; `time() - start > limit` is tested on natural numbers, where a
-- clock that was set back gives a difference of 0.
pub mod RoundTrip
pub mod Termination
use adb_shell.Common.{
  ℕ, zero, suc, ◌+◌, ◌-◌, List, [], ◌∷◌, ◌++◌, Bool, Option, none, some, length, ltb, ◌==◌,
  if◌then◌else◌,
}
use adb_shell.Errors.{ok, adb_timeout, invalid_checksum, invalid_command, out_of_fuel}
use adb_shell.Exec.{Exec, pure, raise, lift, ◌>>=◌, ◌>>◌}
use adb_shell.Constants.{Command, wire_to_id, message_size}
use adb_shell.Message.{AdbMessage, pack, Header, unpack, checksum}
use adb_shell.TransactionInfo.{AdbInfo}
use adb_shell.PacketStore.{Packet, is_nonempty}
use adb_shell.Transport.{Transport}
use adb_shell.IoManager.{is_expected}

module _ {D : Type 0} (t : Transport D) where
  abbrev pub now : Exec D ℕ
  now d = let (n, d') = t.time d in (ok n, d')

  -- if time.time() - start > limit: raise AdbTimeoutError, and else go on
  unfoldable pub unless_late : {A : Type 0} → ℕ → ℕ → Exec D A → Exec D A
  unless_late start limit rest = do
    n ← now
    if ltb limit (n - start) then raise adb_timeout else rest

  -- `length` bytes are still to come. A read that returns too much ends the loop as well.
  unfoldable pub read_rest : ℕ → AdbInfo → ℕ → ℕ → List ℕ → Exec D (List ℕ)
  read_rest fuel info start zero so_far = pure so_far
  read_rest zero info start (suc n) so_far = raise out_of_fuel
  read_rest (suc fuel) info start (suc n) so_far = do
    temp ← t.bulk_read (suc n) info.transport_timeout_s
    let rest = read_rest fuel info start (suc n - length temp) (so_far ++ temp)
    if suc n == length temp
        then pure (so_far ++ temp)
        else unless_late start info.read_timeout_s rest

  unfoldable pub read_bytes : ℕ → ℕ → AdbInfo → Exec D (List ℕ)
  read_bytes fuel size info = do start ← now; read_rest fuel info start size []

  -- What follows the header.
  unfoldable pub read_payload : ℕ → AdbInfo → Command → Header → Exec D Packet
  read_payload fuel info cmd h =
      if h.data_length == 0
      then pure (record { cmd = cmd; arg0 = h.arg0; arg1 = h.arg1; payload = [] })
      else do
        payload ← read_bytes fuel h.data_length info
        if checksum payload == h.data_checksum
            then pure (record { cmd = cmd; arg0 = h.arg0; arg1 = h.arg1; payload = payload })
            else raise invalid_checksum

  abbrev pub known_command : ℕ → AdbInfo → Header → Option Command → Exec D Packet
  known_command fuel info h none = raise invalid_command
  known_command fuel info h (some cmd) = read_payload fuel info cmd h

  unfoldable pub read_packet : ℕ → AdbInfo → Exec D Packet
  read_packet fuel info = do
    msg ← read_bytes fuel message_size info
    h ← lift (unpack msg)
    known_command fuel info h (wire_to_id h.cmd)

  -- `_send`: the number of bytes that `bulk_write` reports is not looked at.
  unfoldable pub send : AdbMessage → AdbInfo → Exec D (Unit {0})
  send msg info = do
    packed ← lift (pack msg)
    t.bulk_write packed info.transport_timeout_s
    if is_nonempty msg.payload
        then (do t.bulk_write msg.payload info.transport_timeout_s; pure tt)
        else pure tt

  unfoldable pub read_expected_from : ℕ → ℕ → List Command → AdbInfo → Exec D Packet
  read_expected_from zero start expected info = raise out_of_fuel
  read_expected_from (suc fuel) start expected info = do
    p ← read_packet fuel info
    let rest = read_expected_from fuel start expected info
    if is_expected p.cmd expected then pure p else unless_late start info.read_timeout_s rest

  unfoldable pub read_expected : ℕ → List Command → AdbInfo → Exec D Packet
  read_expected fuel expected info = do start ← now; read_expected_from fuel start expected info
