-- ===== src/IoManager/Readers.antt =====
-- The readers of _AdbIOManager (adb_device.py): what reading bytes and reading the clock keep.
use adb_shell.Common.{ℕ, zero, suc, List, [], Bool, Option, none, some}
use adb_shell.Errors.{out_of_fuel, adb_timeout}
use adb_shell.Exec.{Exec}
use adb_shell.Exec.Rules.{
  Keeps, Keeps-zoom, Keeps-pure, Keeps-raise, Keeps-lift, Keeps-if, Keeps-bind, keeps_rules,
}
use adb_shell.Constants.{Command}
use adb_shell.Message.{Header}
use adb_shell.TransactionInfo.{AdbInfo}
use adb_shell.PacketStore.{PacketStore, Packet}
use adb_shell.Transport.{Transport}
use adb_shell.IoManager.{IoManager, on_transport, on_store}
use adb_shell.IoManager.Packets.{
  now, unless_late, read_rest, read_bytes, read_payload, known_command, read_packet,
}
use adb_shell.IoManager.Read.{
  sort_packet, found_or_next, read_round, done_or, unless_late_io, read_loop, read,
}

module _ {D : Type 0} (t : Transport D) (P : D → Type 0) (now_keeps : Keeps P (now t))
    (read_keeps : (n : ℕ) (timeout : Option ℕ) → Keeps P (t.bulk_read n timeout)) where
  pub unless_late-Keeps :
      {A : Type 0} (start limit : ℕ) (m : Exec D A)
      → Keeps P m
      → Keeps P (unless_late t start limit m)
  unfolding unless_late
  unless_late-Keeps start limit m k =
      Keeps-bind _ _ now_keeps (λ n. Keeps-if _ _ _ (Keeps-raise adb_timeout) k)

  pub read_rest-Keeps :
      (fuel : ℕ) (info : AdbInfo) (start n : ℕ) (so_far : List ℕ)
      → Keeps P (read_rest t fuel info start n so_far)
  unfolding read_rest
  read_rest-Keeps fuel info start zero so_far = Keeps-pure so_far
  read_rest-Keeps zero info start (suc n) so_far = Keeps-raise out_of_fuel
  read_rest-Keeps (suc fuel) info start (suc n) so_far =
      Keeps-bind _ _ (read_keeps (suc n) info.transport_timeout_s) (λ temp.
        Keeps-if _ _ _ (Keeps-pure _)
          (unless_late-Keeps start info.read_timeout_s _ (read_rest-Keeps fuel info start _ _)))

  read_bytes-Keeps : (fuel size : ℕ) (info : AdbInfo) → Keeps P (read_bytes t fuel size info)
  unfolding read_bytes
  read_bytes-Keeps fuel size info =
      Keeps-bind _ _ now_keeps (λ start. read_rest-Keeps fuel info start size [])

  read_payload-Keeps :
      (fuel : ℕ) (info : AdbInfo) (c : Command) (h : Header)
      → Keeps P (read_payload t fuel info c h)
  unfolding read_payload
  read_payload-Keeps fuel info c h = Keeps-if _ _ _ (Keeps-pure _) (
      Keeps-bind _ _ (read_bytes-Keeps fuel h.data_length info)
        (λ payload. Keeps-if _ _ _ (Keeps-pure _) (Keeps-raise _)))

  known_command-Keeps :
      (fuel : ℕ) (info : AdbInfo) (h : Header) (c : Option Command)
      → Keeps P (known_command t fuel info h c)
  known_command-Keeps fuel info h none = Keeps-raise _
  known_command-Keeps fuel info h (some c) = read_payload-Keeps fuel info c h

  pub read_packet-Keeps : (fuel : ℕ) (info : AdbInfo) → Keeps P (read_packet t fuel info)
  unfolding read_packet
  read_packet-Keeps fuel info =
      Keeps-bind _ _ (read_bytes-Keeps fuel _ info)
        (λ msg. Keeps-bind _ _ (Keeps-lift _) (λ h. known_command-Keeps fuel info h _))

  abbrev pub OnIo : IoManager D → Type 0
  OnIo io = P io.transport

  pub on_transport-Keeps : {A : Type 0} (m : Exec D A) → Keeps P m → Keeps OnIo (on_transport m)
  on_transport-Keeps m k = Keeps-zoom _ _ m (λ io h. k.at io.transport h)

  pub on_store-Keeps : {A : Type 0} (m : Exec PacketStore A) → Keeps OnIo (on_store m)
  on_store-Keeps m = Keeps-zoom _ _ m (λ io h. h)

  module _ (expected : List Command) (info : AdbInfo) (allow_zeros : Bool) where
    sort_packet-Keeps : (p : Packet) → Keeps OnIo (sort_packet t expected info allow_zeros p)
    unfolding sort_packet
    sort_packet-Keeps p = search (keeps_rules, on_store-Keeps)

    pub found_or_next-Keeps :
        (fuel : ℕ) (o : Option Packet)
        → Keeps OnIo (found_or_next t fuel expected info allow_zeros o)
    unfolding found_or_next
    found_or_next-Keeps fuel (some p) = Keeps-pure (some p)
    found_or_next-Keeps fuel none =
        Keeps-bind _ _ (on_transport-Keeps _ (read_packet-Keeps fuel info)) sort_packet-Keeps

    pub done_or-Keeps :
        (o : Option Packet) (rest : Exec (IoManager D) Packet)
        → Keeps OnIo rest
        → Keeps OnIo (done_or t o rest)
    done_or-Keeps (some p) rest k = Keeps-pure p
    done_or-Keeps none rest k = k

    pub read_round-Keeps : (fuel : ℕ) → Keeps OnIo (read_round t fuel expected info allow_zeros)
    unfolding read_round
    read_round-Keeps fuel = Keeps-bind _ _ (on_store-Keeps _) (found_or_next-Keeps fuel)

    read_loop-Keeps :
        (rounds fuel start : ℕ)
        → Keeps OnIo (read_loop t rounds fuel start expected info allow_zeros)
    unfolding read_loop unless_late_io
    read_loop-Keeps zero fuel start = Keeps-raise out_of_fuel
    read_loop-Keeps (suc rounds) fuel start = Keeps-bind _ _ (read_round-Keeps fuel) (λ found.
        done_or-Keeps found _ (
          Keeps-bind _ _ (on_transport-Keeps _ (unless_late-Keeps start _ _ (Keeps-pure tt)))
            (λ _. read_loop-Keeps rounds fuel start)))

    pub io_read-Keeps : (fuel : ℕ) → Keeps OnIo (read t fuel expected info allow_zeros)
    unfolding read
    io_read-Keeps fuel = Keeps-bind _ _ (on_store-Keeps _) (λ found. done_or-Keeps found _ (
        Keeps-bind _ _ (on_transport-Keeps _ now_keeps) (λ start. read_loop-Keeps fuel fuel start)))
