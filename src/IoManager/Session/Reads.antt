-- ===== src/IoManager/Session/Reads.antt =====
-- `read` of _AdbIOManager (adb_device.py) on a stream with an idle store: packets of other streams come
-- before its own.
use adb_shell.Common.{
  ℕ, zero, suc, ◌-◌, ◌≤◌, ◌<◌, ◌≡◌, ◌≢◌, refl, List, [], ◌∷◌, ◌++◌, Bool, true, false, Option, none,
  some, length, ltb, All, if◌then◌else◌, arith,
}
use mathlib.Core.List.{append_assoc}
use adb_shell.Exec.{Exec, ◌>>=◌, pure, modify, zoom}
use adb_shell.Exec.Gives.{
  Gives, Gives-pure, Gives-bind, Gives-some, Gives-zoom, Gives-modify, Gives-true, Gives-false,
}
use adb_shell.Constants.{Command, same_command, clse}
use adb_shell.TransactionInfo.{AdbInfo, args_match}
use adb_shell.PacketStore
use adb_shell.PacketStore.{PacketStore, Packet}
use adb_shell.Transport.{Transport}
use adb_shell.Transport.Stream.{Duplex}
use adb_shell.IoManager.{IoManager, is_expected, on_transport, on_store}
use adb_shell.IoManager.Packets.{unless_late, now}
use adb_shell.IoManager.Read.{
  drain, sort_packet, found_or_next, read_round, unless_late_io, read_loop, read,
}
use adb_shell.IoManager.Read.Drain.{drain_idle}
use adb_shell.IoManager.Session.Idle.{IsIdle, find_idle, put-IsIdle, clear-IsIdle}
use adb_shell.IoManager.Session.Wires.{
  Fits, Traffic, bytes_of, wires, read_packet-Gives, time-Traffic,
}

-- A packet of another stream: its second id is neither the local id nor 0.
pub record IsOther (l fuel : ℕ) (p : Packet) : Type 0 where
  pub other : p.arg1 ≢ l
  pub nonzero : p.arg1 ≢ 0
  pub fits : Fits fuel p

other_lem :
    (l fuel : ℕ) (info : AdbInfo) (allow_zeros : Bool) (p : Packet)
    → info.local_id ≡ some l
    → IsOther l fuel p
    → args_match info p.arg0 p.arg1 allow_zeros ≡ false
unfolding args_match
other_lem l fuel info true p own h = ground (arith, h.other, h.nonzero)
other_lem l fuel info false p own h = ground (arith, h.other, h.nonzero)

module _ {D : Type 0} (t : Transport D) (incoming sent : D → List ℕ) (start span : ℕ)
    (x : Duplex t incoming sent start span) (l : ℕ) where
  -- What has gone over the wire, and nothing in the store for this stream.
  pub record Line (input output : List ℕ) (io : IoManager D) : Type 0 where
    pub traffic : Traffic t incoming sent start span x input output io.transport
    pub idle : IsIdle l io.store

  pub on_transport-Gives :
      {A : Type 0} {a : A} (m : Exec D A) (i o i' o' : List ℕ)
      → Gives
          (Traffic t incoming sent start span x i o)
          a
          (Traffic t incoming sent start span x i' o')
          m
      → Gives (Line i o) a (Line i' o') (on_transport m)
  on_transport-Gives m i o i' o' h =
      Gives-zoom _ _ m (λ io line. line.traffic)
        (λ io d line traffic. record { traffic = traffic; idle = line.idle }) h

  on_store-Gives :
      {A : Type 0} {a : A} (m : Exec PacketStore A) (i o : List ℕ)
      → Gives (IsIdle l) a (IsIdle l) m
      → Gives (Line i o) a (Line i o) (on_store m)
  on_store-Gives m i o h =
      Gives-zoom _ _ m (λ io line. line.idle)
        (λ io s line idle. record { traffic = line.traffic; idle = idle }) h

  -- The clock has reached the time at which it starts.
  pub clock-Gives :
      {B : Type 0} {b : B} {R : IoManager D → Type 0} (i o : List ℕ) (f : ℕ → Exec (IoManager D) B)
      → ((n : ℕ) → start ≤ n → Gives (Line i o) b R (f n))
      → Gives (Line i o) b R (on_transport (now t) >>= f)
  unfolding zoom
  clock-Gives i o f h =
      Gives-some {V = λ n. start ≤ n} _ f
        (λ io line.
          let d = io.transport in
          (
            (t.time d).0,
            record io { transport = (t.time d).1 },
            refl,
            x.delivers.from_start d,
            record {
              traffic = time-Traffic t incoming sent start span x i o d line.traffic;
              idle = line.idle;
            },
          ))
        h

  module _ (info : AdbInfo) (own : info.local_id ≡ some l) (patient : span ≤ info.read_timeout_s)
      (expected : List Command) (allow_zeros : Bool) (fuel : ℕ) (big : 24 ≤ fuel) where
    drain-Gives :
        (i o : List ℕ)
        → Gives (Line i o) none (Line i o) (on_store (drain expected info allow_zeros))
    drain-Gives i o = on_store-Gives _ i o (record {
      at = λ s idle. (
        s,
        drain_idle expected info allow_zeros s (find_idle l info allow_zeros s own idle),
        idle,
      );
    })

    sort_other :
        (i o : List ℕ) (p : Packet)
        → IsOther l fuel p
        → Gives (Line i o) none (Line i o) (sort_packet t expected info allow_zeros p)
    unfolding sort_packet
    sort_other i o p h = Gives-false _ _ _ (other_lem l fuel info allow_zeros p own h) (
        Gives-bind _ _
          (on_store-Gives _ i o (
            Gives-modify _
              (λ s idle. put-IsIdle l p.arg0 p.arg1 p.cmd p.payload s h.other h.nonzero idle)))
          (Gives-pure none))

    clear_if_closed :
        (i o : List ℕ) (p : Packet) (b : Bool)
        → Gives
            (Line i o)
            tt
            (Line i o)
            (if b then on_store (modify (PacketStore.clear p.arg0 p.arg1)) else pure tt)
    clear_if_closed i o p true =
        on_store-Gives _ i o (Gives-modify _ (λ s idle. clear-IsIdle l p.arg0 p.arg1 s idle))
    clear_if_closed i o p false = Gives-pure tt

    module _ (p : Packet) (f : Fits fuel p)
        (ours : args_match info p.arg0 p.arg1 allow_zeros ≡ true)
        (hoped : is_expected p.cmd expected ≡ true) where
      sort_own :
          (i o : List ℕ)
          → Gives (Line i o) (some p) (Line i o) (sort_packet t expected info allow_zeros p)
      unfolding sort_packet
      sort_own i o = Gives-true _ _ _ ours (
          Gives-bind _ _ (clear_if_closed i o p (same_command p.cmd clse))
            (Gives-true _ _ _ hoped (Gives-pure (some p))))

    next_packet :
        (i o : List ℕ) (p : Packet) (r : Option Packet)
        → Fits fuel p
        → ((i o : List ℕ)
            → Gives (Line i o) r (Line i o) (sort_packet t expected info allow_zeros p))
        → Gives
            (Line (bytes_of p ++ i) o)
            r
            (Line i o)
            (read_round t fuel expected info allow_zeros)
    unfolding read_round found_or_next
    next_packet i o p r f sorted = Gives-bind _ _ (drain-Gives (bytes_of p ++ i) o) (
        Gives-bind _ _
          (on_transport-Gives _ (bytes_of p ++ i) o i o
            (read_packet-Gives t incoming sent start span x fuel info p i o patient big f))
          (sorted i o))

    in_time :
        (i o : List ℕ) (at : ℕ)
        → start ≤ at
        → Gives
            (Line i o)
            tt
            (Line i o)
            (on_transport (unless_late t at info.read_timeout_s (pure tt)))
    unfolding unless_late
    in_time i o at h = on_transport-Gives _ i o i o (
        Gives-some {V = λ n. ltb info.read_timeout_s (n - at) ≡ false} _ _
          (λ d traffic. (
            (t.time d).0,
            (t.time d).1,
            refl,
            ground (arith, x.delivers.to_end d),
            time-Traffic t incoming sent start span x i o d traffic,
          ))
          (λ n early. Gives-false _ _ _ early (Gives-pure tt)))

    module _ (p : Packet) (f : Fits fuel p)
        (ours : args_match info p.arg0 p.arg1 allow_zeros ≡ true)
        (hoped : is_expected p.cmd expected ≡ true) (i o : List ℕ) where
      read_loop-Gives :
          (rounds at : ℕ) (others : List Packet)
          → start ≤ at
          → length others < rounds
          → All (IsOther l fuel) others
          → Gives
              (Line (wires others ++ (bytes_of p ++ i)) o)
              p
              (Line i o)
              (read_loop t rounds fuel at expected info allow_zeros)
      unfolding read_loop wires unless_late_io
      read_loop-Gives zero at others h short all = absurd (omega arith)
      read_loop-Gives (suc rounds) at [] h short all =
          Gives-bind _ _ (next_packet i o p (some p) f (sort_own p f ours hoped)) (Gives-pure p)
      read_loop-Gives (suc rounds) at (q ∷ qs) h short (hq, hqs) =
          rw (append_assoc (bytes_of q) (wires qs) (bytes_of p ++ i)) (
            Gives-bind _ _
              (next_packet (wires qs ++ (bytes_of p ++ i)) o q none hq.fits
                (λ i o. sort_other i o q hq))
              (Gives-bind _ _ (in_time (wires qs ++ (bytes_of p ++ i)) o at h)
                (read_loop-Gives rounds at qs h (omega arith) hqs)))

      -- Behind any packets of other streams, fewer than there are rounds, `read` returns the stream's own packet.
      pub read-Gives :
          (others : List Packet)
          → length others < fuel
          → All (IsOther l fuel) others
          → Gives
              (Line (wires others ++ (bytes_of p ++ i)) o)
              p
              (Line i o)
              (read t fuel expected info allow_zeros)
      unfolding read
      read-Gives others short all =
          Gives-bind _ _ (drain-Gives _ o)
            (clock-Gives _ o _ (λ n h. read_loop-Gives fuel n others h short all))
