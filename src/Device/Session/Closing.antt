-- ===== src/Device/Session/Closing.antt =====
-- `_read_until_close`, `_streaming_command` and `_service` of AdbDevice (adb_device.py), with a device
-- that writes its output and closes the stream.
use adb_shell.Common.{
  ℕ, zero, suc, ◌≤◌, ◌<◌, ◌≡◌, refl, ap, List, [], ◌∷◌, ◌++◌, map, Option, some, length, All, arith,
}
use mathlib.Core.List.{append_assoc, append-nil}
use adb_shell.Exec.{Exec, ◌>>=◌, zoom}
use adb_shell.Exec.Gives.{Gives, Gives-bind, Gives-some, Gives-zoom, Gives-modify}
use adb_shell.Constants.{clse, wrte, same_command}
use adb_shell.TransactionInfo.{AdbInfo}
use adb_shell.PacketStore.{Packet}
use adb_shell.Transport.{Transport}
use adb_shell.Transport.Stream.{Duplex}
use adb_shell.IoManager.{is_expected, on_transport}
use adb_shell.IoManager.Packets.{now}
use adb_shell.IoManager.Session.Wires.{Fits, bytes_of, wires}
use adb_shell.Device.{AdbDevice, on_io}
use adb_shell.Device.Streams.{Streaming, on_device, read_close_loop, read_until_close}
use adb_shell.Device.Session.{
  Piece, IsPiece, AreOthers, spoken, answered, written, acknowledged, closed, closing,
}
use adb_shell.Device.Session.Lines.{
  OnLine, clock_lem, check_timeout-Gives, sent-Gives, read_wrte, read_plain,
}

-- The output of the device: the data of its `WRTE`s.
abbrev pub chunks : List Piece → List (List ℕ)
chunks = map (λ c. c.chunk)

module _ {D : Type 0} (t : Transport D) (incoming sent : D → List ℕ) (start span : ℕ)
    (x : Duplex t incoming sent start span) (l n : ℕ) (default : Option ℕ) where
  -- A generator on the line, and what it has yielded.
  pub record HasYielded (ys : List (List ℕ)) (i o : List ℕ) (g : Streaming D) : Type 0 where
    pub on : OnLine t incoming sent start span x l n default i o g.device
    pub so_far : g.yielded ≡ ys

  on_device-Gives :
      {A : Type 0} {a : A} (m : Exec (AdbDevice D) A) (ys : List (List ℕ)) (i o i' o' : List ℕ)
      → Gives
          (OnLine t incoming sent start span x l n default i o)
          a
          (OnLine t incoming sent start span x l n default i' o')
          m
      → Gives (HasYielded ys i o) a (HasYielded ys i' o') (on_device m)
  on_device-Gives m ys i o i' o' h =
      Gives-zoom _ _ m (λ g y. y.on) (λ g d y on. record { on = on; so_far = y.so_far }) h

  clock_yielded :
      (ys : List (List ℕ)) {b : Unit {0}} {R : Streaming D → Type 0} (i o : List ℕ)
      (f : ℕ → Exec (Streaming D) (Unit {0}))
      → ((m : ℕ) → start ≤ m → Gives (HasYielded ys i o) b R (f m))
      → Gives (HasYielded ys i o) b R (on_device (on_io (on_transport (now t))) >>= f)
  unfolding zoom
  clock_yielded ys i o f h =
      Gives-some {V = λ m. start ≤ m} _ f
        (λ g y.
          let (m, d', e, bounds, on) =
            clock_lem t incoming sent start span x l n default i o g.device y.on in
          (
            m,
            record g { device = d' },
            ap (λ z. (z.0, record g { device = z.1 })) e,
            bounds.0,
            record { on = on; so_far = y.so_far },
          ))
        h

  module _ (info : AdbInfo) (r : ℕ) (own : info.local_id ≡ some l) (far : info.remote_id ≡ some r)
      (fuel : ℕ) (big : 24 ≤ fuel) (patient : span ≤ info.read_timeout_s)
      (whole : (k : ℕ) → info.timeout_s ≡ some k → span ≤ k) (last : List Packet)
      (quiet_end : AreOthers l fuel last) (end_fits : Fits fuel (closed l r))
      (ack_fits : Fits fuel (acknowledged l r)) (close_fits : Fits fuel (closing l r)) where
    read_close_loop-Gives :
        (rounds at : ℕ) (cs : List Piece) (ys : List (List ℕ)) (i o : List ℕ)
        → start ≤ at
        → length cs < rounds
        → All (IsPiece l r fuel) cs
        → Gives
            (HasYielded ys (spoken l r cs last ++ i) o)
            tt
            (HasYielded (ys ++ chunks cs) i (o ++ answered l r cs))
            (read_close_loop t rounds fuel at info)
    unfolding read_close_loop spoken answered is_expected same_command
    read_close_loop-Gives zero at cs ys i o h few all = absurd (omega arith)
    read_close_loop-Gives (suc rounds) at [] ys i o h few all =
        rw (append_assoc (wires last) (bytes_of (closed l r)) i, append-nil ys)
          (Gives-bind _ _
            (on_device-Gives _ ys _ o i o (
              read_plain t incoming sent start span x l n default info r own fuel big patient far
                (clse ∷ wrte ∷ []) clse [] last i o end_fits refl quiet_end refl))
            (on_device-Gives _ ys i o i (o ++ bytes_of (closing l r)) (
              sent-Gives t incoming sent start span x l n default info fuel (closing l r) _ _ i o
                own far close_fits)))
    read_close_loop-Gives (suc rounds) at (c ∷ cs) ys i o h few (hc, hcs) =
        let wire = bytes_of (written l r c.chunk) in
        let ack = bytes_of (acknowledged l r) in
        rw
          (
            append_assoc (wires c.before) (wire ++ spoken l r cs last) i,
            append_assoc wire (spoken l r cs last) i,
            ← append_assoc o ack (answered l r cs),
            ← append_assoc ys (c.chunk ∷ []) (chunks cs),
          )
          (Gives-bind _ _
            (on_device-Gives _ ys _ o (spoken l r cs last ++ i) (o ++ ack) (
              read_wrte t incoming sent start span x l n default info r own fuel big patient far
                (clse ∷ wrte ∷ []) wrte c.chunk c.before (spoken l r cs last ++ i) o hc.fits refl
                hc.others refl ack_fits))
            (Gives-bind _ _
              (Gives-modify _
                (λ g y. record { on = y.on; so_far = ap (λ zs. zs ++ c.chunk ∷ []) y.so_far }))
              (Gives-bind _ _
                (on_device-Gives _ (ys ++ c.chunk ∷ []) _ _ _ _ (
                  check_timeout-Gives t incoming sent start span x l n default at info.timeout_s
                    (spoken l r cs last ++ i) (o ++ ack) h whole))
                (read_close_loop-Gives rounds at cs (ys ++ c.chunk ∷ []) i (o ++ ack) h
                  (omega arith) hcs))))

    pub read_until_close-Gives :
        (cs : List Piece) (i o : List ℕ)
        → length cs < fuel
        → All (IsPiece l r fuel) cs
        → Gives
            (HasYielded [] (spoken l r cs last ++ i) o)
            tt
            (HasYielded (chunks cs) i (o ++ answered l r cs))
            (read_until_close t fuel info)
    unfolding read_until_close
    read_until_close-Gives cs i o few all =
        clock_yielded [] _ o _ (λ m h. read_close_loop-Gives fuel m cs [] i o h few all)
