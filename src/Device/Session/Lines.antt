-- ===== src/Device/Session/Lines.antt =====
-- Sending and reading packets of one stream through an AdbDevice (adb_device.py).
use adb_shell.Common.{
  ℕ, ◌+◌, ◌-◌, ◌≤◌, ◌≡◌, refl, List, ◌++◌, Bool, true, false, Option, none, some, ltb, arith,
}
use adb_shell.Errors.{ok}
use adb_shell.Exec.{Exec, zoom}
use adb_shell.Exec.Gives.{
  Gives, Gives-pure, Gives-bind, Gives-some, Gives-zoom, Gives-true, Gives-false,
}
use adb_shell.Constants.{Command, wrte, same_command}
use adb_shell.Message.{new_message}
use adb_shell.TransactionInfo.{AdbInfo, args_match}
use adb_shell.PacketStore.{Packet}
use adb_shell.Transport.{Transport}
use adb_shell.Transport.Stream.{Duplex}
use adb_shell.IoManager.{IoManager, is_expected, on_transport}
use adb_shell.IoManager.Packets.{now}
use adb_shell.IoManager.Read
use adb_shell.IoManager.Session.Wires.{Fits, bytes_of, wires, send-Gives, time-Traffic}
use adb_shell.IoManager.Session.Reads.{Line, on_transport-Gives, read-Gives}
use adb_shell.Device.{AdbDevice, on_io}
use adb_shell.Device.Streams.{send, okay_stream, read_until, check_timeout}
use adb_shell.Device.Session.{AreOthers, acknowledged}

module _ {D : Type 0} (t : Transport D) (incoming sent : D → List ℕ) (start span : ℕ)
    (x : Duplex t incoming sent start span) (l : ℕ) where
  -- An available device with its counter of local ids, over a connection where nothing waits for the
  -- stream `l`.
  pub record OnLine (n : ℕ) (default : Option ℕ) (input output : List ℕ) (d : AdbDevice D)
      : Type 0 where
    pub line : Line t incoming sent start span x l input output d.io
    pub ready : d.available ≡ true
    pub counter : d.local_id ≡ n
    pub limit : d.default_transport_timeout_s ≡ default

  module _ (n : ℕ) (default : Option ℕ) where
    on_io-Gives :
        {A : Type 0} {a : A} (m : Exec (IoManager D) A) (i o i' o' : List ℕ)
        → Gives
            (Line t incoming sent start span x l i o)
            a
            (Line t incoming sent start span x l i' o')
            m
        → Gives (OnLine n default i o) a (OnLine n default i' o') (on_io m)
    on_io-Gives m i o i' o' h =
        Gives-zoom _ _ m (λ d on. on.line)
          (λ d io on line. record {
            line = line;
            ready = on.ready;
            counter = on.counter;
            limit = on.limit;
          })
          h

    pub sent-Gives :
        (info : AdbInfo) (fuel : ℕ) (p : Packet) (a b : Option ℕ) (i o : List ℕ)
        → a ≡ some p.arg0
        → b ≡ some p.arg1
        → Fits fuel p
        → Gives
            (OnLine n default i o)
            tt
            (OnLine n default i (o ++ bytes_of p))
            (send t (new_message p.cmd a b p.payload) info)
    unfolding send
    sent-Gives info fuel p a b i o ea eb f =
        rw (ea, eb)
          (on_io-Gives _ i o i (o ++ bytes_of p) (
            on_transport-Gives t incoming sent start span x l _ i o i (o ++ bytes_of p)
              (send-Gives t incoming sent start span x fuel info p i o f)))

    -- The clock reads within the span.
    pub clock_lem :
        (i o : List ℕ) (d : AdbDevice D)
        → OnLine n default i o d
        → (m : ℕ) × (d' : AdbDevice D) × (on_io (on_transport (now t)) d ≡ (ok m, d'))
          × ((start ≤ m) × (m ≤ start + span))
          × OnLine n default i o d'
    unfolding zoom
    clock_lem i o d on =
        let w = d.io.transport in
        (
          (t.time w).0,
          record d { io = record d.io { transport = (t.time w).1 } },
          refl,
          (x.delivers.from_start w, x.delivers.to_end w),
          record {
            line = record {
              traffic = time-Traffic t incoming sent start span x i o w on.line.traffic;
              idle = on.line.idle;
            };
            ready = on.ready;
            counter = on.counter;
            limit = on.limit;
          },
        )

    -- A limit on the whole command that the clock keeps to.
    pub check_timeout-Gives :
        (at : ℕ) (limit : Option ℕ) (i o : List ℕ)
        → start ≤ at
        → ((k : ℕ) → limit ≡ some k → span ≤ k)
        → Gives (OnLine n default i o) tt (OnLine n default i o) (check_timeout t at limit)
    unfolding check_timeout
    check_timeout-Gives at none i o h patient = Gives-pure tt
    check_timeout-Gives at (some k) i o h patient =
        Gives-some _ _ (clock_lem i o)
          (λ m (lo, hi). Gives-false _ _ _ (early k m at lo hi h (patient k refl)) (Gives-pure tt))
      where
        early :
            (k m at : ℕ)
            → start ≤ m
            → m ≤ start + span
            → start ≤ at
            → span ≤ k
            → ltb k (m - at) ≡ false
        early k m at a b c d = ground arith

    module _ (info : AdbInfo) (r : ℕ) (own : info.local_id ≡ some l) (fuel : ℕ) (big : 24 ≤ fuel)
        (patient : span ≤ info.read_timeout_s) where
      -- A packet of the stream, behind packets of other streams.
      pub next-Gives :
          (expected : List Command) (allow_zeros : Bool) (p : Packet) (others : List Packet)
          (i o : List ℕ)
          → Fits fuel p
          → args_match info p.arg0 p.arg1 allow_zeros ≡ true
          → is_expected p.cmd expected ≡ true
          → AreOthers l fuel others
          → Gives
              (OnLine n default (wires others ++ (bytes_of p ++ i)) o)
              p
              (OnLine n default i o)
              (on_io (Read.read t fuel expected info allow_zeros))
      next-Gives expected allow_zeros p others i o f ours hoped h = on_io-Gives _ _ o i o (
          read-Gives t incoming sent start span x l info own patient expected allow_zeros fuel big p
            f ours hoped i o others h.few h.all)

      module _ (far : info.remote_id ≡ some r) (expected : List Command) (c : Command)
          (payload : List ℕ) (others : List Packet) (i o : List ℕ)
          (f : Fits fuel (record { cmd = c; arg0 = r; arg1 = l; payload = payload }))
          (hoped : is_expected c expected ≡ true) (h : AreOthers l fuel others) where
        abbrev front : List ℕ
        front =
            wires others
            ++ (bytes_of (record { cmd = c; arg0 = r; arg1 = l; payload = payload }) ++ i)

        ours : args_match info r l true ≡ true
        unfolding args_match
        ours = ground arith

        -- `_read_until` answers a `WRTE` with an `OKAY`.
        pub read_wrte :
            same_command c wrte ≡ true
            → Fits fuel (acknowledged l r)
            → Gives
                (OnLine n default front o)
                (c, payload)
                (OnLine n default i (o ++ bytes_of (acknowledged l r)))
                (read_until t fuel expected info)
        unfolding read_until okay_stream
        read_wrte e g = Gives-bind _ _ (next-Gives expected true _ others i o f ours hoped h) (
            Gives-bind _ _
              (Gives-true _ _ _ e (sent-Gives info fuel (acknowledged l r) _ _ i o own far g))
              (Gives-pure (c, payload)))

        -- Any other packet is only read.
        pub read_plain :
            same_command c wrte ≡ false
            → Gives
                (OnLine n default front o)
                (c, payload)
                (OnLine n default i o)
                (read_until t fuel expected info)
        unfolding read_until
        read_plain e =
            Gives-bind _ _ (next-Gives expected true _ others i o f ours hoped h)
              (Gives-bind _ _ (Gives-false _ _ _ e (Gives-pure tt)) (Gives-pure (c, payload)))
