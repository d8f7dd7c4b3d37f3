-- ===== src/Device/Session/Shell.antt =====
-- `shell`, `exec_out` and the services below them (adb_device.py), end to end.
use adb_shell.Common.{
  ℕ, ◌^◌, ◌≤◌, ◌<◌, ◌≡◌, refl, ap, ◌∙◌, List, [], ◌∷◌, ◌++◌, Bool, true, Option, some, length, All,
  if◌then◌else◌, arith,
}
use mathlib.Core.List.{append_assoc}
use adb_shell.Common.Text.{encode}
use adb_shell.Errors.{ok, err, adb_connection}
use adb_shell.Exec.{Exec, raise}
use adb_shell.Exec.Gives.{Gives, Gives-pure, Gives-bind, Gives-zoom}
use adb_shell.TransactionInfo.{new_info}
use adb_shell.PacketStore.{Packet}
use adb_shell.Transport.{Transport}
use adb_shell.Transport.Stream.{Duplex}
use adb_shell.IoManager.Session.Idle.{IsIdle}
use adb_shell.IoManager.Session.Wires.{Fits, bytes_of, wires}
use adb_shell.Device.{AdbDevice, when_available}
use adb_shell.Device.Streams.{
  Limits, Output, output, join, on_device, next_local_id, open_to, streaming_command, collect,
  service,
}
use adb_shell.Device.Services.{shell, exec_out, shell_name, exec_name}
use adb_shell.Device.Session.{
  Piece, IsPiece, AreOthers, spoken, answered, opening, opened, acknowledged, closed, closing,
}
use adb_shell.Device.Session.Lines.{OnLine}
use adb_shell.Device.Session.Opening.{IsPatient, transaction, transaction_patient, open_to-Gives}
use adb_shell.Device.Session.Closing.{HasYielded, chunks, read_until_close-Gives}

-- What the device answers to one `OPEN`: packets of other streams (`first`), its `OKAY`, a `WRTE` for each
-- piece, more packets of other streams (`last`) and its `CLSE`. The ids and the lengths fit 32 bits, and
-- every loop has more rounds than it needs.
pub record IsSession (l r fuel : ℕ) (destination : List ℕ) (first : List Packet) (cs : List Piece)
    (last : List Packet) : Type 0 where
  pub header : 24 ≤ fuel
  pub request : Fits fuel (opening l destination)
  pub device_id : r < 2 ^ 32
  pub others : AreOthers l fuel first
  pub rounds : length cs < fuel
  pub pieces : All (IsPiece l r fuel) cs
  pub end : AreOthers l fuel last

module _ (l r fuel : ℕ) (host_id : l < 2 ^ 32) (device_id : r < 2 ^ 32) where
  opened-Fits : Fits fuel (opened l r)
  opened-Fits = omega arith

  closed-Fits : Fits fuel (closed l r)
  closed-Fits = omega arith

  acknowledged-Fits : Fits fuel (acknowledged l r)
  acknowledged-Fits = omega arith

  closing-Fits : Fits fuel (closing l r)
  closing-Fits = omega arith

-- The bytes of such an answer, and all that the host writes.
abbrev pub answer : ℕ → ℕ → List Packet → List Piece → List Packet → List ℕ → List ℕ
answer l r first cs last rest =
    wires first ++ (bytes_of (opened l r) ++ (spoken l r cs last ++ rest))

abbrev pub request_bytes : ℕ → ℕ → List ℕ → List Piece → List ℕ
request_bytes l r destination cs = bytes_of (opening l destination) ++ answered l r cs

module _ {D : Type 0} (t : Transport D) (incoming sent : D → List ℕ) (start span : ℕ)
    (x : Duplex t incoming sent start span) (n : ℕ) (default : Option ℕ) (r fuel : ℕ)
    (limits : Limits) (patient : IsPatient span limits) (first : List Packet) (cs : List Piece)
    (last : List Packet) (i o : List ℕ) where
  abbrev l : ℕ
  l = next_local_id n

  abbrev Before : AdbDevice D → Type 0
  Before = OnLine t incoming sent start span x l n default (answer l r first cs last i) o

  module _ (name command : List ℕ)
      (s : IsSession l r fuel (name ++ (b':' ∷ command)) first cs last) where
    abbrev destination : List ℕ
    destination = name ++ (b':' ∷ command)

    abbrev After : AdbDevice D → Type 0
    After =
        OnLine t incoming sent start span x l l default i (o ++ request_bytes l r destination cs)

    opens :
        Gives
          (λ g. Before g.device × (g.yielded ≡ []))
          (transaction l (some r) default limits)
          (HasYielded t incoming sent start span x l l default []
            (spoken l r cs last ++ i)
            (o ++ bytes_of (opening l destination)))
          (on_device (open_to t fuel destination limits))
    opens =
        Gives-zoom _ _ _ (λ g h. h.0) (λ g d h on. record { on = on; so_far = h.1 })
          (open_to-Gives t incoming sent start span x n default fuel r destination limits first
            (spoken l r cs last ++ i) o s.header patient s.request
            (opened-Fits l r fuel s.request.first s.device_id) s.others)

    streams :
        Gives
          (λ g. Before g.device × (g.yielded ≡ []))
          tt
          (HasYielded t incoming sent start span x l l default
            (chunks cs)
            i
            (o ++ request_bytes l r destination cs))
          (streaming_command t fuel name command limits)
    unfolding streaming_command new_info
    streams = rw (← append_assoc o (bytes_of (opening l destination)) (answered l r cs)) (
        Gives-bind _ _ opens (
          read_until_close-Gives t incoming sent start span x l l default
            (transaction l (some r) default limits) r refl refl fuel s.header
            (transaction_patient l (some r) default span limits patient) patient.total last s.end
            (closed-Fits l r fuel s.request.first s.device_id)
            (acknowledged-Fits l r fuel s.request.first s.device_id)
            (closing-Fits l r fuel s.request.first s.device_id) cs i
            (o ++ bytes_of (opening l destination)) s.rounds s.pieces))

    collects :
        Gives Before (chunks cs) After (collect t (streaming_command t fuel name command limits))
    unfolding collect
    collects = record {
      at = λ d h.
          let (g, e, y) = streams.at (record { device = d; yielded = [] }) (h, refl) in
          (
            g.device,
            ap (λ q. (elim q.0 [ ok _ ↦ ok q.1.yielded | err z ↦ err z ], q.1.device)) e
                ∙ ap (λ ys. (ok ys, g.device)) y.so_far,
            y.on,
          );
    }

    pub services :
        (decode : Bool)
        → Gives Before
            (output decode (join (chunks cs)))
            After
            (service t fuel name command limits decode)
    unfolding service
    services decode = Gives-bind _ _ collects (Gives-pure _)

available_lem :
    {D A : Type 0} (m : Exec (AdbDevice D) A) (d : AdbDevice D)
    → d.available ≡ true
    → when_available m d ≡ m d
unfolding when_available
available_lem m d e = ap (λ b. (if b then m else raise adb_connection) d) e

module _ {D : Type 0} (t : Transport D) (incoming sent : D → List ℕ) (start span : ℕ)
    (x : Duplex t incoming sent start span) (d : AdbDevice D) (r fuel : ℕ) (limits : Limits)
    (first : List Packet) (cs : List Piece) (last : List Packet) (rest : List ℕ)
    (name command : List ℕ) (decode : Bool) where
  -- A service that ran to the end of its stream.
  abbrev pub RanToEnd : Exec (AdbDevice D) Output → Type 0
  RanToEnd m =
      let l = next_local_id d.local_id in
      (d' : AdbDevice D) × (m d ≡ (ok (output decode (join (chunks cs))), d'))
      × (incoming d'.io.transport ≡ rest)
      × (sent d'.io.transport
          ≡ sent d.io.transport ++ request_bytes l r (name ++ (b':' ∷ command)) cs)
      × IsIdle l d'.io.store
      × (d'.local_id ≡ l)
      × (d'.available ≡ true)

  service_lem :
      (m : Exec (AdbDevice D) Output)
      → m d ≡ service t fuel name command limits decode d
      → d.available ≡ true
      → IsIdle (next_local_id d.local_id) d.io.store
      → IsPatient span limits
      → IsSession (next_local_id d.local_id) r fuel (name ++ (b':' ∷ command)) first cs last
      → incoming d.io.transport ≡ answer (next_local_id d.local_id) r first cs last rest
      → RanToEnd m
  service_lem m e ready idle patient s heard =
      let o = sent d.io.transport in
      let (d', q, on) =
        (services t incoming sent start span x d.local_id d.default_transport_timeout_s r fuel
            limits patient first cs last rest o name command s decode).at
          d
          (record {
            line = record { traffic = record { heard = heard; told = refl }; idle = idle };
            ready = ready;
            counter = refl;
            limit = refl;
          }) in
      (d', e ∙ q, on.line.traffic.heard, on.line.traffic.told, on.line.idle, on.counter, on.ready)

module _ {D : Type 0} (t : Transport D) (incoming sent : D → List ℕ) (start span : ℕ)
    (x : Duplex t incoming sent start span) (d : AdbDevice D) (r fuel : ℕ) (limits : Limits)
    (first : List Packet) (cs : List Piece) (last : List Packet) (rest : List ℕ) (command : List ℕ)
    (decode : Bool) where
  -- Over a transport that delivers what the device sends and records what the host writes, with a clock
  -- that keeps to every limit, and with a store where nothing waits for the new stream: where the device
  -- answers the `OPEN` with an `OKAY`, a `WRTE` for each piece of its output and a `CLSE`, with any packets of
  -- other streams in between, `shell` of an available device returns the join of the pieces, decoded or not. It
  -- takes exactly these packets off the stream, and it has written exactly its `OPEN` with the command, one
  -- `OKAY` for each piece, and its `CLSE`, in this order. Nothing of the stream is left in the store.
  pub shell_lem :
      d.available ≡ true
      → IsIdle (next_local_id d.local_id) d.io.store
      → IsPatient span limits
      → IsSession
          (next_local_id d.local_id)
          r
          fuel
          (shell_name ++ (b':' ∷ encode command))
          first
          cs
          last
      → incoming d.io.transport ≡ answer (next_local_id d.local_id) r first cs last rest
      → RanToEnd t incoming sent start span x d r fuel limits first cs last rest shell_name
          (encode command)
          decode
          (shell t fuel command limits decode)
  unfolding shell
  shell_lem ready idle patient s heard =
      service_lem t incoming sent start span x d r fuel limits first cs last rest shell_name
        (encode command) decode (shell t fuel command limits decode)
        (available_lem (service t fuel shell_name (encode command) limits decode) d ready) ready
        idle patient s heard

  -- Over a transport that delivers what the device sends and records what the host writes, with a clock
  -- that keeps to every limit, and with a store where nothing waits for the new stream: where the device
  -- answers the `OPEN` with an `OKAY`, a `WRTE` for each piece of its output and a `CLSE`, with any packets of
  -- other streams in between, `exec_out` of an available device returns the join of the pieces, decoded or
  -- not. It takes exactly these packets off the stream, and it has written exactly its `OPEN` with the
  -- `exec:` destination and the command, one `OKAY` for each piece, and its `CLSE`, in this order. Nothing of
  -- the stream is left in the store. The ids, the lengths and the fuel are within the bounds of `IsSession`.
  pub exec_out_lem :
      d.available ≡ true
      → IsIdle (next_local_id d.local_id) d.io.store
      → IsPatient span limits
      → IsSession
          (next_local_id d.local_id)
          r
          fuel
          (exec_name ++ (b':' ∷ encode command))
          first
          cs
          last
      → incoming d.io.transport ≡ answer (next_local_id d.local_id) r first cs last rest
      → RanToEnd t incoming sent start span x d r fuel limits first cs last rest exec_name
          (encode command)
          decode
          (exec_out t fuel command limits decode)
  unfolding exec_out
  exec_out_lem ready idle patient s heard =
      service_lem t incoming sent start span x d r fuel limits first cs last rest exec_name
        (encode command) decode (exec_out t fuel command limits decode)
        (available_lem (service t fuel exec_name (encode command) limits decode) d ready) ready idle
        patient s heard
