-- ===== src/Device/Session/Download.antt =====
-- `pull` of AdbDevice (adb_device.py) without a callback, on an available device.
use adb_shell.Common.{
  ℕ, zero, suc, ◌^◌, ◌≤◌, ◌<◌, ◌≡◌, refl, sym, ap, ◌∙◌, List, [], ◌∷◌, ◌++◌, true, false, Option,
  some, length, arith,
}
use adb_shell.Errors.{ok}
use adb_shell.Exec.{Exec, pure, lift, modify, zoom}
use adb_shell.PacketStore.{Packet, is_nonempty}
use adb_shell.Transport.{Transport}
use adb_shell.Transport.Stream.{Duplex}
use adb_shell.IoManager.Session.Wires.{Fits, bytes_of}
use adb_shell.FileSyncInfo.{new_filesync}
use adb_shell.Device.{AdbDevice, when_available, when_path}
use adb_shell.Device.Streams.{join, next_local_id}
use adb_shell.Device.Files.{Transfer, on_device, pull, sync_service, limits_of}
use adb_shell.Device.Session.{Piece, opening}
use adb_shell.Device.Session.Lines.{OnLine}
use adb_shell.Device.Session.Opening.{IsPatient, transaction, open_to-Gives}
use adb_shell.Device.Session.Feeding.{after_ok}
use adb_shell.Device.Session.Requests.{open_to-maxdata}
use adb_shell.IoManager.Session.Idle.{IsIdle}
use adb_shell.Device.Session.Pull.{IsPull, pull_answer, after_open, pull_written, served}

nonempty_path :
    {S A : Type 0} (path : List ℕ) (m : Exec S A) → is_nonempty path ≡ true → when_path path m ≡ m
unfolding when_path
nonempty_path [] m h = cc
nonempty_path (c ∷ path) m h = refl

sync_fits : (l fuel : ℕ) → 24 ≤ fuel → l < 2 ^ 32 → Fits fuel (opening l sync_service)
sync_fits l fuel h k = omega (arith, h, k)

module _ {D : Type 0} (t : Transport D) (incoming sent : D → List ℕ) (start span : ℕ)
    (x : Duplex t incoming sent start span) (n : ℕ) (default : Option ℕ) (r fuel : ℕ)
    (transport_timeout_s : Option ℕ) (read_timeout_s : ℕ)
    (patient : IsPatient span (limits_of t fuel transport_timeout_s read_timeout_s)) where
  abbrev id : ℕ
  id = next_local_id n

  full_pull :
      (path : List ℕ) (first second last : List Packet) (cs : List Piece) (blocks : List (List ℕ))
      (i o : List ℕ) (s : Transfer D)
      → OnLine t incoming sent start span x id n default
          (pull_answer id r first second last cs i)
          o
          s.device
      → IsPull id r (suc fuel) s.device.maxdata path first second last cs blocks
      → is_nonempty path ≡ true
      → (d : AdbDevice D) × (pull t
            (suc fuel)
            path
            (ok tt)
            false
            transport_timeout_s
            read_timeout_s
            s
          ≡ (ok tt, record s { device = d; stream = join blocks }))
        × OnLine t incoming sent start span x id id default i
            (pull_written id r path (length cs) o)
            d
  unfolding pull when_available zoom
  full_pull path first second last cs blocks i o s on h some_path =
      let (d1, run, on1) =
        (open_to-Gives t incoming sent start span x n default (suc fuel) r sync_service
            (limits_of t fuel transport_timeout_s read_timeout_s) first
            (after_open id r second last cs i) o h.header patient
            (sync_fits id (suc fuel) h.header h.host_id) (omega (arith, h.host_id, h.device_id))
            h.firsts).at
          s.device on in
      let size : d1.maxdata ≡ s.device.maxdata =
        sym (ap (λ y. y.1.maxdata) run)
        ∙ (open_to-maxdata t s.device.maxdata (suc fuel) sync_service
              (limits_of t fuel transport_timeout_s read_timeout_s)).at
            s.device refl in
      let (d2, run2, on2) =
        served t incoming sent start span x n default r fuel s.device.maxdata
          (limits_of t fuel transport_timeout_s read_timeout_s) patient path first second last cs
          blocks h i (o ++ bytes_of (opening id sync_service)) s d1 on1 in
      (
        d2,
        ap (λ m. m s) (nonempty_path path _ some_path)
            ∙ after_ok (on_device (when_available (pure tt))) _ s s tt (rw on.ready refl)
            ∙ after_ok (lift (ok tt)) _ s s tt refl
            ∙ after_ok (modify (λ y. record y { stream = [] })) _ s (record s { stream = [] }) tt
                refl
            ∙ after_ok _ _ _ (record s { device = d1; stream = [] })
                (transaction id (some r) default
                  (limits_of t fuel transport_timeout_s read_timeout_s))
                (ap (λ y. (y.0, record s { device = y.1; stream = [] })) run)
            ∙ after_ok _ _ _ (record s { device = d1; stream = [] })
                (new_filesync 2 s.device.maxdata)
                (ap (λ k. (ok (new_filesync 2 k), record s { device = d1; stream = [] })) size)
            ∙ run2,
        on2,
      )

module _ {D : Type 0} (t : Transport D) (incoming sent : D → List ℕ) (start span : ℕ)
    (x : Duplex t incoming sent start span) (s : Transfer D) (r fuel : ℕ)
    (transport_timeout_s : Option ℕ) (read_timeout_s : ℕ) (path : List ℕ)
    (first second last : List Packet) (cs : List Piece) (blocks : List (List ℕ))
    (rest : List ℕ) where
  abbrev stream_id : ℕ
  stream_id = next_local_id s.device.local_id

  -- The file has been written to the local stream, and the device's stream has been read to its end.
  abbrev pub HasArrived : Exec (Transfer D) (Unit {0}) → Type 0
  HasArrived m =
      (d : AdbDevice D) × (m s ≡ (ok tt, record s { device = d; stream = join blocks }))
      × (incoming d.io.transport ≡ rest)
      × (sent d.io.transport
          ≡ pull_written stream_id r path (length cs) (sent s.device.io.transport))
      × IsIdle stream_id d.io.store
      × (d.local_id ≡ stream_id)
      × (d.available ≡ true)

  -- Over a transport that delivers what the device sends and records what the host writes, with a clock
  -- that keeps to every limit, and with a store where nothing waits for the new stream: where the device
  -- answers the `OPEN` and the request with an `OKAY` each and sends a file as `DATA` packets and a `DONE`,
  -- cut into non-empty `WRTE`s in any way, and then a `CLSE`, with any packets of other streams in between,
  -- `pull` of an available device, without a callback, with a path that is not empty and a local file that
  -- can be opened, returns and has written exactly the blocks of the file. It takes exactly these packets
  -- off the stream, and it has written exactly its `OPEN`, a `WRTE` with the request, one `OKAY` for each
  -- `WRTE` of the device, and its `CLSE`, in this order. Nothing of the stream is left in the store. The
  -- ids, the lengths and the fuel are within the bounds that `IsPull` states.
  pub pull_lem :
      s.device.available ≡ true
      → IsIdle stream_id s.device.io.store
      → IsPatient span (limits_of t fuel transport_timeout_s read_timeout_s)
      → IsPull stream_id r fuel s.device.maxdata path first second last cs blocks
      → is_nonempty path ≡ true
      → incoming s.device.io.transport ≡ pull_answer stream_id r first second last cs rest
      → HasArrived (pull t fuel path (ok tt) false transport_timeout_s read_timeout_s)
  pull_lem ready idle patient h some_path heard = arrives fuel patient h
    where
      start_line :
          OnLine t incoming sent start span x stream_id s.device.local_id
            s.device.default_transport_timeout_s
            (pull_answer stream_id r first second last cs rest)
            (sent s.device.io.transport)
            s.device
      start_line = record {
        line = record { traffic = record { heard = heard; told = refl }; idle = idle };
        ready = ready;
        counter = refl;
        limit = refl;
      }

      arrives :
          (rounds : ℕ)
          → IsPatient span (limits_of t rounds transport_timeout_s read_timeout_s)
          → IsPull stream_id r rounds s.device.maxdata path first second last cs blocks
          → HasArrived (pull t rounds path (ok tt) false transport_timeout_s read_timeout_s)
      arrives zero patient h = absurd (omega (arith, h.header))
      arrives (suc rounds) patient h =
          let (d, q, on) =
            full_pull t incoming sent start span x s.device.local_id
              s.device.default_transport_timeout_s r rounds transport_timeout_s read_timeout_s
              patient path first second last cs blocks rest (sent s.device.io.transport) s
              start_line h some_path in
          (d, q, on.line.traffic.heard, on.line.traffic.told, on.line.idle, on.counter, on.ready)
