-- ===== src/Device/Session/Pull.antt =====
-- `pull` of AdbDevice (adb_device.py) without a callback, from its `OPEN` to its `CLSE`.
use adb_shell.Common.{
  ℕ, suc, ◌+◌, ◌^◌, ◌≤◌, ◌<◌, ◌≡◌, refl, sym, ap, ◌∙◌, List, [], ◌++◌, false, Option, none, some,
  length, All, arith, length-append,
}
use mathlib.Core.Path.{subst}
use mathlib.Core.List.{append-nil}
use adb_shell.Common.Text.{encode}
use adb_shell.Errors.{ok}
use adb_shell.Exec.{Exec, finally, settle, zoom}
use adb_shell.Constants.{recv}
use adb_shell.TransactionInfo.{AdbInfo, new_info}
use adb_shell.PacketStore.{Packet}
use adb_shell.Transport.{Transport}
use adb_shell.Transport.Stream.{Duplex}
use adb_shell.IoManager.Session.Wires.{Fits, bytes_of, wires}
use adb_shell.FileSyncInfo.{FileSyncInfo, new_filesync}
use adb_shell.Device.{AdbDevice}
use adb_shell.Device.Streams.{Limits, join, next_local_id, clse_stream}
use adb_shell.Device.Files.{Transfer, on_device, total_bytes, pull_into, sync_service}
use adb_shell.Device.Session.{Piece, AreOthers, acknowledged, opening, opened, closed, closing}
use adb_shell.Device.Session.Lines.{OnLine}
use adb_shell.Device.Session.Opening.{IsPatient, transaction, transaction_patient}
use adb_shell.Device.Session.Closing.{chunks}
use adb_shell.Device.Session.Feeding.{fed, okays, after_ok, IsFull}
use adb_shell.Device.Session.Buffering.{IsReading}
use adb_shell.Device.Session.Replies.{packet, header_of, IsShort}
use adb_shell.Device.Session.Pulling.{file_packets, pull_loop_lem}
use adb_shell.Device.Session.Requests.{
  requested, IsPending, send_data_lem, pull_loop_flushed, flush-Gives, clse_stream-Gives,
}

-- What the device answers: packets of other streams (`first`, `second` and `last`) before its `OKAY`s
-- and its `CLSE`, and the packets of the file in `WRTE`s of any cut. The ids and the lengths fit 32 bits,
-- the request has room in the buffer, and every loop has more rounds than it needs.
pub record IsPull (l r fuel maxdata : ℕ) (path : List ℕ) (first second last : List Packet)
    (cs : List Piece) (blocks : List (List ℕ)) : Type 0 where
  pub header : 24 ≤ fuel
  pub host_id : l < 2 ^ 32
  pub device_id : r < 2 ^ 32
  pub room : 8 + length (encode path) < maxdata
  pub request : Fits fuel (requested l r (packet recv (encode path)))
  pub firsts : AreOthers l fuel first
  pub seconds : AreOthers l fuel second
  pub lasts : AreOthers l fuel last
  pub pieces : All (IsFull l r fuel) cs
  pub piece_rounds : length cs ≤ fuel
  pub blocks_short : All IsShort blocks
  pub block_rounds : length blocks < fuel
  pub contents : join (chunks cs) ≡ file_packets blocks

finally_after :
    {S A B : Type 0} (m : Exec S A) (k : Exec S B) (s s' s'' : S) (a : A) (b : B)
    → m s ≡ (ok a, s')
    → k s' ≡ (ok b, s'')
    → finally m k s ≡ (ok a, s'')
unfolding finally
finally_after m k s s' s'' a b e e' =
    ap (λ y. (settle y.0 (k y.1).0, (k y.1).1)) e ∙ ap (λ y. (settle (ok a) y.0, y.1)) e'

module _ (l r : ℕ) where
  abbrev pub after_request : List Packet → List Piece → List ℕ → List ℕ
  after_request last cs i = fed l r cs (wires last ++ (bytes_of (closed l r) ++ i))

  abbrev pub after_open : List Packet → List Packet → List Piece → List ℕ → List ℕ
  after_open second last cs i = wires second ++ (bytes_of (opened l r) ++ after_request last cs i)

  abbrev pub pull_answer : List Packet → List Packet → List Packet → List Piece → List ℕ → List ℕ
  pull_answer first second last cs i =
      wires first ++ (bytes_of (opened l r) ++ after_open second last cs i)

  -- All that the host writes.
  abbrev pub pull_written : List ℕ → ℕ → List ℕ → List ℕ
  pull_written path m o =
      (((o ++ bytes_of (opening l sync_service))
          ++ bytes_of (requested l r (packet recv (encode path))))
        ++ okays l r m)
      ++ bytes_of (closing l r)

module _ {D : Type 0} (t : Transport D) (incoming sent : D → List ℕ) (start span : ℕ)
    (x : Duplex t incoming sent start span) (n : ℕ) (default : Option ℕ) (r fuel maxdata : ℕ)
    (limits : Limits) (patient : IsPatient span limits) (path : List ℕ)
    (first second last : List Packet) (cs : List Piece) (blocks : List (List ℕ)) where
  abbrev l : ℕ
  l = next_local_id n

  abbrev info : AdbInfo
  info = transaction l (some r) default limits

  abbrev On : ℕ → List ℕ → List ℕ → AdbDevice D → Type 0
  On m = OnLine t incoming sent start span x l m default

  own_id : info.local_id ≡ some l
  unfolding new_info
  own_id = refl

  far_id : info.remote_id ≡ some r
  far_id = refl

  module _ (h : IsPull l r (suc fuel) maxdata path first second last cs blocks) where
    okay_fits : Fits (suc fuel) (opened l r)
    okay_fits = omega (arith, h.host_id, h.device_id)

    ack_fits : Fits (suc fuel) (acknowledged l r)
    ack_fits = omega (arith, h.host_id, h.device_id)

    closing_fits : Fits (suc fuel) (closing l r)
    closing_fits = omega (arith, h.host_id, h.device_id)

    closed_fits : Fits (suc fuel) (closed l r)
    closed_fits = omega (arith, h.host_id, h.device_id)

    path_short :
        Fits (suc fuel) (requested l r (packet recv (encode path))) → length (encode path) < 2 ^ 32
    path_short fits =
        omega
          (arith, fits.short, length-append (header_of recv (length (encode path))) (encode path))

    -- All of the file is still to be read behind the request.
    ready :
        (i o : List ℕ) (f : FileSyncInfo) (d : AdbDevice D)
        → IsPending 2 (packet recv (encode path)) f
        → On l
            (after_request l r last cs i)
            (o ++ bytes_of (requested l r (packet recv (encode path))))
            d
        → IsReading t incoming sent start span x l l default info r own_id far_id
            (suc fuel)
            h.header
            (transaction_patient l (some r) default span limits patient)
            ack_fits
            2
            (length cs)
            (wires last ++ (bytes_of (closed l r) ++ i))
            (o ++ bytes_of (requested l r (packet recv (encode path))))
            (file_packets blocks)
            (record f { send_idx = 0 })
            d
    unfolding okays
    ready i o f d p on = record {
      left = cs;
      okayed = 0;
      on = rw (append-nil (o ++ bytes_of (requested l r (packet recv (encode path))))) on;
      stream = ap (λ b. b ++ join (chunks cs)) p.empty ∙ h.contents;
      counted = omega arith;
      full = h.pieces;
      flushed = refl;
      format = p.format;
    }

    -- The request, and the file.
    downloaded :
        (i o : List ℕ) (s : Transfer D)
        → On l (after_open l r second last cs i) o s.device
        → (d : AdbDevice D) × (pull_into t (suc fuel) path false info (new_filesync 2 maxdata) s ≡ (
          ok tt,
          record { device = d; stream = s.stream ++ join blocks; progress = s.progress ++ [] },
        ))
          × On l
              (wires last ++ (bytes_of (closed l r) ++ i))
              ((o ++ bytes_of (requested l r (packet recv (encode path)))) ++ okays l r (length cs))
              d
    unfolding pull_into total_bytes zoom
    downloaded i o s on =
        let (f, packed, p) =
          send_data_lem t (suc fuel) info recv 2 maxdata (encode path) s.device h.room
            (path_short h.request) in
        let (d1, sent_off, on1) =
          (flush-Gives t incoming sent start span x l l default info r own_id far_id (suc fuel)
              h.header (transaction_patient l (some r) default span limits patient) f second
              (after_request l r last cs i) o
              (subst (λ y. Fits (suc fuel) (requested l r y)) (sym p.bytes) h.request) okay_fits
              h.seconds).at
            s.device on in
        let g = record f { send_idx = 0 } in
        let (d', run, on') =
          pull_loop_lem t incoming sent start span x l l default info r own_id far_id (suc fuel)
            h.header (transaction_patient l (some r) default span limits patient) ack_fits
            (suc fuel) none blocks (length cs) (wires last ++ (bytes_of (closed l r) ++ i))
            (o ++ bytes_of (requested l r (packet recv (encode path)))) g (record s { device = d1 })
            (ready i o f d1 p (
              subst (λ y. On l (after_request l r last cs i) (o ++ bytes_of (requested l r y)) d1)
                p.bytes on1))
            h.block_rounds h.blocks_short h.piece_rounds in
        (
          d',
          after_ok _ _ s s none refl
              ∙ after_ok _ _ s s f (ap (λ y. (y.0, record s { device = y.1 })) packed)
              ∙ pull_loop_flushed t (suc fuel) info fuel none f g s d1 p.waiting sent_off refl
              ∙ run,
          on',
        )

    -- The service in the device's stream, to its `CLSE`.
    pub served :
        (i o : List ℕ) (s : Transfer D) (d : AdbDevice D)
        → On l (after_open l r second last cs i) o d
        → (d' : AdbDevice D) × (finally
              (pull_into t (suc fuel) path false info (new_filesync 2 maxdata))
              (on_device (clse_stream t (suc fuel) info))
              (record s { device = d; stream = [] })
            ≡ (ok tt, record s { device = d'; stream = join blocks }))
          × On l i
              (((o ++ bytes_of (requested l r (packet recv (encode path))))
                  ++ okays l r (length cs))
                ++ bytes_of (closing l r))
              d'
    unfolding zoom
    served i o s d on =
        let (d1, run, on1) = downloaded i o (record s { device = d; stream = [] }) on in
        let (d2, ended, on2) =
          (clse_stream-Gives t incoming sent start span x l l default info r own_id far_id
              (suc fuel) h.header (transaction_patient l (some r) default span limits patient) last
              i _ closing_fits closed_fits h.lasts).at
            d1 on1 in
        (
          d2,
          finally_after _ _ _ (record s { device = d1; stream = join blocks }) _ tt tt
              (run
                ∙ ap (λ q. (ok tt, record s { device = d1; stream = join blocks; progress = q }))
                    (append-nil s.progress))
              (ap (λ y. (y.0, record s { device = y.1; stream = join blocks })) ended),
          on2,
        )
