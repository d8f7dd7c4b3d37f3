-- ===== src/Device/Session/Buffering.antt =====
-- The FileSync stream of a service, whatever `WRTE`s it comes in: `_filesync_read_buffered` of AdbDevice
-- (adb_device.py).
use adb_shell.Common.{
  ℕ, zero, suc, ◌+◌, ◌≤◌, ◌≡◌, refl, sym, ap, ◌∙◌, List, [], ◌∷◌, ◌++◌, Option, some, length, All,
  take, drop, arith, take-append_le,
}
use mathlib.Core.Path.{subst}
use mathlib.Core.List.{append_assoc}
use adb_shell.Errors.{ok}
use adb_shell.TransactionInfo.{AdbInfo}
use adb_shell.Transport.{Transport}
use adb_shell.Transport.Stream.{Duplex}
use adb_shell.IoManager.Session.Wires.{Fits}
use adb_shell.FileSyncInfo.{FileSyncInfo}
use adb_shell.Device.{AdbDevice}
use adb_shell.Device.Streams.{join}
use adb_shell.Device.FileSync.{read_buffered}
use adb_shell.Device.Session.{Piece, acknowledged}
use adb_shell.Device.Session.Lines.{OnLine}
use adb_shell.Device.Session.Closing.{chunks}
use adb_shell.Device.Session.Feeding.{fed, okays, okays-add, after_ok, IsFull, fill_lem}

drop-append_le : (n : ℕ) (xs ys : List ℕ) → n ≤ length xs → drop n (xs ++ ys) ≡ drop n xs ++ ys
drop-append_le zero xs ys h = refl
drop-append_le (suc n) [] ys h = absurd (omega (arith, h))
drop-append_le (suc n) (x ∷ xs) ys h = drop-append_le n xs ys (omega (arith, h))

module _ {D : Type 0} (t : Transport D) (incoming sent : D → List ℕ) (start span : ℕ)
    (x : Duplex t incoming sent start span) (l n : ℕ) (default : Option ℕ) (info : AdbInfo) (r : ℕ)
    (own : info.local_id ≡ some l) (far : info.remote_id ≡ some r) (fuel : ℕ) (big : 24 ≤ fuel)
    (patient : span ≤ info.read_timeout_s) (ack_fits : Fits fuel (acknowledged l r)) where
  -- `total` is still to be read from the buffer and from what is left of `m` pieces.
  pub record IsReading (words m : ℕ) (i o total : List ℕ) (f : FileSyncInfo) (d : AdbDevice D)
      : Type 0 where
    pub left : List Piece
    pub okayed : ℕ
    pub on :
        OnLine t incoming sent start span x l n default (fed l r left i) (o ++ okays l r okayed) d
    pub stream : f.recv_buffer ++ join (chunks left) ≡ total
    pub counted : okayed + length left ≡ m
    pub full : All (IsFull l r fuel) left
    pub flushed : f.send_idx ≡ 0
    pub format : f.recv_words ≡ words

  -- `size` bytes are returned, and the rest is still to be read.
  pub read_buffered_lem :
      (size words m : ℕ) (i o total : List ℕ) (f : FileSyncInfo) (d : AdbDevice D)
      → IsReading words m i o total f d
      → size ≤ length total
      → m ≤ fuel
      → (g : FileSyncInfo) × (d' : AdbDevice D) × (read_buffered t fuel size info f d
          ≡ (ok (take size total, g), d'))
        × IsReading words m i o (drop size total) g d'
  unfolding read_buffered
  read_buffered_lem size words m i o total f d h enough few =
      let (b, d', run, long, k) =
        fill_lem t incoming sent start span x l n default info r own far fuel big patient ack_fits
          fuel size f h.left i (o ++ okays l r h.okayed) d h.on
          (subst (λ y. size ≤ length y) (sym h.stream) enough) (omega (arith, few, h.counted))
          h.full in
      let whole = k.stream ∙ h.stream in
      let cut = sym (take-append_le size b (join (chunks k.left)) long) ∙ ap (take size) whole in
      (
        record f { recv_buffer = drop size b },
        d',
        after_ok _ _ d d' _ run
            ∙ ap (λ y. (ok (y, record f { recv_buffer = drop size b }), d')) cut,
        record {
          left = k.left;
          okayed = h.okayed + k.okayed;
          on =
              rw
                (
                  ← okays-add l r h.okayed k.okayed,
                  ← append_assoc o (okays l r h.okayed) (okays l r k.okayed),
                )
                k.on;
          stream = sym (drop-append_le size b (join (chunks k.left)) long) ∙ ap (drop size) whole;
          counted = omega (arith, k.counted, h.counted);
          full = k.full;
          flushed = h.flushed;
          format = h.format;
        },
      )
