-- ===== src/Device/Session/Replies.antt =====
-- One packet of a FileSync stream of any cut: `_filesync_read` of AdbDevice (adb_device.py).
use adb_shell.Common.{
  ℕ, ◌*◌, ◌^◌, ◌≤◌, ◌<◌, ◌≡◌, refl, sym, ap, ◌∙◌, List, [], ◌∷◌, ◌++◌, true, false, Option, some,
  length, take, drop, arith, length-append, take-append_exact, drop-append_exact, if◌then◌else◌,
  ◌==◌,
}
use mathlib.Core.Path.{subst}
use mathlib.Core.List.{append_assoc}
use adb_shell.Errors.{ok}
use adb_shell.Exec.{pure}
use adb_shell.Constants.{FileSyncId, stat, same_filesync, filesync_id_to_wire, filesync_wire_to_id}
use adb_shell.Constants.Wire.{filesync_id_to_wire-lt, filesync_there}
use adb_shell.Message.Struct.{words, unpack_words, length-words, unpack_words-words}
use adb_shell.TransactionInfo.{AdbInfo}
use adb_shell.Transport.{Transport}
use adb_shell.Transport.Stream.{Duplex}
use adb_shell.IoManager.Session.Wires.{Fits}
use adb_shell.FileSyncInfo.{FileSyncInfo, recv_message_size}
use adb_shell.Device.{AdbDevice}
use adb_shell.Device.FileSync.{
  FileSyncReply, is_expected_id, read_buffered, read_body, flush, known_id, accept, read_one,
}
use adb_shell.Device.Session.{acknowledged}
use adb_shell.Device.Session.Feeding.{after_ok}
use adb_shell.Device.Session.Buffering.{IsReading, read_buffered_lem}

-- A FileSync packet: the id and the size in 32-bit words, and the data.
abbrev pub header_of : FileSyncId → ℕ → List ℕ
header_of id size = words (filesync_id_to_wire id ∷ size ∷ [])

abbrev pub packet : FileSyncId → List ℕ → List ℕ
packet id body = header_of id (length body) ++ body

abbrev pub IsShort : List ℕ → Type 0
IsShort b = length b < 2 ^ 32

abbrev pub reply_of : FileSyncId → List ℕ → FileSyncReply
reply_of id body = record { command_id = id; header = []; payload = some body }

pub length-header : (id : FileSyncId) (size : ℕ) → length (header_of id size) ≡ 8
length-header id size = omega (arith, length-words (filesync_id_to_wire id ∷ size ∷ []))

header_read :
    (id : FileSyncId) (size : ℕ)
    → size < 2 ^ 32
    → unpack_words 2 (header_of id size) ≡ ok (filesync_id_to_wire id ∷ size ∷ [])
header_read id size h =
    unpack_words-words (filesync_id_to_wire id ∷ size ∷ []) (filesync_id_to_wire-lt id, (h, tt))

taken :
    (id : FileSyncId) (size : ℕ) (rest : List ℕ)
    → take 8 (header_of id size ++ rest) ≡ header_of id size
taken id size rest =
    ap (λ k. take k (header_of id size ++ rest)) (sym (length-header id size))
    ∙ take-append_exact (header_of id size) rest

dropped : (id : FileSyncId) (size : ℕ) (rest : List ℕ) → drop 8 (header_of id size ++ rest) ≡ rest
dropped id size rest =
    ap (λ k. drop k (header_of id size ++ rest)) (sym (length-header id size))
    ∙ drop-append_exact (header_of id size) rest

module _ {D : Type 0} (t : Transport D) (incoming sent : D → List ℕ) (start span : ℕ)
    (x : Duplex t incoming sent start span) (l n : ℕ) (default : Option ℕ) (info : AdbInfo) (r : ℕ)
    (own : info.local_id ≡ some l) (far : info.remote_id ≡ some r) (fuel : ℕ) (big : 24 ≤ fuel)
    (patient : span ≤ info.read_timeout_s) (ack_fits : Fits fuel (acknowledged l r)) where
  abbrev Reading : ℕ → List ℕ → List ℕ → List ℕ → FileSyncInfo → AdbDevice D → Type 0
  Reading m i o total f d =
      IsReading t incoming sent start span x l n default info r own far fuel big patient ack_fits 2
        m i o total f d

  buffered :
      (size m : ℕ) (i o total : List ℕ) (f : FileSyncInfo) (d : AdbDevice D)
      → Reading m i o total f d
      → size ≤ length total
      → m ≤ fuel
      → (g : FileSyncInfo) × (d' : AdbDevice D) × (read_buffered t fuel size info f d
          ≡ (ok (take size total, g), d'))
        × Reading m i o (drop size total) g d'
  buffered size m i o total f d h enough few =
      read_buffered_lem t incoming sent start span x l n default info r own far fuel big patient
        ack_fits size 2 m i o total f d h enough few

  body_read :
      (id : FileSyncId) (body rest : List ℕ) (m : ℕ) (i o : List ℕ) (f : FileSyncInfo)
      (d : AdbDevice D)
      → same_filesync id stat ≡ false
      → m ≤ fuel
      → Reading m i o (body ++ rest) f d
      → (g : FileSyncInfo) × (d' : AdbDevice D) × (read_body t fuel id
            (filesync_id_to_wire id ∷ length body ∷ [])
            info
            f
            d
          ≡ (ok (some body, g), d'))
        × Reading m i o rest g d'
  unfolding read_body
  body_read id body rest m i o f d plain few h =
      let (g, d', run, after) =
        buffered (length body) m i o (body ++ rest) f d h (omega (arith, length-append body rest))
          few in
      (
        g,
        d',
        rw plain (
            after_ok _ _ d d' _ run ∙ ap (λ y. (ok (some y, g), d')) (take-append_exact body rest)),
        subst (λ y. Reading m i o y g d') (drop-append_exact body rest) after,
      )

  read_steps :
      (expected : List FileSyncId) (id : FileSyncId) (body : List ℕ) (f g k : FileSyncInfo)
      (d d' d'' : AdbDevice D)
      → is_expected_id id expected ≡ true
      → f.send_idx ≡ 0
      → f.recv_words ≡ 2
      → g.recv_words ≡ 2
      → IsShort body
      → read_buffered t fuel 8 info f d ≡ (ok (header_of id (length body), g), d')
      → read_body t fuel id (filesync_id_to_wire id ∷ length body ∷ []) info g d'
        ≡ (ok (some body, k), d'')
      → read_one t fuel expected info f d ≡ (ok (reply_of id body, k), d'')
  unfolding read_one accept
  read_steps expected id body f g k d d' d'' hoped idle two two' short first second =
      let wire = filesync_id_to_wire id ∷ length body ∷ [] in
      after_ok _ _ d d f start_of
      ∙ after_ok _ _ d d' (header_of id (length body), g) sized
      ∙ after_ok _ _ d' d' wire (ap (λ y. (y, d')) unpacked)
      ∙ after_ok _ _ d' d' id (ap (λ y. (y, d')) known)
      ∙ after_ok _ _ d' d'' (some body, k) second
      ∙ after_ok _ _ d'' d'' (reply_of id body) (ap (λ y. (y, d'')) accepted)
    where
      start_of : (if f.send_idx == 0 then pure f else flush t fuel info f) d ≡ (ok f, d)
      start_of = rw idle refl

      sized :
          read_buffered t fuel (recv_message_size f) info f d
          ≡ (ok (header_of id (length body), g), d')
      sized = ap (λ w. read_buffered t fuel (4 * w) info f d) two ∙ first

      unpacked :
          unpack_words g.recv_words (header_of id (length body))
          ≡ ok (filesync_id_to_wire id ∷ length body ∷ [])
      unpacked =
          ap (λ w. unpack_words w (header_of id (length body))) two'
          ∙ header_read id (length body) short

      known : known_id t fuel (filesync_wire_to_id (filesync_id_to_wire id)) ≡ ok id
      known = rw (filesync_there id) refl

      accepted :
          accept t fuel expected id (filesync_id_to_wire id ∷ length body ∷ []) (some body)
          ≡ ok (reply_of id body)
      accepted = rw hoped refl

  -- A packet is read, however the `WRTE`s cut it.
  pub read_one_lem :
      (expected : List FileSyncId) (id : FileSyncId) (body rest : List ℕ) (m : ℕ) (i o : List ℕ)
      (f : FileSyncInfo) (d : AdbDevice D)
      → same_filesync id stat ≡ false
      → is_expected_id id expected ≡ true
      → IsShort body
      → m ≤ fuel
      → Reading m i o (packet id body ++ rest) f d
      → (g : FileSyncInfo) × (d' : AdbDevice D) × (read_one t fuel expected info f d
          ≡ (ok (reply_of id body, g), d'))
        × Reading m i o rest g d'
  read_one_lem expected id body rest m i o f d plain hoped short few h =
      let head = header_of id (length body) in
      let whole = append_assoc head body rest in
      let h' = subst (λ y. Reading m i o y f d) whole h in
      let (g, d', run, h1) =
        buffered 8 m i o (head ++ (body ++ rest)) f d h'
          (omega (arith, length-append head (body ++ rest), length-header id (length body))) few in
      let run' = run ∙ ap (λ y. (ok (y, g), d')) (taken id (length body) (body ++ rest)) in
      let h1' = subst (λ y. Reading m i o y g d') (dropped id (length body) (body ++ rest)) h1 in
      let (k, d'', run2, h2) = body_read id body rest m i o g d' plain few h1' in
      (
        k,
        d'',
        read_steps expected id body f g k d d' d'' hoped h.flushed h.format h1'.format short run'
            run2,
        h2,
      )
