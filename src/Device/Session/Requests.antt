-- ===== src/Device/Session/Requests.antt =====
-- The request of a FileSync service and the end of its stream: `_filesync_send`, `_filesync_flush` and
-- `_clse` of AdbDevice (adb_device.py).
use adb_shell.Common.{
  ℕ, suc, ◌+◌, ◌*◌, ◌^◌, ◌≤◌, ◌<◌, ◌≡◌, ◌==◌, refl, sym, ap, ◌∙◌, List, [], ◌∷◌, ◌++◌, true, false,
  Option, some, length, arith, length-append, lt→ltb, if◌then◌else◌,
}
use adb_shell.Errors.{ok}
use adb_shell.Exec.{Exec, ◌>>=◌, continue, pure, zoom}
use adb_shell.Exec.Rules.{Keeps, Keeps-zoom, Keeps-bind, Keeps-gets, Keeps-pure}
use adb_shell.Exec.Gives.{Gives, Gives-pure, Gives-bind}
use adb_shell.Constants.{
  FileSyncId, wrte, okay, clse, same_command, filesync_id_to_wire, data_chunk, done,
}
use adb_shell.Constants.Wire.{filesync_id_to_wire-lt}
use adb_shell.Message.Struct.{pack_words, pack_words-words}
use adb_shell.TransactionInfo.{AdbInfo}
use adb_shell.PacketStore.{Packet}
use adb_shell.Transport.{Transport}
use adb_shell.Transport.Stream.{Duplex}
use adb_shell.IoManager.{is_expected}
use adb_shell.IoManager.Session.Wires.{Fits, bytes_of, wires}
use adb_shell.FileSyncInfo.{
  FileSyncInfo, new_filesync, can_add_to_send_buffer, add_to_send_buffer, pending,
}
use adb_shell.FileSyncInfo.Buffer.{pending-add, new_filesync-IsValid}
use adb_shell.Device.{AdbDevice}
use adb_shell.Device.Streams.{Limits, clse_stream, open_to, fresh_id, send}
use adb_shell.Device.FileSync.{flush, send_sized, send_data, read_one}
use adb_shell.Device.Files.{Transfer, pull_loop}
use adb_shell.Device.Session.{AreOthers, opened, closed, closing}
use adb_shell.Device.Session.Lines.{OnLine, sent-Gives, read_plain}
use adb_shell.Device.Session.Feeding.{after_ok}
use adb_shell.Device.Session.Replies.{packet, header_of, length-header}

-- The `WRTE` of the host.
abbrev pub requested : ℕ → ℕ → List ℕ → Packet
requested l r payload = record { cmd = wrte; arg0 = l; arg1 = r; payload = payload }

nonzero : (n : ℕ) → 0 < n → (n == 0) ≡ false
nonzero n h = ground arith

-- A request is in the buffer of a new transaction, where it has room.
pub record IsPending (words : ℕ) (request : List ℕ) (f : FileSyncInfo) : Type 0 where
  pub bytes : pending f ≡ request
  pub waiting : (f.send_idx == 0) ≡ false
  pub empty : f.recv_buffer ≡ []
  pub format : f.recv_words ≡ words

module _ (recv_words maxdata : ℕ) where
  nothing_pending : pending (new_filesync recv_words maxdata) ≡ []
  unfolding pending new_filesync
  nothing_pending = refl

  has_room :
      (n : ℕ)
      → 4 * recv_words + n < maxdata
      → can_add_to_send_buffer (new_filesync recv_words maxdata) n ≡ true
  unfolding can_add_to_send_buffer new_filesync
  has_room n room = lt→ltb _ _ (omega (arith, room))

  request_waits :
      (id : FileSyncId) (payload : List ℕ)
      → ((add_to_send_buffer (new_filesync recv_words maxdata) (packet id payload)).send_idx == 0)
        ≡ false
  unfolding add_to_send_buffer new_filesync
  request_waits id payload = nonzero _ (
      omega (
        arith,
        length-append (header_of id (length payload)) payload,
        length-header id (length payload),
      ))

-- The same result of a first action.
same_start :
    {S A B : Type 0} (m m' : Exec S A) (f : A → Exec S B) (s s' : S)
    → m s ≡ m' s'
    → (m >>= f) s ≡ (m' >>= f) s'
unfolding ◌>>=◌
same_start m m' f s s' e = ap (λ y. continue y.0 f y.1) e

module _ {D : Type 0} (t : Transport D) (fuel : ℕ) (info : AdbInfo) where
  pub send_data_lem :
      (id : FileSyncId) (recv_words maxdata : ℕ) (payload : List ℕ) (d : AdbDevice D)
      → 4 * recv_words + length payload < maxdata
      → length payload < 2 ^ 32
      → (f : FileSyncInfo) × (send_data t fuel id info (new_filesync recv_words maxdata) payload d
          ≡ (ok f, d))
        × IsPending recv_words (packet id payload) f
  unfolding send_data send_sized new_filesync add_to_send_buffer
  send_data_lem id recv_words maxdata payload d room short =
      let f0 = new_filesync recv_words maxdata in
      let head = header_of id (length payload) in
      let packed : pack_words (filesync_id_to_wire id ∷ length payload ∷ []) ≡ ok head =
        pack_words-words (filesync_id_to_wire id ∷ length payload ∷ [])
          (filesync_id_to_wire-lt id, (short, tt)) in
      (
        add_to_send_buffer f0 (head ++ payload),
        after_ok
              (if can_add_to_send_buffer f0 (length payload) then pure f0 else flush t fuel info f0)
              _ d d f0 (rw (has_room recv_words maxdata (length payload) room) refl)
            ∙ after_ok _ _ d d head (ap (λ y. (y, d)) packed),
        record {
          bytes =
              pending-add f0 (head ++ payload) (new_filesync-IsValid recv_words maxdata)
              ∙ ap (λ p. p ++ (head ++ payload)) (nothing_pending recv_words maxdata);
          waiting = request_waits recv_words maxdata id payload;
          empty = refl;
          format = refl;
        },
      )

  -- A buffer that is not empty is flushed first.
  flushed_first :
      (expected : List FileSyncId) (f g : FileSyncInfo) (d d' : AdbDevice D)
      → (f.send_idx == 0) ≡ false
      → flush t fuel info f d ≡ (ok g, d')
      → (g.send_idx == 0) ≡ true
      → read_one t fuel expected info f d ≡ read_one t fuel expected info g d'
  unfolding read_one
  flushed_first expected f g d d' some_bytes run idle =
      after_ok _ _ d d' g (rw some_bytes run) ∙ sym (after_ok _ _ d' d' g (rw idle refl))

  pub pull_loop_flushed :
      (rounds : ℕ) (total : Option ℕ) (f g : FileSyncInfo) (s : Transfer D) (d' : AdbDevice D)
      → (f.send_idx == 0) ≡ false
      → flush t fuel info f s.device ≡ (ok g, d')
      → (g.send_idx == 0) ≡ true
      → pull_loop t fuel (suc rounds) info f total s
        ≡ pull_loop t fuel (suc rounds) info g total (record s { device = d' })
  unfolding pull_loop zoom
  pull_loop_flushed rounds total f g s d' some_bytes run idle =
      same_start _ _ _ s (record s { device = d' })
        (ap (λ y. (y.0, record s { device = y.1 }))
          (flushed_first (data_chunk ∷ done ∷ []) f g s.device d' some_bytes run idle))

module _ {D : Type 0} (t : Transport D) (k : ℕ) where
  -- The greatest length of the data stays.
  pub open_to-maxdata :
      (fuel : ℕ) (destination : List ℕ) (limits : Limits)
      → Keeps (λ d. d.maxdata ≡ k) (open_to t fuel destination limits)
  unfolding open_to fresh_id send
  open_to-maxdata fuel destination limits =
      Keeps-bind _ _ (record { at = λ d h. h })
        (λ id. Keeps-bind _ _ (Keeps-gets _) (λ default.
          Keeps-bind _ _ (Keeps-zoom _ _ _ (λ d h. h))
            (λ _. Keeps-bind _ _ (Keeps-zoom _ _ _ (λ d h. h)) (λ p. Keeps-pure _))))

module _ {D : Type 0} (t : Transport D) (incoming sent : D → List ℕ) (start span : ℕ)
    (x : Duplex t incoming sent start span) (l n : ℕ) (default : Option ℕ) (info : AdbInfo) (r : ℕ)
    (own : info.local_id ≡ some l) (far : info.remote_id ≡ some r) (fuel : ℕ) (big : 24 ≤ fuel)
    (patient : span ≤ info.read_timeout_s) where
  abbrev On : List ℕ → List ℕ → AdbDevice D → Type 0
  On = OnLine t incoming sent start span x l n default

  -- The host's `WRTE` and the device's `OKAY`.
  pub flush-Gives :
      (f : FileSyncInfo) (others : List Packet) (i o : List ℕ)
      → Fits fuel (requested l r (pending f))
      → Fits fuel (opened l r)
      → AreOthers l fuel others
      → Gives
          (On (wires others ++ (bytes_of (opened l r) ++ i)) o)
          (record f { send_idx = 0 })
          (On i (o ++ bytes_of (requested l r (pending f))))
          (flush t fuel info f)
  unfolding flush send is_expected same_command
  flush-Gives f others i o fits okay_fits h =
      Gives-bind _ _
        (sent-Gives t incoming sent start span x l n default info fuel (requested l r (pending f)) _
          _ _ o own far fits)
        (Gives-bind _ _
          (read_plain t incoming sent start span x l n default info r own fuel big patient far
            (okay ∷ []) okay [] others i _ okay_fits refl h refl)
          (Gives-pure _))

  -- The `CLSE` of either side.
  pub clse_stream-Gives :
      (others : List Packet) (i o : List ℕ)
      → Fits fuel (closing l r)
      → Fits fuel (closed l r)
      → AreOthers l fuel others
      → Gives
          (On (wires others ++ (bytes_of (closed l r) ++ i)) o)
          tt
          (On i (o ++ bytes_of (closing l r)))
          (clse_stream t fuel info)
  unfolding clse_stream send is_expected same_command
  clse_stream-Gives others i o fits far_fits h =
      Gives-bind _ _
        (sent-Gives t incoming sent start span x l n default info fuel (closing l r) _ _ _ o own far
          fits)
        (Gives-bind _ _
          (read_plain t incoming sent start span x l n default info r own fuel big patient far
            (clse ∷ []) clse [] others i _ far_fits refl h refl)
          (Gives-pure _))
