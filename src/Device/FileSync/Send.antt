-- ===== src/Device/FileSync/Send.antt =====
-- `_filesync_send` and `_filesync_flush` of AdbDevice (adb_device.py) and the send buffer.
use adb_shell.Common.{
  ℕ, ◌+◌, ◌≤◌, ◌≡◌, sym, ap, ◌∙◌, List, [], ◌∷◌, ◌++◌, Bool, true, false, arith, length,
  length-append, if◌then◌else◌,
}
use mathlib.Core.Path.{subst}
use adb_shell.Errors.{ok, ok_inj}
use adb_shell.Exec.{pure}
use adb_shell.Exec.Rules.{bind-ok}
use adb_shell.Constants.{FileSyncId, filesync_id_to_wire}
use adb_shell.Message.Struct.{pack_words, pack_fields, words, length-words}
use adb_shell.TransactionInfo.{AdbInfo}
use adb_shell.FileSyncInfo.{FileSyncInfo, can_add_to_send_buffer, add_to_send_buffer, pending}
use adb_shell.FileSyncInfo.Buffer.{IsValid, pending-add, add-IsValid}
use adb_shell.Transport.{Transport}
use adb_shell.Device.{AdbDevice}
use adb_shell.Device.FileSync.{flush, send_sized}

-- The buffer when the new bytes are added: empty, if they did not fit.
abbrev pub room_for : FileSyncInfo → ℕ → FileSyncInfo
room_for f n = if can_add_to_send_buffer f n then f else record f { send_idx = 0 }

module _ {D : Type 0} (t : Transport D) (fuel : ℕ) (info : AdbInfo) where
  flush_value :
      (f g : FileSyncInfo) (d : AdbDevice D)
      → (flush t fuel info f d).0 ≡ ok g
      → record f { send_idx = 0 } ≡ g
  unfolding flush
  flush_value f g d e =
      let (u, sent, rest, same) = bind-ok _ _ d _ e in
      let (p, read, last, same') = bind-ok _ _ _ _ rest in ok_inj last

  room_value :
      (b : Bool) (f g : FileSyncInfo) (d : AdbDevice D)
      → ((if b then pure f else flush t fuel info f) d).0 ≡ ok g
      → (if b then f else record f { send_idx = 0 }) ≡ g
  room_value true f g d e = ok_inj e
  room_value false f g d e = flush_value f g d e

  added :
      (id : FileSyncId) (f g : FileSyncInfo) (payload : List ℕ) (size : ℕ) (d : AdbDevice D)
      → (send_sized t fuel id info f payload size d).0 ≡ ok g
      → (head : List ℕ) × (pack_words (filesync_id_to_wire id ∷ size ∷ []) ≡ ok head)
        × (add_to_send_buffer (room_for f (length payload)) (head ++ payload) ≡ g)
  unfolding send_sized
  added id f g payload size d e =
      let (f1, room, rest, same) = bind-ok _ _ d _ e in
      let (head, packed, last, same') = bind-ok _ _ _ _ rest in
      (
        head,
        packed,
        ap (λ x. add_to_send_buffer x (head ++ payload)) (room_value _ f f1 d room) ∙ ok_inj last,
      )

two_words :
    (a b : ℕ) (head : List ℕ) → pack_words (a ∷ b ∷ []) ≡ ok head → words (a ∷ b ∷ []) ≡ head
unfolding pack_words pack_fields words
two_words a b head e = ground (arith, e)

room_for-IsValid : (f : FileSyncInfo) (n : ℕ) → IsValid f → IsValid (room_for f n)
room_for-IsValid f n v = go (can_add_to_send_buffer f n)
  where
    go : (b : Bool) → IsValid (if b then f else record f { send_idx = 0 })
    go true = v
    go false = record { size = v.size; within = omega arith }

room_for_fits :
    (f : FileSyncInfo) (n : ℕ)
    → 2 ≤ f.recv_words
    → 8 + n ≤ f.maxdata
    → (room_for f n).send_idx + (8 + n) ≤ (room_for f n).maxdata
unfolding can_add_to_send_buffer
room_for_fits f n h fits = ground arith

room_for_maxdata :
    (f : FileSyncInfo) (n : ℕ) (head payload : List ℕ)
    → (add_to_send_buffer (room_for f n) (head ++ payload)).maxdata ≡ f.maxdata
unfolding add_to_send_buffer
room_for_maxdata f n head payload = ground arith

-- The FileSync packet: the id and the size as words, and the data.
abbrev pub filesync_packet : FileSyncId → ℕ → List ℕ → List ℕ
filesync_packet id size payload = words (filesync_id_to_wire id ∷ size ∷ []) ++ payload

-- Where a valid buffer has room for 8 bytes and the data when it is empty, and a received header has
-- two words at least: when `_filesync_send` returns, the buffer is valid again, so it has the size that
-- it was made with, and the bytes of the packet, its id, its size and its data, wait in it behind those
-- that waited, or behind none if the buffer was flushed.
pub send_sized_lem :
    {D : Type 0} (t : Transport D) (fuel : ℕ) (info : AdbInfo) (id : FileSyncId)
    (f g : FileSyncInfo) (payload : List ℕ) (size : ℕ) (d : AdbDevice D)
    → IsValid f
    → 2 ≤ f.recv_words
    → 8 + length payload ≤ f.maxdata
    → (send_sized t fuel id info f payload size d).0 ≡ ok g
    → IsValid g
      × (g.maxdata ≡ f.maxdata)
      × (pending g ≡ pending (room_for f (length payload)) ++ filesync_packet id size payload)
send_sized_lem t fuel info id f g payload size d v two fits e =
    let (head, packed, same) = added t fuel info id f g payload size d e in
    let n = length payload in
    let f1 = room_for f n in
    let v1 = room_for-IsValid f n v in
    let ws = words (filesync_id_to_wire id ∷ size ∷ []) in
    let bytes : ws ≡ head = two_words _ _ head packed in
    let g_is : add_to_send_buffer f1 (ws ++ payload) ≡ g =
      ap (λ h. add_to_send_buffer f1 (h ++ payload)) bytes ∙ same in
    let long : length (ws ++ payload) ≡ 8 + n =
      omega (arith, length-append ws payload, length-words (filesync_id_to_wire id ∷ size ∷ [])) in
    (
      subst IsValid g_is
          (add-IsValid f1 (ws ++ payload) v1 (omega (arith, long, room_for_fits f n two fits))),
      ap (λ x. x.maxdata) (sym g_is) ∙ room_for_maxdata f n ws payload,
      sym (ap pending g_is) ∙ pending-add f1 (ws ++ payload) v1,
    )
