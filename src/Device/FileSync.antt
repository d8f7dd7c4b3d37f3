-- ===== src/Device/FileSync.antt =====
-- The FileSync packets inside a stream: `_filesync_flush`, `_filesync_read`, `_filesync_read_buffered`
-- and `_filesync_send`. The transaction's `_FileSyncTransactionInfo` is handed in and returned; when
-- a method raises, no caller looks at it again.
pub mod Send
use adb_shell.Common.{
  ℕ, zero, suc, List, [], ◌∷◌, ◌++◌, Bool, false, ◌||◌, Option, none, some, length, take, drop, ltb,
  ◌==◌, if◌then◌else◌,
}
use adb_shell.Errors.{
  Result, ok, err, key_error, adb_command_failure, invalid_response, out_of_fuel,
}
use adb_shell.Exec.{Exec, pure, raise, lift, ◌>>=◌, ◌>>◌}
use adb_shell.Constants.{
  okay, wrte, FileSyncId, fail, stat, same_filesync, filesync_id_to_wire, filesync_wire_to_id,
}
use adb_shell.Message.{new_message}
use adb_shell.Message.Struct.{pack_words, unpack_words}
use adb_shell.TransactionInfo.{AdbInfo}
use adb_shell.FileSyncInfo.{
  FileSyncInfo, recv_message_size, can_add_to_send_buffer, add_to_send_buffer, pending,
}
use adb_shell.Transport.{Transport}
use adb_shell.Device.{AdbDevice}
use adb_shell.Device.Streams.{send, read_until}

-- command_id in expected_ids
unfoldable pub is_expected_id : FileSyncId → List FileSyncId → Bool
is_expected_id c [] = false
is_expected_id c (e ∷ es) = same_filesync c e || is_expected_id c es

-- What `_filesync_read` returns: the header's words behind the id (without the size, where data
-- follows), and the data.
pub record FileSyncReply : Type 0 where
  pub command_id : FileSyncId
  pub header : List ℕ
  pub payload : Option (List ℕ)

-- header[0], header[-1] and header[1:-1]; a header has two words at least.
abbrev pub first_word : List ℕ → ℕ
first_word [] = 0
first_word (w ∷ ws) = w

abbrev pub last_word : List ℕ → ℕ
last_word [] = 0
last_word (w ∷ []) = w
last_word (w ∷ v ∷ ws) = last_word (v ∷ ws)

abbrev pub rest_words : List ℕ → List ℕ
rest_words [] = []
rest_words (w ∷ ws) = ws

abbrev pub but_last : List ℕ → List ℕ
but_last [] = []
but_last (w ∷ []) = []
but_last (w ∷ v ∷ ws) = w ∷ but_last (v ∷ ws)

module _ {D : Type 0} (t : Transport D) (fuel : ℕ) where
  unfoldable pub flush : AdbInfo → FileSyncInfo → Exec (AdbDevice D) FileSyncInfo
  flush info f = do
    send t (new_message wrte info.local_id info.remote_id (pending f)) info
    read_until t fuel (okay ∷ []) info
    pure (record f { send_idx = 0 })

  -- while len(recv_buffer) < size
  unfoldable pub fill : ℕ → ℕ → AdbInfo → FileSyncInfo → Exec (AdbDevice D) FileSyncInfo
  fill zero size info f = if ltb (length f.recv_buffer) size then raise out_of_fuel else pure f
  fill (suc rounds) size info f =
      if ltb (length f.recv_buffer) size
      then (do
        (_, payload) ← read_until t fuel (wrte ∷ []) info
        fill rounds size info (record f { recv_buffer = f.recv_buffer ++ payload }))
      else pure f

  unfoldable pub read_buffered :
      ℕ → AdbInfo → FileSyncInfo → Exec (AdbDevice D) (List ℕ × FileSyncInfo)
  read_buffered size info f = do
    g ← fill fuel size info f
    pure (take size g.recv_buffer, record g { recv_buffer = drop size g.recv_buffer })

  -- The data of a packet: none follows a STAT.
  unfoldable pub read_body :
      FileSyncId
      → List ℕ
      → AdbInfo
      → FileSyncInfo
      → Exec (AdbDevice D) (Option (List ℕ) × FileSyncInfo)
  read_body id header info f =
      if same_filesync id stat
      then pure (none, f)
      else do (body, g) ← read_buffered (last_word header) info f; pure (some body, g)

  abbrev pub bytes_of : Option (List ℕ) → List ℕ
  bytes_of none = []
  bytes_of (some body) = body

  -- What is returned, or raised, once a packet has been read.
  unfoldable pub accept :
      List FileSyncId → FileSyncId → List ℕ → Option (List ℕ) → Result FileSyncReply
  accept expected id header payload =
      if is_expected_id id expected
      then ok (record {
        command_id = id;
        header = (elim payload [
          | none ↦ rest_words header
          | some _ ↦ but_last (rest_words header)
        ]);
        payload = payload;
      })
      else if same_filesync id fail
      then err (adb_command_failure (bytes_of payload))
      else err invalid_response

  abbrev pub known_id : Option FileSyncId → Result FileSyncId
  known_id none = err key_error
  known_id (some id) = ok id

  unfoldable pub read_one :
      List FileSyncId → AdbInfo → FileSyncInfo → Exec (AdbDevice D) (FileSyncReply × FileSyncInfo)
  read_one expected info f = do
    f1 ← (if f.send_idx == 0 then pure f else flush info f)
    (header_data, f2) ← read_buffered (recv_message_size f1) info f1
    header ← lift (unpack_words f2.recv_words header_data)
    id ← lift (known_id (filesync_wire_to_id (first_word header)))
    (payload, f3) ← read_body id header info f2
    reply ← lift (accept expected id header payload)
    pure (reply, f3)

  -- `size` overrides the length of the data.
  unfoldable pub send_sized :
      FileSyncId → AdbInfo → FileSyncInfo → List ℕ → ℕ → Exec (AdbDevice D) FileSyncInfo
  send_sized id info f payload size = do
    f1 ← (if can_add_to_send_buffer f (length payload) then pure f else flush info f)
    head ← lift (pack_words (filesync_id_to_wire id ∷ size ∷ []))
    pure (add_to_send_buffer f1 (head ++ payload))

  unfoldable pub send_data :
      FileSyncId → AdbInfo → FileSyncInfo → List ℕ → Exec (AdbDevice D) FileSyncInfo
  send_data id info f payload = send_sized id info f payload (length payload)
