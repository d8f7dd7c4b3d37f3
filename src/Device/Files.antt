-- ===== src/Device/Files.antt =====
-- `list`, `stat`, `pull` and `push`, with `get_files_to_push` of hidden_helpers.py.
use adb_shell.Common.{
  ℕ, zero, suc, ◌/◌, List, [], ◌∷◌, ◌++◌, map, Bool, true, false, Option, none, some, length, take,
  drop, ◌==◌, if◌then◌else◌,
}
use adb_shell.Common.Text.{encode, decimal}
use adb_shell.Errors.{Error, Result, ok, err, push_failed, value_error, out_of_fuel}
use adb_shell.Exec.{Exec, pure, raise, lift, gets, modify, zoom, finally, ◌>>=◌, ◌>>◌}
use adb_shell.Constants.{
  FileSyncId, data_chunk, dent, done, fail, list, recv, stat, same_filesync, second,
  default_read_timeout_s,
}
use adb_shell.TransactionInfo.{AdbInfo}
use adb_shell.FileSyncInfo.{FileSyncInfo, new_filesync}
use adb_shell.PacketStore.{is_nonempty}
use adb_shell.Transport.{Transport}
use adb_shell.IoManager.{on_transport}
use adb_shell.IoManager.Packets.{now}
use adb_shell.Device.{AdbDevice, on_io, when_available, when_path, chunk_size}
use adb_shell.Device.Streams.{Limits, open_to, clse_stream}
use adb_shell.Device.Services.{shell}
use adb_shell.Device.FileSync.{read_one, send_data, send_sized, bytes_of}

pub record DeviceFile : Type 0 where
  pub filename : List ℕ
  pub mode : ℕ
  pub size : ℕ
  pub mtime : ℕ

-- What the methods ask of the local file system.
pub record Files : Type 0 where
  pub is_dir : List ℕ → Bool
  pub listdir : List ℕ → List (List ℕ)
  -- open(path, 'rb') and what reading it to the end gives
  pub contents : List ℕ → Result (List ℕ)
  -- os.fstat(...).st_size
  pub file_size : List ℕ → Result ℕ

-- A BytesIO object, by its contents, or a path.
pub data LocalPath : Type 0 where
  bytes_io : List ℕ → LocalPath
  path : List ℕ → LocalPath

-- A transfer: the device, the local stream (what was written to it, or what is still to be read), and
-- the calls of the progress callback, as bytes and total.
pub record Transfer (D : Type 0) : Type 0 where
  pub device : AdbDevice D
  pub stream : List ℕ
  pub progress : List (ℕ × ℕ)

abbrev pub on_device : {D A : Type 0} → Exec (AdbDevice D) A → Exec (Transfer D) A
on_device = zoom (λ x. x.device) (λ d x. record x { device = d })

-- `progress_callback(device_path, n, total)`; what it raises is swallowed.
abbrev pub report : {D : Type 0} → Option ℕ → ℕ → Exec (Transfer D) (Unit {0})
report none n = pure tt
report (some total) n = modify (λ x. record x { progress = x.progress ++ (n, total) ∷ [] })

abbrev pub sync_service : List ℕ
sync_service = b's' ∷ b'y' ∷ b'n' ∷ b'c' ∷ b':' ∷ []

-- mode, size, mtime = header
abbrev pub three_words : List ℕ → Result (ℕ × ℕ × ℕ)
three_words (mode ∷ size ∷ mtime ∷ []) = ok (mode, size, mtime)
three_words _ = err value_error

-- local_path_is_dir, and the local paths with the paths on the device. For a directory the local
-- paths are the names that os.listdir returns, not joined with the directory.
unfoldable pub get_files_to_push : Files → LocalPath → List ℕ → Bool × List (LocalPath × List ℕ)
get_files_to_push fs (bytes_io b) device_path = (false, (bytes_io b, device_path) ∷ [])
get_files_to_push fs (path p) device_path =
    if fs.is_dir p
    then (true, map (λ f. (path f, device_path ++ (b'/' ∷ f))) (fs.listdir p))
    else (false, (path p, device_path) ∷ [])

abbrev pub open_local : Files → LocalPath → Result (List ℕ)
open_local fs (bytes_io b) = ok b
open_local fs (path p) = fs.contents p

-- A BytesIO object has no file number.
abbrev pub local_size : Files → LocalPath → Error → Result ℕ
local_size fs (bytes_io b) no_fileno = err no_fileno
local_size fs (path p) no_fileno = fs.file_size p

module _ {D : Type 0} (t : Transport D) (fuel : ℕ) where
  abbrev pub limits_of : Option ℕ → ℕ → Limits
  limits_of transport_timeout_s read_timeout_s = record {
    transport_timeout_s = transport_timeout_s;
    read_timeout_s = read_timeout_s;
    timeout_s = none;
  }

  abbrev pub transaction : ℕ → Exec (AdbDevice D) FileSyncInfo
  transaction recv_words = gets (λ d. new_filesync recv_words d.maxdata)

  -- The loop over `_filesync_read_until` in `list`.
  unfoldable pub list_loop :
      ℕ → AdbInfo → FileSyncInfo → List DeviceFile → Exec (AdbDevice D) (List DeviceFile)
  list_loop zero info f files = raise out_of_fuel
  list_loop (suc rounds) info f files = do
    (reply, g) ← read_one t fuel (dent ∷ done ∷ []) info f
    if same_filesync reply.command_id done then pure files else do
      (mode, size, mtime) ← lift (three_words reply.header)
      list_loop rounds info g (
          files
          ++ (record {
            filename = bytes_of t fuel reply.payload;
            mode = mode;
            size = size;
            mtime = mtime;
          })
            ∷ [])

  unfoldable pub list_files : List ℕ → Option ℕ → ℕ → Exec (AdbDevice D) (List DeviceFile)
  list_files device_path transport_timeout_s read_timeout_s = when_path device_path (
      when_available (do
        info ← open_to t fuel sync_service (limits_of transport_timeout_s read_timeout_s)
        f ← transaction 5
        g ← send_data t fuel list info f (encode device_path)
        files ← list_loop fuel info g []
        clse_stream t fuel info
        pure files))

  unfoldable pub stat_file : List ℕ → Option ℕ → ℕ → Exec (AdbDevice D) (ℕ × ℕ × ℕ)
  stat_file device_path transport_timeout_s read_timeout_s = when_path device_path (
      when_available (do
        info ← open_to t fuel sync_service (limits_of transport_timeout_s read_timeout_s)
        f ← transaction 4
        g ← send_data t fuel stat info f (encode device_path)
        (reply, _) ← read_one t fuel (stat ∷ []) info g
        words ← lift (three_words reply.header)
        clse_stream t fuel info
        pure words))

  -- The loop over `_filesync_read_until` in `_pull`; `total` is there with a callback.
  unfoldable pub pull_loop : ℕ → AdbInfo → FileSyncInfo → Option ℕ → Exec (Transfer D) (Unit {0})
  pull_loop zero info f total = raise out_of_fuel
  pull_loop (suc rounds) info f total = do
    (reply, g) ← on_device (read_one t fuel (data_chunk ∷ done ∷ []) info f)
    if same_filesync reply.command_id done then pure tt else do
      modify (λ x. record x { stream = x.stream ++ bytes_of t fuel reply.payload })
      report total (length (bytes_of t fuel reply.payload))
      pull_loop rounds info g total

  -- With a callback the size of the file is asked for first.
  unfoldable pub total_bytes : Bool → List ℕ → Exec (AdbDevice D) (Option ℕ)
  total_bytes false device_path = pure none
  total_bytes true device_path = do
    (_, size, _) ← stat_file device_path none default_read_timeout_s
    pure (some size)

  unfoldable pub pull_into : List ℕ → Bool → AdbInfo → FileSyncInfo → Exec (Transfer D) (Unit {0})
  pull_into device_path callback info f = do
    total ← on_device (total_bytes callback device_path)
    g ← on_device (send_data t fuel recv info f (encode device_path))
    pull_loop fuel info g total

  -- `opened` is what open(local_path, 'wb') does; the stream starts out empty.
  unfoldable pub pull :
      List ℕ → Result (Unit {0}) → Bool → Option ℕ → ℕ → Exec (Transfer D) (Unit {0})
  pull device_path opened callback transport_timeout_s read_timeout_s = when_path device_path (do
    on_device (when_available (pure tt))
    lift opened
    modify (λ x. record x { stream = [] })
    info ← on_device (open_to t fuel sync_service (limits_of transport_timeout_s read_timeout_s))
    f ← on_device (transaction 2)
    finally (pull_into device_path callback info f) (on_device (clse_stream t fuel info)))

  -- while True: data = stream.read(self.max_chunk_size)
  unfoldable pub push_loop : ℕ → AdbInfo → FileSyncInfo → Option ℕ → Exec (Transfer D) FileSyncInfo
  push_loop zero info f total = raise out_of_fuel
  push_loop (suc rounds) info f total = do
    n ← gets (λ x. chunk_size x.device)
    chunk ← gets (λ x. take n x.stream)
    modify (λ x. record x { stream = drop n x.stream })
    if is_nonempty chunk
        then (do
          g ← on_device (send_data t fuel data_chunk info f chunk)
          report total (length chunk)
          push_loop rounds info g total)
        else pure f

  -- if mtime == 0: mtime = int(time.time())
  unfoldable pub mtime_or_now : ℕ → Exec (AdbDevice D) ℕ
  mtime_or_now mtime =
      if mtime == 0 then (do n ← on_io (on_transport (now t)); pure (n / second)) else pure mtime

  unfoldable pub total_size : Bool → Result ℕ → Result (Option ℕ)
  total_size false size = ok none
  total_size true (ok n) = ok (some n)
  total_size true (err e) = err e

  -- The last packet, and the device's answer to it.
  unfoldable pub finish_push : ℕ → AdbInfo → FileSyncInfo → Exec (AdbDevice D) (Unit {0})
  finish_push mtime info f = do
    stamp ← mtime_or_now mtime
    g ← send_sized t fuel done info f [] stamp
    (reply, _) ← read_one t fuel (FileSyncId.okay ∷ fail ∷ []) info g
    if same_filesync reply.command_id FileSyncId.okay
        then pure tt
        else raise (push_failed (bytes_of t fuel reply.payload))

  -- `_push`, with '{},{}'.format(device_path, st_mode)
  unfoldable pub push_stream :
      List ℕ → ℕ → ℕ → Bool → Result ℕ → AdbInfo → FileSyncInfo → Exec (Transfer D) (Unit {0})
  push_stream device_path st_mode mtime callback size info f = do
    f1 ←
        on_device (
          send_data t fuel FileSyncId.send info f
            (encode (device_path ++ (b',' ∷ decimal st_mode))))
    total ← lift (total_size callback size)
    left ← gets (λ x. length x.stream)
    f2 ← push_loop (suc left) info f1 total
    on_device (finish_push mtime info f2)

  module _ (fs : Files) (no_fileno : Error) (st_mode mtime : ℕ) (callback : Bool)
      (transport_timeout_s : Option ℕ) (read_timeout_s : ℕ) where
    abbrev push_limits : Limits
    push_limits = limits_of transport_timeout_s read_timeout_s

    -- The loop over the files.
    unfoldable pub push_files : List (LocalPath × List ℕ) → Exec (Transfer D) (Unit {0})
    push_files [] = pure tt
    push_files ((local, device_path) ∷ rest) = do
      content ← lift (open_local fs local)
      modify (λ x. record x { stream = content })
      info ← on_device (open_to t fuel sync_service push_limits)
      f ← on_device (transaction 2)
      push_stream device_path st_mode mtime callback (local_size fs local no_fileno) info f
      on_device (clse_stream t fuel info)
      push_files rest

    abbrev pub mkdir : List ℕ
    mkdir = b'm' ∷ b'k' ∷ b'd' ∷ b'i' ∷ b'r' ∷ b' ' ∷ []

    unfoldable pub push : LocalPath → List ℕ → Exec (Transfer D) (Unit {0})
    push local_path device_path = when_path device_path (do
      on_device (when_available (pure tt))
      let (local_path_is_dir, files) = get_files_to_push fs local_path device_path
      if local_path_is_dir
          then (do on_device (shell t fuel (mkdir ++ device_path) push_limits true); pure tt)
          else pure tt
      push_files files)
