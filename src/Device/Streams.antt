-- ===== src/Device/Streams.antt =====
-- The packets of one stream: `_open`, `_clse`, `_okay`, `_read_until`, `_read_until_close`,
-- `_streaming_command`, `_service`.
pub mod LocalId
pub mod Acknowledge
use adb_shell.Common.{
  ℕ, zero, suc, ◌+◌, ◌-◌, ◌^◌, List, [], ◌∷◌, ◌++◌, Bool, true, false, Option, none, some, ltb,
  ◌==◌, if◌then◌else◌,
}
use adb_shell.Errors.{Result, ok, err, adb_timeout, out_of_fuel}
use adb_shell.Exec.{Exec, pure, raise, lift, gets, modify, zoom, ◌>>=◌, ◌>>◌}
use adb_shell.Constants.{Command, clse, okay, open_stream, wrte, same_command}
use adb_shell.Message.{AdbMessage, new_message}
use adb_shell.TransactionInfo.{AdbInfo, new_info}
use adb_shell.Transport.{Transport}
use adb_shell.IoManager.{IoManager, on_transport}
use adb_shell.IoManager.Packets.{now}
use adb_shell.IoManager.Packets
use adb_shell.IoManager.Read
use adb_shell.Device.{AdbDevice, on_io, given_or}

-- The limits that a caller gives: transport_timeout_s, read_timeout_s, timeout_s.
pub record Limits : Type 0 where
  pub transport_timeout_s : Option ℕ
  pub read_timeout_s : ℕ
  pub timeout_s : Option ℕ

-- self._local_id += 1; if self._local_id == 2**32: self._local_id = 1
unfoldable pub next_local_id : ℕ → ℕ
next_local_id n = if n + 1 == 2 ^ 32 then 1 else n + 1

-- A generator's run: the device, and what was yielded so far.
pub record Streaming (D : Type 0) : Type 0 where
  pub device : AdbDevice D
  pub yielded : List (List ℕ)

abbrev pub on_device : {D A : Type 0} → Exec (AdbDevice D) A → Exec (Streaming D) A
on_device = zoom (λ g. g.device) (λ d g. record g { device = d })

abbrev pub yield : {D : Type 0} → List ℕ → Exec (Streaming D) (Unit {0})
yield chunk = modify (λ g. record g { yielded = g.yielded ++ chunk ∷ [] })

-- The output of a command: bytes, or the text that `decode('utf8', _DECODE_ERRORS)` makes of them.
pub data Output : Type 0 where
  raw decoded : List ℕ → Output

abbrev pub output : Bool → List ℕ → Output
output true bytes = decoded bytes
output false bytes = raw bytes

-- b''.join(chunks)
unfoldable pub join : List (List ℕ) → List ℕ
join [] = []
join (c ∷ cs) = c ++ join cs

module _ {D : Type 0} (t : Transport D) where
  -- self._io_manager.send
  unfoldable pub send : AdbMessage → AdbInfo → Exec (AdbDevice D) (Unit {0})
  send msg info = on_io (on_transport (Packets.send t msg info))

  unfoldable pub okay_stream : AdbInfo → Exec (AdbDevice D) (Unit {0})
  okay_stream info = send (new_message okay info.local_id info.remote_id []) info

  unfoldable pub fresh_id : Exec (AdbDevice D) ℕ
  fresh_id d = let n = next_local_id d.local_id in (ok n, record d { local_id = n })

  unfoldable pub open_to : ℕ → List ℕ → Limits → Exec (AdbDevice D) AdbInfo
  open_to fuel destination limits = do
    id ← fresh_id
    default ← gets (λ d. d.default_transport_timeout_s)
    let info =
        new_info (some id) none (given_or limits.transport_timeout_s default) limits.read_timeout_s
          limits.timeout_s
    send (new_message open_stream info.local_id (some 0) (destination ++ 0 ∷ [])) info
    p ← on_io (Read.read t fuel (okay ∷ []) info false)
    pure (record info { remote_id = some p.arg0 })

  unfoldable pub read_until : ℕ → List Command → AdbInfo → Exec (AdbDevice D) (Command × List ℕ)
  read_until fuel expected info = do
    p ← on_io (Read.read t fuel expected info true)
    if same_command p.cmd wrte then okay_stream info else pure tt
    pure (p.cmd, p.payload)

  unfoldable pub clse_stream : ℕ → AdbInfo → Exec (AdbDevice D) (Unit {0})
  clse_stream fuel info = do
    send (new_message clse info.local_id info.remote_id []) info
    read_until fuel (clse ∷ []) info
    pure tt

  -- if timeout_s is not None and time.time() - start > timeout_s: raise AdbTimeoutError
  unfoldable pub check_timeout : ℕ → Option ℕ → Exec (AdbDevice D) (Unit {0})
  check_timeout start none = pure tt
  check_timeout start (some limit) = do
    n ← on_io (on_transport (now t))
    if ltb limit (n - start) then raise adb_timeout else pure tt

  -- The rounds of `while True` in `_read_until_close`.
  unfoldable pub read_close_loop : ℕ → ℕ → ℕ → AdbInfo → Exec (Streaming D) (Unit {0})
  read_close_loop zero fuel start info = raise out_of_fuel
  read_close_loop (suc rounds) fuel start info = do
    (cmd, payload) ← on_device (read_until fuel (clse ∷ wrte ∷ []) info)
    let rest = read_close_loop rounds fuel start info
    if same_command cmd clse
        then on_device (send (new_message clse info.local_id info.remote_id []) info)
        else (do yield payload; on_device (check_timeout start info.timeout_s); rest)

  unfoldable pub read_until_close : ℕ → AdbInfo → Exec (Streaming D) (Unit {0})
  read_until_close fuel info = do
    start ← on_device (on_io (on_transport (now t)))
    read_close_loop fuel fuel start info

  unfoldable pub streaming_command : ℕ → List ℕ → List ℕ → Limits → Exec (Streaming D) (Unit {0})
  streaming_command fuel service command limits = do
    info ← on_device (open_to fuel (service ++ (b':' ∷ command)) limits)
    read_until_close fuel info

  -- Running a generator to its end: everything that it yielded, unless it raised.
  unfoldable pub collect : Exec (Streaming D) (Unit {0}) → Exec (AdbDevice D) (List (List ℕ))
  collect m d =
      let (r, g) = m (record { device = d; yielded = [] }) in
      (elim r [ ok _ ↦ ok g.yielded | err e ↦ err e ], g.device)

  unfoldable pub service : ℕ → List ℕ → List ℕ → Limits → Bool → Exec (AdbDevice D) Output
  service fuel name command limits decode = do
    chunks ← collect (streaming_command fuel name command limits)
    pure (output decode (join chunks))
