-- ===== src/Device/Invariant.antt =====
-- The state of AdbDevice (adb_device.py): a valid packet store, and a local id in range.
pub mod Files
pub mod Transfers
pub mod Calls
use adb_shell.Common.{
  ℕ, zero, suc, ◌+◌, ◌^◌, ◌<◌, ◌≡◌, refl, List, [], ◌∷◌, Bool, true, false, Option, none, some,
  arith, if◌then◌else◌,
}
use adb_shell.Errors.{Error, Result, ok, err, adb_connection, device_path_invalid, out_of_fuel}
use adb_shell.Exec.{Exec, ◌>>=◌, ◌>>◌, zoom, modify, finally, lift}
use adb_shell.Exec.Rules.{
  Keeps, Keeps-zoom, Keeps-pure, Keeps-raise, Keeps-lift, Keeps-if, Keeps-bind, Keeps-finally,
  Keeps-gets, keeps_rules,
}
use adb_shell.Constants.{Command, FileSyncId}
use adb_shell.Message.{AdbMessage}
use adb_shell.TransactionInfo.{AdbInfo}
use adb_shell.PacketStore.Dicts.{IsValid}
use adb_shell.FileSyncInfo.{FileSyncInfo}
use adb_shell.Transport.{Transport, Signer, Credentials}
use adb_shell.IoManager
use adb_shell.IoManager.{IoManager, on_transport}
use adb_shell.IoManager.Invariant
use adb_shell.IoManager.Invariant.{on_transport-IsSound, close-Keeps, read-Keeps, connect-IsSound}
use adb_shell.IoManager.Connect.{run_callback}
use adb_shell.Device.{AdbDevice, on_io, close, connect, when_available, when_path, new_device}
use adb_shell.Device.Streams.{
  Limits, Streaming, next_local_id, send, okay_stream, fresh_id, open_to, read_until, clse_stream,
  check_timeout, read_close_loop, read_until_close, streaming_command, collect, service, on_device,
  yield,
}
use adb_shell.Device.Streams.LocalId.{next_local_id_range}
use adb_shell.Device.Services.{exec_out, reboot, root, shell, streaming_shell}

module _ {D : Type 0} where
  pub record IsSound (d : AdbDevice D) : Type 0 where
    pub store : IsValid d.io.store
    pub id : d.local_id < 2 ^ 32

  on_io-IsSound :
      {A : Type 0} (m : Exec (IoManager D) A) → Keeps Invariant.IsSound m → Keeps IsSound (on_io m)
  on_io-IsSound m k = Keeps-zoom _ _ m (λ d h. record { store = k.at d.io h.store; id = h.id })

  modify-IsSound :
      (f : AdbDevice D → AdbDevice D)
      → ((d : AdbDevice D) → IsSound d → IsSound (f d))
      → Keeps IsSound (modify f)
  modify-IsSound f h = record { at = h }

  when_available-Keeps :
      {A : Type 0} (m : Exec (AdbDevice D) A) → Keeps IsSound m → Keeps IsSound (when_available m)
  unfolding when_available
  when_available-Keeps m k = record {
    at = λ d h. (Keeps-if d.available m _ k (Keeps-raise adb_connection)).at d h;
  }

  -- The same of a generator's run.
  abbrev IsSoundRun : Streaming D → Type 0
  IsSoundRun g = IsSound g.device

  on_device-Keeps :
      {A : Type 0} (m : Exec (AdbDevice D) A) → Keeps IsSound m → Keeps IsSoundRun (on_device m)
  on_device-Keeps m k = Keeps-zoom _ _ m (λ g h. k.at g.device h)

  collect-Keeps :
      (t : Transport D) (m : Exec (Streaming D) (Unit {0}))
      → Keeps IsSoundRun m
      → Keeps IsSound (collect t m)
  unfolding collect
  collect-Keeps t m k = record { at = λ d h. k.at (record { device = d; yielded = [] }) h }

pub when_path-Keeps :
    {S A : Type 0} {P : S → Type 0} (path : List ℕ) (m : Exec S A)
    → Keeps P m
    → Keeps P (when_path path m)
unfolding when_path
when_path-Keeps [] m k = Keeps-raise device_path_invalid
when_path-Keeps (c ∷ path) m k = k

module _ {D : Type 0} (t : Transport D) where
  send-Keeps : (msg : AdbMessage) (info : AdbInfo) → Keeps IsSound (send t msg info)
  unfolding send
  send-Keeps msg info = on_io-IsSound _ (on_transport-IsSound _)

  fresh_id-Keeps : Keeps IsSound (fresh_id t)
  unfolding fresh_id
  fresh_id-Keeps = record {
    at = λ d h. record { store = h.store; id = (next_local_id_range d.local_id h.id).1 };
  }

  ruleset device_rules = (keeps_rules, send-Keeps, fresh_id-Keeps)

  pub open_to-Keeps :
      (fuel : ℕ) (destination : List ℕ) (limits : Limits)
      → Keeps IsSound (open_to t fuel destination limits)
  unfolding open_to
  open_to-Keeps fuel destination limits = Keeps-bind _ _ fresh_id-Keeps (λ id.
      Keeps-bind _ _ (Keeps-gets _) (λ default.
        Keeps-bind _ _ (send-Keeps _ _)
          (λ _. Keeps-bind _ _ (on_io-IsSound _ (read-Keeps t fuel _ _ _)) (λ p. Keeps-pure _))))

  pub read_until-Keeps :
      (fuel : ℕ) (expected : List Command) (info : AdbInfo)
      → Keeps IsSound (read_until t fuel expected info)
  unfolding read_until okay_stream
  read_until-Keeps fuel expected info =
      Keeps-bind _ _ (on_io-IsSound _ (read-Keeps t fuel _ _ _))
        (λ p. Keeps-bind _ _ (Keeps-if _ _ _ (send-Keeps _ _) (Keeps-pure tt)) (λ _. Keeps-pure _))

  pub clse_stream-Keeps : (fuel : ℕ) (info : AdbInfo) → Keeps IsSound (clse_stream t fuel info)
  unfolding clse_stream
  clse_stream-Keeps fuel info = search (keeps_rules, send-Keeps, read_until-Keeps)

  check_timeout-Keeps : (start : ℕ) (limit : Option ℕ) → Keeps IsSound (check_timeout t start limit)
  unfolding check_timeout
  check_timeout-Keeps start none = Keeps-pure tt
  check_timeout-Keeps start (some limit) =
      Keeps-bind _ _ (on_io-IsSound _ (on_transport-IsSound _))
        (λ n. Keeps-if _ _ _ (Keeps-raise _) (Keeps-pure tt))

  yield-Keeps : (chunk : List ℕ) → Keeps (IsSoundRun {D = D}) (yield chunk)
  yield-Keeps chunk = record { at = λ g h. h }

  read_close_loop-Keeps :
      (rounds fuel start : ℕ) (info : AdbInfo)
      → Keeps IsSoundRun (read_close_loop t rounds fuel start info)
  unfolding read_close_loop
  read_close_loop-Keeps zero fuel start info = Keeps-raise out_of_fuel
  read_close_loop-Keeps (suc rounds) fuel start info =
      Keeps-bind _ _ (on_device-Keeps _ (read_until-Keeps fuel _ info)) (λ r.
        Keeps-if _ _ _ (on_device-Keeps _ (send-Keeps _ _)) (
          Keeps-bind _ _ (yield-Keeps r.1) (λ _.
            Keeps-bind _ _ (on_device-Keeps _ (check_timeout-Keeps start info.timeout_s))
              (λ _. read_close_loop-Keeps rounds fuel start info))))

  streaming_command-Keeps :
      (fuel : ℕ) (name command : List ℕ) (limits : Limits)
      → Keeps IsSoundRun (streaming_command t fuel name command limits)
  unfolding streaming_command read_until_close
  streaming_command-Keeps fuel name command limits =
      Keeps-bind _ _ (on_device-Keeps _ (open_to-Keeps fuel _ limits)) (λ info.
        Keeps-bind _ _ (on_device-Keeps _ (on_io-IsSound _ (on_transport-IsSound _)))
          (λ start. read_close_loop-Keeps fuel fuel start info))

  pub service-Keeps :
      (fuel : ℕ) (name command : List ℕ) (limits : Limits) (decode : Bool)
      → Keeps IsSound (service t fuel name command limits decode)
  unfolding service
  service-Keeps fuel name command limits decode =
      Keeps-bind _ _ (collect-Keeps t _ (streaming_command-Keeps fuel name command limits))
        (λ chunks. Keeps-pure _)
