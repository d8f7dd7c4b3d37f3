-- ===== src/Device/Invariant/Calls.antt =====
-- Sequences of calls of the public methods of AdbDevice (adb_device.py).
use adb_shell.Common.{ℕ, ◌^◌, ◌<◌, List, [], Bool, true, false, Option, arith}
use adb_shell.Errors.{Error, Result}
use adb_shell.Exec.{Exec}
use adb_shell.Exec.Rules.{Keeps, Keeps-pure, Keeps-raise, Keeps-if, Keeps-bind, Keeps-gets}
use adb_shell.PacketStore.Dicts.{IsValid, clear_all-IsValid}
use adb_shell.Transport.{Transport, Signer, Credentials}
use adb_shell.IoManager
use adb_shell.IoManager.{IoManager}
use adb_shell.IoManager.Connect.{run_callback}
use adb_shell.IoManager.Invariant
use adb_shell.Device.{AdbDevice, close, connect, new_device}
use adb_shell.Device.Streams.{Limits}
use adb_shell.Device.Services.{exec_out, reboot, root, shell, streaming_shell}
use adb_shell.Device.Files.{Files, LocalPath, list_files, stat_file, pull, push}
use adb_shell.Device.Invariant.{
  IsSound, modify-IsSound, on_io-IsSound, when_available-Keeps, open_to-Keeps, service-Keeps,
  streaming_command-Keeps,
}
use adb_shell.Device.Invariant.Files.{list_files-Keeps, stat_file-Keeps}
use adb_shell.Device.Invariant.Transfers.{pull-Keeps, push-Keeps}

module _ {D : Type 0} (t : Transport D) (credentials : Credentials)
    (hostname : Result (List ℕ)) where
  -- One call of a public method, which returned or raised, and the device that it left.
  pub data Call (d : AdbDevice D) : AdbDevice D → Type 0 where
    close_call : Call d (close t d).1
    connect_call :
        (fuel : ℕ) (keys : List Signer) (transport_timeout auth_timeout : Option ℕ)
        (read_timeout : ℕ) (callback : Option (Exec (IoManager D) (Unit {0})))
        (pem : Option (List ℕ))
        → Keeps Invariant.IsSound (run_callback t credentials callback)
        → Call d
            (connect t credentials hostname fuel keys transport_timeout auth_timeout read_timeout
              callback pem d).1
    exec_out_call :
        (fuel : ℕ) (command : List ℕ) (limits : Limits) (decode : Bool)
        → Call d (exec_out t fuel command limits decode d).1
    shell_call :
        (fuel : ℕ) (command : List ℕ) (limits : Limits) (decode : Bool)
        → Call d (shell t fuel command limits decode d).1
    streaming_shell_call :
        (fuel : ℕ) (command : List ℕ) (timeout : Option ℕ) (limit : ℕ)
        → Call d
            (streaming_shell t fuel command timeout limit
              (record { device = d; yielded = [] })).1.device
    root_call : (fuel : ℕ) (limits : Limits) → Call d (root t fuel limits d).1
    reboot_call :
        (fuel : ℕ) (fastboot : Bool) (limits : Limits) → Call d (reboot t fuel fastboot limits d).1
    list_call :
        (fuel : ℕ) (device_path : List ℕ) (timeout : Option ℕ) (limit : ℕ)
        → Call d (list_files t fuel device_path timeout limit d).1
    stat_call :
        (fuel : ℕ) (device_path : List ℕ) (timeout : Option ℕ) (limit : ℕ)
        → Call d (stat_file t fuel device_path timeout limit d).1
    pull_call :
        (fuel : ℕ) (device_path stream : List ℕ) (opened : Result (Unit {0})) (callback : Bool)
        (timeout : Option ℕ) (limit : ℕ)
        → Call d
            (pull t fuel device_path opened callback timeout limit
              (record { device = d; stream = stream; progress = [] })).1.device
    push_call :
        (fuel : ℕ) (fs : Files) (no_fileno : Error) (st_mode mtime : ℕ) (callback : Bool)
        (timeout : Option ℕ) (limit : ℕ) (local_path : LocalPath) (device_path : List ℕ)
        → Call d
            (push t fuel fs no_fileno st_mode mtime callback timeout limit local_path device_path
              (record { device = d; stream = []; progress = [] })).1.device

  pub data Calls (d : AdbDevice D) : AdbDevice D → Type 0 where
    here : Calls d d
    next : {e f : AdbDevice D} → Calls d e → Call e f → Calls d f

  close_method : Keeps IsSound (close t)
  unfolding close
  close_method =
      Keeps-bind _ _ (modify-IsSound _ (λ d h. record { store = h.store; id = h.id }))
        (λ _. on_io-IsSound _ (Invariant.close-Keeps t))

  connect_method :
      (fuel : ℕ) (keys : List Signer) (transport_timeout auth_timeout : Option ℕ) (read_timeout : ℕ)
      (callback : Option (Exec (IoManager D) (Unit {0}))) (pem : Option (List ℕ))
      → Keeps Invariant.IsSound (run_callback t credentials callback)
      → Keeps IsSound (
          connect t credentials hostname fuel keys transport_timeout auth_timeout read_timeout
            callback pem)
  unfolding connect
  connect_method fuel keys transport_timeout auth_timeout read_timeout callback pem k =
      Keeps-bind _ _ (modify-IsSound _ (λ d h. record { store = h.store; id = h.id })) (λ _.
        Keeps-bind _ _ (Keeps-gets _) (λ default.
          Keeps-bind _ _ (modify-IsSound _ (λ d h. record { store = h.store; id = h.id })) (λ _.
            Keeps-bind _ _ (Keeps-gets _) (λ banner.
              Keeps-bind _ _
                (on_io-IsSound _
                  (Invariant.connect-IsSound t credentials fuel banner keys _ callback _ pem k))
                (λ maxdata.
                  Keeps-bind _ _ (modify-IsSound _ (λ d h. record { store = h.store; id = h.id }))
                    (λ _. Keeps-pure true))))))

  Call-IsSound : {d e : AdbDevice D} → Call d e → IsSound d → IsSound e
  unfolding exec_out shell streaming_shell root reboot
  Call-IsSound {d} close_call h = close_method.at d h
  Call-IsSound {d} (connect_call fuel keys tt_ at rt callback pem k) h =
      (connect_method fuel keys tt_ at rt callback pem k).at d h
  Call-IsSound {d} (exec_out_call fuel command limits decode) h =
      (when_available-Keeps _ (service-Keeps t fuel _ _ limits decode)).at d h
  Call-IsSound {d} (shell_call fuel command limits decode) h =
      (when_available-Keeps _ (service-Keeps t fuel _ _ limits decode)).at d h
  Call-IsSound {d} (streaming_shell_call fuel command timeout limit) h =
      (Keeps-if d.available _ _ (streaming_command-Keeps t fuel _ _ _) (Keeps-raise _)).at
        (record { device = d; yielded = [] }) h
  Call-IsSound {d} (root_call fuel limits) h =
      (when_available-Keeps _
          (Keeps-bind _ _ (service-Keeps t fuel _ _ limits false) (λ _. Keeps-pure tt))).at
        d h
  Call-IsSound {d} (reboot_call fuel fastboot limits) h =
      (when_available-Keeps _
          (Keeps-bind _ _ (open_to-Keeps t fuel _ limits) (λ _. Keeps-pure tt))).at
        d h
  Call-IsSound {d} (list_call fuel device_path timeout limit) h =
      (list_files-Keeps t fuel device_path timeout limit).at d h
  Call-IsSound {d} (stat_call fuel device_path timeout limit) h =
      (stat_file-Keeps t fuel device_path timeout limit).at d h
  Call-IsSound {d} (pull_call fuel device_path stream opened callback timeout limit) h =
      (pull-Keeps t fuel device_path opened callback timeout limit).at _ h
  Call-IsSound {d} (push_call fuel fs no_fileno mode mtime callback timeout limit lp dp) h =
      (push-Keeps t fuel fs no_fileno mode mtime callback timeout limit lp dp).at _ h

  Calls-IsSound : {d e : AdbDevice D} → IsSound d → Calls d e → IsSound e
  Calls-IsSound h here = h
  Calls-IsSound h (next calls call) = Call-IsSound call (Calls-IsSound h calls)

  new_device-IsSound :
      (d : D) (timeout : Option ℕ) (banner : List ℕ) → IsSound (new_device t d timeout banner)
  unfolding new_device IoManager.new_manager
  new_device-IsSound d timeout banner = record { store = clear_all-IsValid; id = omega arith }

-- After any sequence of calls on a new device, each of which may have returned or raised, over any
-- transport, with callbacks that keep the store valid: each dictionary of the packet store has every
-- key once, none of the inner ones is empty, and the local id is below 2 ^ 32.
pub reachable_sound :
    {D : Type 0} (t : Transport D) (credentials : Credentials) (hostname : Result (List ℕ)) (d0 : D)
    (timeout : Option ℕ) (banner : List ℕ) (e : AdbDevice D)
    → Calls t credentials hostname (new_device t d0 timeout banner) e
    → IsValid e.io.store × (e.local_id < 2 ^ 32)
reachable_sound t credentials hostname d0 timeout banner e calls =
    let h =
      Calls-IsSound t credentials hostname
        (new_device-IsSound t credentials hostname d0 timeout banner) calls in
    (h.store, h.id)
