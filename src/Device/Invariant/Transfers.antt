-- ===== src/Device/Invariant/Transfers.antt =====
-- The state of AdbDevice (adb_device.py) under `pull` and `push`.
use adb_shell.Common.{ℕ, zero, suc, List, [], ◌∷◌, Bool, true, false, Option, none}
use adb_shell.Errors.{Error, Result, ok, out_of_fuel}
use adb_shell.Exec.{modify}
use adb_shell.Exec.Rules.{
  Keeps, Keeps-pure, Keeps-raise, Keeps-lift, Keeps-if, Keeps-bind, Keeps-finally, Keeps-gets,
}
use adb_shell.TransactionInfo.{AdbInfo}
use adb_shell.FileSyncInfo.{FileSyncInfo}
use adb_shell.Transport.{Transport}
use adb_shell.IoManager.Invariant.{on_transport-IsSound}
use adb_shell.Device.{when_available}
use adb_shell.Device.Files.{
  Files, LocalPath, Transfer, on_device, pull_loop, total_bytes, pull_into, pull, push_loop,
  mtime_or_now, finish_push, push_stream, push_files, push,
}
use adb_shell.Device.Services.{shell}
use adb_shell.Device.Invariant.{
  IsSound, on_io-IsSound, when_available-Keeps, when_path-Keeps, open_to-Keeps, clse_stream-Keeps,
  service-Keeps,
}
use adb_shell.Device.Invariant.Files.{
  IsSoundTransfer, on_device-Keeps, report-Keeps, stat_file-Keeps, read_one-Keeps, send_sized-Keeps,
  send_data-Keeps,
}

module _ {D : Type 0} (t : Transport D) (fuel : ℕ) where
  write_stream-Keeps :
      (f : Transfer D → List ℕ)
      → Keeps (IsSoundTransfer {D = D}) (modify (λ x. record x { stream = f x }))
  write_stream-Keeps f = record { at = λ x h. h }

  ready-Keeps : Keeps (IsSoundTransfer {D = D}) (on_device (when_available (λ d. (ok tt, d))))
  ready-Keeps = on_device-Keeps _ (when_available-Keeps _ (Keeps-pure tt))

  pull_loop-Keeps :
      (rounds : ℕ) (info : AdbInfo) (f : FileSyncInfo) (total : Option ℕ)
      → Keeps IsSoundTransfer (pull_loop t fuel rounds info f total)
  unfolding pull_loop
  pull_loop-Keeps zero info f total = Keeps-raise out_of_fuel
  pull_loop-Keeps (suc rounds) info f total =
      Keeps-bind _ _ (on_device-Keeps _ (read_one-Keeps t fuel _ info f)) (λ r.
        Keeps-if _ _ _ (Keeps-pure tt) (
          Keeps-bind _ _ (write_stream-Keeps _) (λ _.
            Keeps-bind _ _ (report-Keeps total _) (λ _. pull_loop-Keeps rounds info r.1 total))))

  total_bytes-Keeps :
      (callback : Bool) (device_path : List ℕ)
      → Keeps IsSound (total_bytes t fuel callback device_path)
  unfolding total_bytes
  total_bytes-Keeps false device_path = Keeps-pure none
  total_bytes-Keeps true device_path =
      Keeps-bind _ _ (stat_file-Keeps t fuel device_path _ _) (λ r. Keeps-pure _)

  pub pull-Keeps :
      (device_path : List ℕ) (opened : Result (Unit {0})) (callback : Bool) (timeout : Option ℕ)
      (limit : ℕ)
      → Keeps IsSoundTransfer (pull t fuel device_path opened callback timeout limit)
  unfolding pull pull_into
  pull-Keeps device_path opened callback timeout limit = when_path-Keeps device_path _ (
      Keeps-bind _ _ ready-Keeps (λ _. Keeps-bind _ _ (Keeps-lift opened) (λ _.
        Keeps-bind _ _ (write_stream-Keeps _) (λ _.
          Keeps-bind _ _ (on_device-Keeps _ (open_to-Keeps t fuel _ _)) (λ info.
            Keeps-bind _ _ (on_device-Keeps _ (Keeps-gets _)) (λ f.
              Keeps-finally _ _
                (Keeps-bind _ _ (on_device-Keeps _ (total_bytes-Keeps callback device_path))
                  (λ total.
                    Keeps-bind _ _ (on_device-Keeps _ (send_data-Keeps t fuel _ info f _))
                      (λ g. pull_loop-Keeps fuel info g total)))
                (on_device-Keeps _ (clse_stream-Keeps t fuel info))))))))

  push_loop-Keeps :
      (rounds : ℕ) (info : AdbInfo) (f : FileSyncInfo) (total : Option ℕ)
      → Keeps IsSoundTransfer (push_loop t fuel rounds info f total)
  unfolding push_loop
  push_loop-Keeps zero info f total = Keeps-raise out_of_fuel
  push_loop-Keeps (suc rounds) info f total = Keeps-bind _ _ (Keeps-gets _) (λ n.
      Keeps-bind _ _ (Keeps-gets _) (λ chunk. Keeps-bind _ _ (write_stream-Keeps _) (λ _.
        Keeps-if _ _ _
          (Keeps-bind _ _ (on_device-Keeps _ (send_data-Keeps t fuel _ info f chunk))
            (λ g. Keeps-bind _ _ (report-Keeps total _) (λ _. push_loop-Keeps rounds info g total)))
          (Keeps-pure f))))

  mtime_or_now-Keeps : (mtime : ℕ) → Keeps IsSound (mtime_or_now t fuel mtime)
  unfolding mtime_or_now
  mtime_or_now-Keeps mtime =
      Keeps-if _ _ _ (Keeps-bind _ _ (on_io-IsSound _ (on_transport-IsSound _)) (λ n. Keeps-pure _))
        (Keeps-pure mtime)

  finish_push-Keeps :
      (mtime : ℕ) (info : AdbInfo) (f : FileSyncInfo)
      → Keeps IsSound (finish_push t fuel mtime info f)
  unfolding finish_push
  finish_push-Keeps mtime info f = Keeps-bind _ _ (mtime_or_now-Keeps mtime) (λ stamp.
      Keeps-bind _ _ (send_sized-Keeps t fuel _ info f [] stamp) (λ g.
        Keeps-bind _ _ (read_one-Keeps t fuel _ info g)
          (λ r. Keeps-if _ _ _ (Keeps-pure tt) (Keeps-raise _))))

  push_stream-Keeps :
      (device_path : List ℕ) (st_mode mtime : ℕ) (callback : Bool) (size : Result ℕ)
      (info : AdbInfo) (f : FileSyncInfo)
      → Keeps IsSoundTransfer (push_stream t fuel device_path st_mode mtime callback size info f)
  unfolding push_stream
  push_stream-Keeps device_path st_mode mtime callback size info f =
      Keeps-bind _ _ (on_device-Keeps _ (send_data-Keeps t fuel _ info f _)) (λ f1.
        Keeps-bind _ _ (Keeps-lift _) (λ total. Keeps-bind _ _ (Keeps-gets _) (λ left.
          Keeps-bind _ _ (push_loop-Keeps (suc left) info f1 total)
            (λ f2. on_device-Keeps _ (finish_push-Keeps mtime info f2)))))

  module _ (fs : Files) (no_fileno : Error) (st_mode mtime : ℕ) (callback : Bool)
      (timeout : Option ℕ) (limit : ℕ) where
    push_files-Keeps :
        (files : List (LocalPath × List ℕ))
        → Keeps IsSoundTransfer
            (push_files t fuel fs no_fileno st_mode mtime callback timeout limit files)
    unfolding push_files
    push_files-Keeps [] = Keeps-pure tt
    push_files-Keeps ((local, device_path) ∷ rest) = Keeps-bind _ _ (Keeps-lift _) (λ content.
        Keeps-bind _ _ (write_stream-Keeps _) (λ _.
          Keeps-bind _ _ (on_device-Keeps _ (open_to-Keeps t fuel _ _)) (λ info.
            Keeps-bind _ _ (on_device-Keeps _ (Keeps-gets _)) (λ f.
              Keeps-bind _ _ (push_stream-Keeps device_path st_mode mtime callback _ info f) (λ _.
                Keeps-bind _ _ (on_device-Keeps _ (clse_stream-Keeps t fuel info))
                  (λ _. push_files-Keeps rest))))))

    pub push-Keeps :
        (local_path : LocalPath) (device_path : List ℕ)
        → Keeps IsSoundTransfer
            (push t fuel fs no_fileno st_mode mtime callback timeout limit local_path device_path)
    unfolding push shell
    push-Keeps local_path device_path = when_path-Keeps device_path _ (
        Keeps-bind _ _ ready-Keeps (λ _.
          Keeps-bind _ _
            (Keeps-if _ _ _
              (Keeps-bind _ _
                (on_device-Keeps _ (when_available-Keeps _ (service-Keeps t fuel _ _ _ _)))
                (λ _. Keeps-pure tt))
              (Keeps-pure tt))
            (λ _. push_files-Keeps _)))
