-- ===== src/Device/Invariant/Files.antt =====
-- The state of AdbDevice (adb_device.py) under its FileSync methods.
use adb_shell.Common.{ℕ, zero, suc, List, [], Option, none, some}
use adb_shell.Errors.{out_of_fuel}
use adb_shell.Exec.{Exec}
use adb_shell.Exec.Rules.{
  Keeps, Keeps-zoom, Keeps-pure, Keeps-raise, Keeps-lift, Keeps-if, Keeps-bind, Keeps-gets,
}
use adb_shell.Constants.{FileSyncId}
use adb_shell.TransactionInfo.{AdbInfo}
use adb_shell.FileSyncInfo.{FileSyncInfo}
use adb_shell.Transport.{Transport}
use adb_shell.Device.{AdbDevice}
use adb_shell.Device.FileSync.{
  flush, fill, read_buffered, read_body, read_one, send_sized, send_data,
}
use adb_shell.Device.Files.{
  DeviceFile, Transfer, on_device, report, list_loop, list_files, stat_file,
}
use adb_shell.Device.Invariant.{
  IsSound, when_available-Keeps, when_path-Keeps, send-Keeps, open_to-Keeps, read_until-Keeps,
  clse_stream-Keeps,
}

module _ {D : Type 0} where
  abbrev pub IsSoundTransfer : Transfer D → Type 0
  IsSoundTransfer x = IsSound x.device

  pub on_device-Keeps :
      {A : Type 0} (m : Exec (AdbDevice D) A)
      → Keeps IsSound m
      → Keeps IsSoundTransfer (on_device m)
  on_device-Keeps m k = Keeps-zoom _ _ m (λ x h. k.at x.device h)

  pub report-Keeps : (total : Option ℕ) (n : ℕ) → Keeps (IsSoundTransfer) (report total n)
  report-Keeps none n = Keeps-pure tt
  report-Keeps (some total) n = record { at = λ x h. h }

module _ {D : Type 0} (t : Transport D) (fuel : ℕ) where
  flush-Keeps : (info : AdbInfo) (f : FileSyncInfo) → Keeps IsSound (flush t fuel info f)
  unfolding flush
  flush-Keeps info f =
      Keeps-bind _ _ (send-Keeps t _ info)
        (λ _. Keeps-bind _ _ (read_until-Keeps t fuel _ info) (λ _. Keeps-pure _))

  fill-Keeps :
      (rounds size : ℕ) (info : AdbInfo) (f : FileSyncInfo)
      → Keeps IsSound (fill t fuel rounds size info f)
  unfolding fill
  fill-Keeps zero size info f = Keeps-if _ _ _ (Keeps-raise out_of_fuel) (Keeps-pure f)
  fill-Keeps (suc rounds) size info f =
      Keeps-if _ _ _
        (Keeps-bind _ _ (read_until-Keeps t fuel _ info) (λ r. fill-Keeps rounds size info _))
        (Keeps-pure f)

  read_buffered-Keeps :
      (size : ℕ) (info : AdbInfo) (f : FileSyncInfo)
      → Keeps IsSound (read_buffered t fuel size info f)
  unfolding read_buffered
  read_buffered-Keeps size info f = Keeps-bind _ _ (fill-Keeps fuel size info f) (λ g. Keeps-pure _)

  read_body-Keeps :
      (id : FileSyncId) (header : List ℕ) (info : AdbInfo) (f : FileSyncInfo)
      → Keeps IsSound (read_body t fuel id header info f)
  unfolding read_body
  read_body-Keeps id header info f =
      Keeps-if _ _ _ (Keeps-pure _)
        (Keeps-bind _ _ (read_buffered-Keeps _ info f) (λ r. Keeps-pure _))

  pub read_one-Keeps :
      (expected : List FileSyncId) (info : AdbInfo) (f : FileSyncInfo)
      → Keeps IsSound (read_one t fuel expected info f)
  unfolding read_one
  read_one-Keeps expected info f =
      Keeps-bind _ _ (Keeps-if _ _ _ (Keeps-pure f) (flush-Keeps info f)) (λ f1.
        Keeps-bind _ _ (read_buffered-Keeps _ info f1) (λ r.
          Keeps-bind _ _ (Keeps-lift _) (λ header. Keeps-bind _ _ (Keeps-lift _) (λ id.
            Keeps-bind _ _ (read_body-Keeps id header info r.1)
              (λ b. Keeps-bind _ _ (Keeps-lift _) (λ reply. Keeps-pure _))))))

  pub send_sized-Keeps :
      (id : FileSyncId) (info : AdbInfo) (f : FileSyncInfo) (payload : List ℕ) (size : ℕ)
      → Keeps IsSound (send_sized t fuel id info f payload size)
  unfolding send_sized
  send_sized-Keeps id info f payload size =
      Keeps-bind _ _ (Keeps-if _ _ _ (Keeps-pure f) (flush-Keeps info f))
        (λ f1. Keeps-bind _ _ (Keeps-lift _) (λ head. Keeps-pure _))

  pub send_data-Keeps :
      (id : FileSyncId) (info : AdbInfo) (f : FileSyncInfo) (payload : List ℕ)
      → Keeps IsSound (send_data t fuel id info f payload)
  unfolding send_data
  send_data-Keeps id info f payload = send_sized-Keeps id info f payload _

  list_loop-Keeps :
      (rounds : ℕ) (info : AdbInfo) (f : FileSyncInfo) (files : List DeviceFile)
      → Keeps IsSound (list_loop t fuel rounds info f files)
  unfolding list_loop
  list_loop-Keeps zero info f files = Keeps-raise out_of_fuel
  list_loop-Keeps (suc rounds) info f files = Keeps-bind _ _ (read_one-Keeps _ info f) (λ r.
      Keeps-if _ _ _ (Keeps-pure files)
        (Keeps-bind _ _ (Keeps-lift _) (λ w. list_loop-Keeps rounds info r.1 _)))

  pub list_files-Keeps :
      (device_path : List ℕ) (timeout : Option ℕ) (limit : ℕ)
      → Keeps IsSound (list_files t fuel device_path timeout limit)
  unfolding list_files
  list_files-Keeps device_path timeout limit = when_path-Keeps device_path _ (
      when_available-Keeps _ (
        Keeps-bind _ _ (open_to-Keeps t fuel _ _) (λ info. Keeps-bind _ _ (Keeps-gets _) (λ f.
          Keeps-bind _ _ (send_data-Keeps _ info f _) (λ g.
            Keeps-bind _ _ (list_loop-Keeps fuel info g [])
              (λ files. Keeps-bind _ _ (clse_stream-Keeps t fuel info) (λ _. Keeps-pure files)))))))

  pub stat_file-Keeps :
      (device_path : List ℕ) (timeout : Option ℕ) (limit : ℕ)
      → Keeps IsSound (stat_file t fuel device_path timeout limit)
  unfolding stat_file
  stat_file-Keeps device_path timeout limit = when_path-Keeps device_path _ (
      when_available-Keeps _ (
        Keeps-bind _ _ (open_to-Keeps t fuel _ _) (λ info. Keeps-bind _ _ (Keeps-gets _) (λ f.
          Keeps-bind _ _ (send_data-Keeps _ info f _) (λ g.
            Keeps-bind _ _ (read_one-Keeps _ info g) (λ r. Keeps-bind _ _ (Keeps-lift _) (λ words.
              Keeps-bind _ _ (clse_stream-Keeps t fuel info) (λ _. Keeps-pure words))))))))
