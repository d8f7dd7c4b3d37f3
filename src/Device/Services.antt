-- ===== src/Device/Services.antt =====
-- The services: `exec_out`, `reboot`, `root`, `shell`, `streaming_shell`.
use adb_shell.Common.{ℕ, List, [], ◌∷◌, Bool, false, Option, none, if◌then◌else◌}
use adb_shell.Common.Text.{encode}
use adb_shell.Errors.{adb_connection}
use adb_shell.Exec.{Exec, pure, raise, ◌>>◌}
use adb_shell.Transport.{Transport}
use adb_shell.Device.{AdbDevice, when_available}
use adb_shell.Device.Streams.{Limits, Streaming, Output, open_to, service, streaming_command}

abbrev pub shell_name : List ℕ
shell_name = b's' ∷ b'h' ∷ b'e' ∷ b'l' ∷ b'l' ∷ []

abbrev pub exec_name : List ℕ
exec_name = b'e' ∷ b'x' ∷ b'e' ∷ b'c' ∷ []

abbrev pub root_name : List ℕ
root_name = b'r' ∷ b'o' ∷ b'o' ∷ b't' ∷ []

-- b'reboot:' and b'reboot:bootloader'
abbrev pub reboot_name : Bool → List ℕ
reboot_name fastboot =
    b'r'
    ∷ b'e'
    ∷ b'b'
    ∷ b'o'
    ∷ b'o'
    ∷ b't'
    ∷ b':'
    ∷ (if fastboot
        then b'b' ∷ b'o' ∷ b'o' ∷ b't' ∷ b'l' ∷ b'o' ∷ b'a' ∷ b'd' ∷ b'e' ∷ b'r' ∷ []
        else [])

module _ {D : Type 0} (t : Transport D) (fuel : ℕ) where
  unfoldable pub exec_out : List ℕ → Limits → Bool → Exec (AdbDevice D) Output
  exec_out command limits decode =
      when_available (service t fuel exec_name (encode command) limits decode)

  unfoldable pub reboot : Bool → Limits → Exec (AdbDevice D) (Unit {0})
  reboot fastboot limits = when_available (do open_to t fuel (reboot_name fastboot) limits; pure tt)

  unfoldable pub root : Limits → Exec (AdbDevice D) (Unit {0})
  root limits = when_available (do service t fuel root_name [] limits false; pure tt)

  unfoldable pub shell : List ℕ → Limits → Bool → Exec (AdbDevice D) Output
  shell command limits decode =
      when_available (service t fuel shell_name (encode command) limits decode)

  -- The generator, run to its end: each chunk is yielded as it comes, and decoded by itself.
  unfoldable pub streaming_shell : List ℕ → Option ℕ → ℕ → Exec (Streaming D) (Unit {0})
  streaming_shell command transport_timeout_s read_timeout_s g =
      (if g.device.available
          then streaming_command t fuel shell_name (encode command) limits
          else raise adb_connection)
        g
    where
      limits : Limits
      limits = record {
        transport_timeout_s = transport_timeout_s;
        read_timeout_s = read_timeout_s;
        timeout_s = none;
      }
