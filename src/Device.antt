-- ===== src/Device.antt =====
-- AdbDevice of adb_device.py: its state, connecting and closing, and what every service begins with.
pub mod Streams
pub mod Session
pub mod Services
pub mod FileSync
pub mod Files
pub mod Invariant
pub mod Guards
use adb_shell.Common.{
  ℕ, ◌/◌, List, [], ◌∷◌, Bool, true, false, Option, none, some, min, or_default, if◌then◌else◌,
}
use adb_shell.Errors.{Result, ok, err, adb_connection, device_path_invalid}
use adb_shell.Exec.{Exec, pure, raise, gets, modify, zoom, ◌>>=◌, ◌>>◌}
use adb_shell.Constants.{max_push_data, max_chunk_size}
use adb_shell.TransactionInfo.{AdbInfo, new_info, py_min}
use adb_shell.Transport.{Transport, Signer, Credentials}
use adb_shell.IoManager
use adb_shell.IoManager.{IoManager}
use adb_shell.IoManager.Connect

pub record AdbDevice (D : Type 0) : Type 0 where
  pub io : IoManager D
  pub available : Bool
  pub banner : List ℕ
  pub default_transport_timeout_s : Option ℕ
  pub local_id : ℕ
  pub maxdata : ℕ

abbrev pub on_io : {D A : Type 0} → Exec (IoManager D) A → Exec (AdbDevice D) A
on_io = zoom (λ d. d.io) (λ io d. record d { io = io })

-- The property `max_chunk_size`.
unfoldable pub chunk_size : {D : Type 0} → AdbDevice D → ℕ
chunk_size d = or_default (py_min max_chunk_size (d.maxdata / 2)) max_push_data

-- x if x is not None else default
abbrev pub given_or : Option ℕ → Option ℕ → Option ℕ
given_or none default = default
given_or (some x) default = some x

-- bytearray(socket.gethostname(), 'utf-8'), or b'unknown' if that raises
unfoldable pub get_banner : Result (List ℕ) → List ℕ
get_banner (ok name) = name
get_banner (err e) = b'u' ∷ b'n' ∷ b'k' ∷ b'n' ∷ b'o' ∷ b'w' ∷ b'n' ∷ []

-- `not self._banner`: an empty banner stands for `None` too
abbrev pub banner_or : List ℕ → List ℕ → List ℕ
banner_or [] hostname = hostname
banner_or (b ∷ bs) hostname = b ∷ bs

module _ {D : Type 0} (t : Transport D) where
  -- __init__
  unfoldable pub new_device : D → Option ℕ → List ℕ → AdbDevice D
  new_device d default_transport_timeout_s banner = record {
    io = IoManager.new_manager t d;
    available = false;
    banner = banner;
    default_transport_timeout_s = default_transport_timeout_s;
    local_id = 0;
    maxdata = max_push_data;
  }

  unfoldable pub close : Exec (AdbDevice D) (Unit {0})
  close = do modify (λ d. record d { available = false }); on_io (IoManager.close t)

  module _ (credentials : Credentials) (hostname : Result (List ℕ)) where
    -- Returns `self._available`, which is `True` here.
    unfoldable pub connect :
        ℕ
        → List Signer
        → Option ℕ
        → Option ℕ
        → ℕ
        → Option (Exec (IoManager D) (Unit {0}))
        → Option (List ℕ)
        → Exec (AdbDevice D) Bool
    connect fuel rsa_keys transport_timeout_s auth_timeout_s read_timeout_s auth_callback
          tls_priv_pem =
        do
          modify (λ d. record d { banner = banner_or d.banner (get_banner hostname) })
          default ← gets (λ d. d.default_transport_timeout_s)
          let info = new_info none none (given_or transport_timeout_s default) read_timeout_s none
          modify (λ d. record d { available = false })
          banner ← gets (λ d. d.banner)
          maxdata ← on_io (
              Connect.connect t credentials fuel banner rsa_keys auth_timeout_s auth_callback info
                tls_priv_pem)
          modify (λ d. record d { available = true; maxdata = maxdata })
          pure true

-- if not self.available: raise AdbConnectionError
unfoldable pub when_available : {D A : Type 0} → Exec (AdbDevice D) A → Exec (AdbDevice D) A
when_available m d = (if d.available then m else raise adb_connection) d

-- if not device_path: raise DevicePathInvalidError
unfoldable pub when_path : {S A : Type 0} → List ℕ → Exec S A → Exec S A
when_path [] m = raise device_path_invalid
when_path (c ∷ path) m = m
