-- ===== src/IoManager.antt =====
-- _AdbIOManager of adb_device.py. Each method runs alone here; Concurrent has the locks.
pub mod Packets
pub mod Read
pub mod Connect
pub mod Invariant
pub mod Sent
pub mod Readers
pub mod Session
pub mod Concurrent
use adb_shell.Common.{ℕ, List, [], ◌∷◌, Bool, false, ◌||◌}
use adb_shell.Exec.{Exec, modify, zoom, ◌>>=◌, ◌>>◌}
use adb_shell.Constants.{Command, same_command}
use adb_shell.PacketStore.{PacketStore, clear_all}
use adb_shell.Transport.{Transport}

pub record IoManager (D : Type 0) : Type 0 where
  pub store : PacketStore
  pub transport : D

-- cmd in expected_cmds
unfoldable pub is_expected : Command → List Command → Bool
is_expected cmd [] = false
is_expected cmd (c ∷ cs) = same_command cmd c || is_expected cmd cs

abbrev pub on_transport : {D A : Type 0} → Exec D A → Exec (IoManager D) A
on_transport = zoom (λ io. io.transport) (λ d io. record io { transport = d })

abbrev pub on_store : {D A : Type 0} → Exec PacketStore A → Exec (IoManager D) A
on_store = zoom (λ io. io.store) (λ s io. record io { store = s })

module _ {D : Type 0} (t : Transport D) where
  -- __init__
  unfoldable pub new_manager : D → IoManager D
  new_manager d = record { store = clear_all; transport = d }

  unfoldable pub close : Exec (IoManager D) (Unit {0})
  close = do on_transport (modify t.close); on_store (modify (λ s. clear_all))
