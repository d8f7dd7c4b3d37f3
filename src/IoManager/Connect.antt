-- ===== src/IoManager/Connect.antt =====
-- `_AdbIOManager.connect` and `_do_stls_upgrade`.
use adb_shell.Common.{ℕ, List, [], ◌∷◌, ◌++◌, Option, none, some, ◌==◌, if◌then◌else◌}
use adb_shell.Errors.{Error, device_auth, invalid_response}
use adb_shell.Exec.{Exec, pure, raise, lift, modify, ◌>>=◌, ◌>>◌}
use adb_shell.Constants.{
  auth, cnxn, stls, same_command, version, max_adb_data, stls_version, auth_token, auth_signature,
  auth_rsapublickey,
}
use adb_shell.Message.{new_message}
use adb_shell.TransactionInfo.{AdbInfo}
use adb_shell.PacketStore.{Packet, clear_all}
use adb_shell.Transport.{Transport, Signer, Credentials}
use adb_shell.IoManager.{IoManager, on_transport, on_store}
use adb_shell.IoManager.Packets.{send, read_expected}

-- b'host::%s\0' % banner
abbrev pub greeting : List ℕ → List ℕ
greeting banner = b'h' ∷ b'o' ∷ b's' ∷ b't' ∷ b':' ∷ b':' ∷ (banner ++ 0 ∷ [])

module _ {D : Type 0} (t : Transport D) (credentials : Credentials) where
  -- self._transport.close() and then a raise
  unfoldable pub refuse : {A : Type 0} → Error → Exec (IoManager D) A
  refuse e = do on_transport (modify t.close); raise e

  -- `none` is a transport that has no `tls_upgrade`.
  unfoldable pub upgrade_with :
      List ℕ
      → AdbInfo
      → Option (List ℕ → List ℕ → Exec D (Unit {0}))
      → Exec (IoManager D) (Unit {0})
  upgrade_with pem info none = refuse device_auth
  upgrade_with pem info (some upgrade) = do
    (cert_pem, key_pem) ← lift (credentials pem)
    on_transport (send t (new_message stls (some stls_version) (some 0) []) info)
    on_transport (upgrade cert_pem key_pem)

  unfoldable pub do_stls_upgrade : Option (List ℕ) → AdbInfo → Exec (IoManager D) (Unit {0})
  do_stls_upgrade none info = refuse device_auth
  do_stls_upgrade (some pem) info = upgrade_with pem info t.tls_upgrade

  -- Steps 6.1 to 6.4, for each key. `some` is the `maxdata` of a device that accepted a signature.
  unfoldable pub try_keys : ℕ → List Signer → Packet → AdbInfo → Exec (IoManager D) (Option ℕ)
  try_keys fuel [] p info = pure none
  try_keys fuel (key ∷ keys) p info =
      if p.arg0 == auth_token
      then (do
        signed ← lift (key.sign p.payload)
        on_transport (send t (new_message auth (some auth_signature) (some 0) signed) info)
        q ← on_transport (read_expected t fuel (cnxn ∷ auth ∷ []) info)
        if same_command q.cmd cnxn then pure (some q.arg1) else try_keys fuel keys q info)
      else refuse invalid_response

  -- The packet that `[constants.CNXN]` waits for under the authentication timeout.
  unfoldable pub await_cnxn : ℕ → Option ℕ → AdbInfo → Exec (IoManager D) ℕ
  await_cnxn fuel auth_timeout_s info = do
    p ←
        on_transport
          (read_expected t fuel (cnxn ∷ []) (record info { transport_timeout_s = auth_timeout_s }))
    pure p.arg1

  -- if auth_callback is not None: auth_callback(self)
  unfoldable pub run_callback :
      Option (Exec (IoManager D) (Unit {0})) → Exec (IoManager D) (Unit {0})
  run_callback none = pure tt
  run_callback (some callback) = callback

  -- Step 7; the callback is the user's code, and is given the manager.
  unfoldable pub offer_key :
      ℕ
      → Signer
      → Option ℕ
      → Option (Exec (IoManager D) (Unit {0}))
      → AdbInfo
      → Exec (IoManager D) ℕ
  offer_key fuel key auth_timeout_s auth_callback info = do
    pubkey ← lift key.public_key
    run_callback auth_callback
    on_transport
        (send t (new_message auth (some auth_rsapublickey) (some 0) (pubkey ++ 0 ∷ [])) info)
    await_cnxn fuel auth_timeout_s info

  abbrev pub accepted_or : Exec (IoManager D) ℕ → Option ℕ → Exec (IoManager D) ℕ
  accepted_or offer (some maxdata) = pure maxdata
  accepted_or offer none = offer

  -- Steps 5 to 7.
  unfoldable pub authenticate :
      ℕ
      → List Signer
      → Option ℕ
      → Option (Exec (IoManager D) (Unit {0}))
      → AdbInfo
      → Packet
      → Exec (IoManager D) ℕ
  authenticate fuel [] auth_timeout_s auth_callback info p = refuse device_auth
  authenticate fuel (key ∷ keys) auth_timeout_s auth_callback info p = do
    accepted ← try_keys fuel (key ∷ keys) p info
    accepted_or (offer_key fuel key auth_timeout_s auth_callback info) accepted

  -- Step 0.
  unfoldable pub reset : Exec (IoManager D) (Unit {0})
  reset = do on_transport (modify t.close); on_store (modify (λ s. clear_all))

  -- Steps 1 to 7.
  unfoldable pub handshake :
      ℕ
      → List ℕ
      → List Signer
      → Option ℕ
      → Option (Exec (IoManager D) (Unit {0}))
      → AdbInfo
      → Option (List ℕ)
      → Exec (IoManager D) ℕ
  handshake fuel banner rsa_keys auth_timeout_s auth_callback info tls_priv_pem = do
    on_transport (t.connect info.transport_timeout_s)
    on_transport
        (send t (new_message cnxn (some version) (some max_adb_data) (greeting banner)) info)
    p ← on_transport (read_expected t fuel (auth ∷ cnxn ∷ stls ∷ []) info)
    if same_command p.cmd stls
        then (do do_stls_upgrade tls_priv_pem info; await_cnxn fuel auth_timeout_s info)
        else if same_command p.cmd auth
        then authenticate fuel rsa_keys auth_timeout_s auth_callback info p
        else pure p.arg1

  -- The method returns `(True, maxdata)`: the `True` is left out.
  unfoldable pub connect :
      ℕ
      → List ℕ
      → List Signer
      → Option ℕ
      → Option (Exec (IoManager D) (Unit {0}))
      → AdbInfo
      → Option (List ℕ)
      → Exec (IoManager D) ℕ
  connect fuel banner rsa_keys auth_timeout_s auth_callback info tls_priv_pem = do
    reset
    handshake fuel banner rsa_keys auth_timeout_s auth_callback info tls_priv_pem
