-- ===== src/Pairing/Connection.antt =====
-- PairingConnection of pairing/connection.py: the client's side of the pairing handshake, over a channel
-- that is a parameter.
pub mod Handshake
use adb_shell.Common.{
  ℕ, List, [], ◌∷◌, ◌++◌, Bool, true, false, Option, length, ◌==◌, if◌then◌else◌,
}
use adb_shell.Errors.{Result, ok, err, pairing_failed}
use adb_shell.Exec.{Exec, pure, raise, lift, or_raise, ◌>>=◌, ◌>>◌}
use adb_shell.Pairing.Packets.{
  PeerInfo, header_size, type_spake2_msg, type_peer_info, pack_header, unpack_header,
  pack_peer_info, unpack_peer_info,
}
use adb_shell.Pairing.Auth.{
  Packages, PairingAuthCtx, client, new_auth, init_cipher, encrypt, decrypt,
}

-- send_all and recv_exact, and the exporter of the TLS session's keying material.
pub record Channel (D : Type 0) : Type 0 where
  pub send_all : List ℕ → Exec D (Unit {0})
  pub recv_exact : ℕ → Exec D (List ℕ)
  pub exporter : List ℕ → ℕ → Exec D (List ℕ)

-- b"adb-label\x00"
abbrev pub exporter_label : List ℕ
exporter_label = b'a' ∷ b'd' ∷ b'b' ∷ b'-' ∷ b'l' ∷ b'a' ∷ b'b' ∷ b'e' ∷ b'l' ∷ 0 ∷ []

abbrev pub exporter_length : ℕ
exporter_length = 64

module _ {D K : Type 0} (t : Channel D) (p : Packages K) where
  -- A method of the context, whose changes are handed back with its result.
  abbrev pub with_auth :
      {A : Type 0} → Exec (PairingAuthCtx K) A → PairingAuthCtx K → Exec D (A × PairingAuthCtx K)
  with_auth m auth = let (r, auth') = m auth in lift r >>= λ a. pure (a, auth')

  -- A packet of one type: its header, and as much as it says.
  unfoldable pub recv_packet : ℕ → Exec D (List ℕ)
  recv_packet expected = do
    header ← t.recv_exact header_size
    (packet_type, payload_size) ← lift (unpack_header header)
    if packet_type == expected then t.recv_exact payload_size else raise pairing_failed

  unfoldable pub send_packet : ℕ → List ℕ → Exec D (Unit {0})
  send_packet packet_type payload = do
    header ← lift (pack_header packet_type (length payload))
    t.send_all header
    t.send_all payload

  unfoldable pub exchange_spake2 : PairingAuthCtx K → Exec D (PairingAuthCtx K)
  exchange_spake2 auth = do
    send_packet type_spake2_msg auth.our_msg
    their_msg ← recv_packet type_spake2_msg
    (ready, auth') ← with_auth (init_cipher p their_msg) auth
    if ready then pure auth' else raise pairing_failed

  unfoldable pub exchange_peer_info : PeerInfo → PairingAuthCtx K → Exec D PeerInfo
  exchange_peer_info our_peer_info auth = do
    plaintext ← lift (pack_peer_info our_peer_info)
    (ciphertext, auth') ← with_auth (encrypt p plaintext) auth
    send_packet type_peer_info ciphertext
    encrypted ← recv_packet type_peer_info
    (decrypted, _) ← or_raise pairing_failed (with_auth (decrypt p encrypted) auth')
    lift (unpack_peer_info decrypted)

  unfoldable pub run : ℕ → List ℕ → PeerInfo → Exec D PeerInfo
  run seed pairing_code our_peer_info = do
    keying_material ← or_raise pairing_failed (t.exporter exporter_label exporter_length)
    if length keying_material == exporter_length
        then (do
          auth ← lift (new_auth p client seed (pairing_code ++ keying_material))
          ready ← exchange_spake2 auth
          exchange_peer_info our_peer_info ready)
        else raise pairing_failed
