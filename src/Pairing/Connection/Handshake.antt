-- ===== src/Pairing/Connection/Handshake.antt =====
-- `run` of PairingConnection (pairing/connection.py) against a device.
use adb_shell.Common.{ℕ, ◌≤◌, ◌<◌, ◌≡◌, refl, sym, ap, ◌∙◌, List, ◌∷◌, ◌++◌, true, arith, length}
use adb_shell.Common.{some}
use mathlib.Core.List.{append_assoc}
use adb_shell.Errors.{ok, ok_inj}
use adb_shell.Exec.{or_raise, ◌>>=◌}
use adb_shell.Pairing.Packets.{
  PeerInfo, header_size, max_payload_size, type_spake2_msg, type_peer_info, pack_header,
  unpack_header, big_endian, pack_peer_info, unpack_peer_info,
}
use adb_shell.Pairing.Packets.RoundTrip.{unpack_header-pack_header}
use adb_shell.Pairing.Auth.{
  Packages, PairingAuthCtx, client, server, new_auth, init_cipher, encrypt, decrypt,
}
use adb_shell.Pairing.Auth.Agreement.{
  Agrees, Seals, both_ready, decrypt-encrypt, encrypt_keeps, session_key,
}
use adb_shell.Pairing.Connection.{
  Channel, exporter_label, exporter_length, recv_packet, send_packet, exchange_spake2,
  exchange_peer_info, run,
}

-- A channel that carries bytes both ways: `incoming` is what the device has sent and has not been read,
-- `sent` all that was written; `keying` is the keying material of the TLS session.
pub record Carries {D : Type 0} (t : Channel D) (incoming sent : D → List ℕ) (keying : List ℕ)
    : Type 0 where
  pub recv_lem :
      (front rest : List ℕ) (d : D)
      → incoming d ≡ front ++ rest
      → (d' : D) × (t.recv_exact (length front) d ≡ (ok front, d'))
        × (incoming d' ≡ rest)
        × (sent d' ≡ sent d)
  pub send_lem :
      (bytes : List ℕ) (d : D)
      → (d' : D) × (t.send_all bytes d ≡ (ok tt, d'))
        × (incoming d' ≡ incoming d)
        × (sent d' ≡ sent d ++ bytes)
  pub export_lem :
      (d : D)
      → (d' : D) × (t.exporter exporter_label exporter_length d ≡ (ok keying, d'))
        × (incoming d' ≡ incoming d)
        × (sent d' ≡ sent d)
  pub keying_length : length keying ≡ exporter_length

-- A packet on the wire.
pub record IsPacket (packet_type : ℕ) (payload wire : List ℕ) : Type 0 where
  pub header : List ℕ
  pub packed : pack_header packet_type (length payload) ≡ ok header
  pub whole : wire ≡ header ++ payload
  pub nonempty : 0 < length payload
  pub fits : length payload ≤ max_payload_size
  pub byte : packet_type < 256

header_length :
    (packet_type n : ℕ) (header : List ℕ)
    → pack_header packet_type n ≡ ok header
    → length header ≡ header_size
unfolding pack_header big_endian
header_length packet_type n header e = ground (arith, e)

module _ {D K : Type 0} (t : Channel D) (p : Packages K) (incoming sent : D → List ℕ)
    (keying : List ℕ) (carries : Carries t incoming sent keying) where
  recv_packet_lem :
      (packet_type : ℕ) (payload wire rest : List ℕ) (d : D)
      → IsPacket packet_type payload wire
      → incoming d ≡ wire ++ rest
      → (d' : D) × (recv_packet t p packet_type d ≡ (ok payload, d'))
        × (incoming d' ≡ rest)
        × (sent d' ≡ sent d)
  unfolding recv_packet ◌>>=◌
  recv_packet_lem packet_type payload wire rest d packet e =
      let h = packet.header in
      let (blob, packed, unpacked) =
        unpack_header-pack_header packet_type (length payload) packet.byte packet.nonempty
          packet.fits in
      let same : blob ≡ h = ok_inj (sym packed ∙ packet.packed) in
      let (d1, r1, i1, s1) =
        carries.recv_lem h (payload ++ rest) d
          (e ∙ ap (λ w. w ++ rest) packet.whole ∙ append_assoc h payload rest) in
      let (d2, r2, i2, s2) = carries.recv_lem payload rest d1 i1 in
      let six : length h ≡ header_size =
        header_length packet_type (length payload) h packet.packed in
      let r1' : t.recv_exact header_size d ≡ (ok h, d1) =
        ap (λ n. t.recv_exact n d) (sym six) ∙ r1 in
      let u : unpack_header h ≡ ok (packet_type, length payload) =
        ap unpack_header (sym same) ∙ unpacked in
      (d2, rw (r1', u) (ground (arith, r2)), i2, s2 ∙ s1)

  send_packet_lem :
      (packet_type : ℕ) (payload wire : List ℕ) (d : D)
      → IsPacket packet_type payload wire
      → (d' : D) × (send_packet t p packet_type payload d ≡ (ok tt, d'))
        × (incoming d' ≡ incoming d)
        × (sent d' ≡ sent d ++ wire)
  unfolding send_packet ◌>>=◌
  send_packet_lem packet_type payload wire d packet =
      let h = packet.header in
      let (d1, r1, i1, s1) = carries.send_lem h d in
      let (d2, r2, i2, s2) = carries.send_lem payload d1 in
      (
        d2,
        rw (packet.packed, r1) r2,
        i2 ∙ i1,
        s2
            ∙ ap (λ w. w ++ payload) s1
            ∙ append_assoc (sent d) h payload
            ∙ ap (λ w. sent d ++ w) (sym packet.whole),
      )

  exchange_spake2_lem :
      (auth : PairingAuthCtx K) (their_msg ours theirs rest : List ℕ) (d : D)
      → IsPacket type_spake2_msg auth.our_msg ours
      → IsPacket type_spake2_msg their_msg theirs
      → incoming d ≡ theirs ++ rest
      → (init_cipher p their_msg auth).0 ≡ ok true
      → (d' : D) × (exchange_spake2 t p auth d ≡ (ok (init_cipher p their_msg auth).1, d'))
        × (incoming d' ≡ rest)
        × (sent d' ≡ sent d ++ ours)
  unfolding exchange_spake2 ◌>>=◌
  exchange_spake2_lem auth their_msg ours theirs rest d our_packet their_packet e ready =
      let (d1, r1, i1, s1) = send_packet_lem type_spake2_msg auth.our_msg ours d our_packet in
      let (d2, r2, i2, s2) =
        recv_packet_lem type_spake2_msg their_msg theirs rest d1 their_packet (i1 ∙ e) in
      (d2, rw (r1, r2, ready) refl, i2, s2 ∙ s1)

  exchange_peer_info_lem :
      (our_info : PeerInfo) (auth : PairingAuthCtx K)
      (plaintext ciphertext ours encrypted theirs decrypted rest : List ℕ) (d : D)
      → pack_peer_info our_info ≡ ok plaintext
      → (encrypt p plaintext auth).0 ≡ ok ciphertext
      → IsPacket type_peer_info ciphertext ours
      → IsPacket type_peer_info encrypted theirs
      → incoming d ≡ theirs ++ rest
      → (decrypt p encrypted (encrypt p plaintext auth).1).0 ≡ ok decrypted
      → (d' : D) × (exchange_peer_info t p our_info auth d ≡ (unpack_peer_info decrypted, d'))
        × (incoming d' ≡ rest)
        × (sent d' ≡ sent d ++ ours)
  unfolding exchange_peer_info ◌>>=◌ or_raise
  exchange_peer_info_lem our_info auth plaintext ciphertext ours encrypted theirs decrypted rest d
        packed sealed our_packet their_packet e opened =
      let (d1, r1, i1, s1) = send_packet_lem type_peer_info ciphertext ours d our_packet in
      let (d2, r2, i2, s2) =
        recv_packet_lem type_peer_info encrypted theirs rest d1 their_packet (i1 ∙ e) in
      (d2, rw (packed, sealed, r1, r2, opened) refl, i2, s2 ∙ s1)

  module _ (our_info : PeerInfo) (code : List ℕ) (seed : ℕ) (c : PairingAuthCtx K)
      (their_msg plaintext ciphertext encrypted decrypted : List ℕ)
      (our_spake our_sealed their_spake their_sealed rest : List ℕ) (d : D) where
    run_lem :
        new_auth p client seed (code ++ keying) ≡ ok c
        → IsPacket type_spake2_msg c.our_msg our_spake
        → IsPacket type_spake2_msg their_msg their_spake
        → (init_cipher p their_msg c).0 ≡ ok true
        → pack_peer_info our_info ≡ ok plaintext
        → let ready = (init_cipher p their_msg c).1 in
          (encrypt p plaintext ready).0 ≡ ok ciphertext
          → IsPacket type_peer_info ciphertext our_sealed
          → IsPacket type_peer_info encrypted their_sealed
          → (decrypt p encrypted (encrypt p plaintext ready).1).0 ≡ ok decrypted
          → incoming d ≡ their_spake ++ (their_sealed ++ rest)
          → (d' : D) × (run t p seed code our_info d ≡ (unpack_peer_info decrypted, d'))
            × (incoming d' ≡ rest)
            × (sent d' ≡ sent d ++ (our_spake ++ our_sealed))
    unfolding run ◌>>=◌ or_raise
    run_lem made p1 p2 ready packed sealed p3 p4 opened e =
        let (d1, r1, i1, s1) = carries.export_lem d in
        let (d2, r2, i2, s2) =
          exchange_spake2_lem c their_msg our_spake their_spake (their_sealed ++ rest) d1 p1 p2
            (i1 ∙ e) ready in
        let (d3, r3, i3, s3) =
          exchange_peer_info_lem our_info (init_cipher p their_msg c).1 plaintext ciphertext
            our_sealed encrypted their_sealed decrypted rest d2 packed sealed p3 p4 i2 opened in
        (
          d3,
          rw r1 (ground (arith, carries.keying_length, made, r2, r3)),
          i3,
          s3
              ∙ ap (λ w. w ++ our_sealed) (s2 ∙ ap (λ w. w ++ our_spake) s1)
              ∙ append_assoc (sent d) our_spake our_sealed,
        )

-- Over a channel that carries bytes both ways, and where SPAKE2 agrees on a key and AES-GCM opens what it
-- sealed: a device that holds the same pairing code, which is not empty, and runs the server's side
-- of the same TLS session is paired. `run` returns what `PeerInfo.unpack` makes of the bytes that the
-- device sealed; it takes exactly the device's two packets off the channel, and writes exactly its own
-- two; and the device opens the second of these to the packed PeerInfo of the host.
pub run_paired :
    {D K : Type 0} (t : Channel D) (p : Packages K) (incoming sent : D → List ℕ) (keying : List ℕ)
    (carries : Carries t incoming sent keying) (agrees : Agrees p) (seals : Seals p)
    (our_info : PeerInfo) (digit : ℕ) (digits : List ℕ) (seed seed' : ℕ) (c s : PairingAuthCtx K)
    (plaintext ciphertext their_plaintext encrypted : List ℕ)
    (our_spake our_sealed their_spake their_sealed rest : List ℕ) (d : D)
    → new_auth p client seed (digit ∷ digits ++ keying) ≡ ok c
    → new_auth p server seed' (digit ∷ digits ++ keying) ≡ ok s
    → pack_peer_info our_info ≡ ok plaintext
    → (encrypt p plaintext (init_cipher p s.our_msg c).1).0 ≡ ok ciphertext
    → (encrypt p their_plaintext (init_cipher p c.our_msg s).1).0 ≡ ok encrypted
    → IsPacket type_spake2_msg c.our_msg our_spake
    → IsPacket type_spake2_msg s.our_msg their_spake
    → IsPacket type_peer_info ciphertext our_sealed
    → IsPacket type_peer_info encrypted their_sealed
    → incoming d ≡ their_spake ++ (their_sealed ++ rest)
    → (d' : D) × (run t p seed (digit ∷ digits) our_info d ≡ (unpack_peer_info their_plaintext, d'))
      × (incoming d' ≡ rest)
      × (sent d' ≡ sent d ++ (our_spake ++ our_sealed))
      × ((decrypt p ciphertext (init_cipher p c.our_msg s).1).0 ≡ ok plaintext)
run_paired {K} t p incoming sent keying carries agrees seals our_info digit digits seed seed' c s
      plaintext ciphertext their_plaintext encrypted our_spake our_sealed their_spake their_sealed
      rest d ec es packed sealed sealed' p1 p2 p3 p4 e =
    let (material, at_client, at_server, forth, back) =
      both_ready p agrees digit (digits ++ keying) seed seed' c s ec es in
    let key = session_key p material in
    let c' : PairingAuthCtx K = record c { cipher = some key } in
    let s' : PairingAuthCtx K = record s { cipher = some key } in
    let client_is : (init_cipher p s.our_msg c).1 ≡ c' = ap (λ x. x.1) at_client in
    let server_is : (init_cipher p c.our_msg s).1 ≡ s' = ap (λ x. x.1) at_server in
    let sealed_c : (encrypt p plaintext c').0 ≡ ok ciphertext =
      ap (λ x. (encrypt p plaintext x).0) (sym client_is) ∙ sealed in
    let sealed_s : (encrypt p their_plaintext s').0 ≡ ok encrypted =
      ap (λ x. (encrypt p their_plaintext x).0) (sym server_is) ∙ sealed' in
    let (has, next) = encrypt_keeps p seals key plaintext ciphertext c' refl sealed_c in
    let (opened, linked) =
      decrypt-encrypt p seals key their_plaintext encrypted s' (encrypt p plaintext c').1
        (record { writer = refl; reader = has; in_step = back ∙ sym next }) sealed_s in
    let (ours_opened, linked') =
      decrypt-encrypt p seals key plaintext ciphertext c' s'
        (record { writer = refl; reader = refl; in_step = forth }) sealed_c in
    let (d', r, i, w) =
      run_lem t p incoming sent keying carries our_info (digit ∷ digits) seed c s.our_msg plaintext
        ciphertext encrypted their_plaintext our_spake our_sealed their_spake their_sealed rest d ec
        p1 p2 (ap (λ x. x.0) at_client) packed sealed p3 p4
        (ap (λ x. (decrypt p encrypted (encrypt p plaintext x).1).0) client_is ∙ opened) e in
    (d', r, i, w, ap (λ x. (decrypt p ciphertext x).0) server_is ∙ ours_opened)
