-- ===== src/Pairing/Device/Calm.antt =====
-- What the session below a PairingConnection (pairing/pairing_device.py, pairing/connection.py) keeps:
-- whatever its reads, writes and waits keep.
use adb_shell.Common.{ℕ, zero, suc, ◌+◌, ◌-◌, List, Option, none, some, Bool, length, ltb, ◌++◌}
use adb_shell.Errors.{Error, Result, ok, err, want_read, want_write, pairing_failed, out_of_fuel}
use adb_shell.Exec.{Exec, or_raise}
use adb_shell.Exec.Rules.{Keeps, Keeps-lift, Keeps-raise, Keeps-pure, Keeps-if, Keeps-bind}
use adb_shell.Pairing.Packets.{PeerInfo, header_size, type_spake2_msg, type_peer_info}
use adb_shell.Pairing.Auth.{Packages, PairingAuthCtx, encrypt, decrypt, init_cipher}
use adb_shell.Pairing.Channel.{
  Tls, remaining, after_want, attempted, retry_on_want, send_from, recv_rest,
}
use adb_shell.Pairing.Connection.{
  Channel, with_auth, recv_packet, send_packet, exchange_spake2, exchange_peer_info, run,
  exporter_label, exporter_length,
}

-- Sessions and channels that keep `P`.
module _ {D : Type 0} (P : D → Type 0) where
  pub record IsCalm (t : Tls D) : Type 0 where
    pub send_calm : (bytes : List ℕ) → Keeps P (t.send bytes)
    pub recv_calm : (n : ℕ) → Keeps P (t.recv n)
    pub read_calm : (timeout : Option ℕ) (d : D) → P d → P (t.wait_read timeout d).1
    pub write_calm : (timeout : Option ℕ) (d : D) → P d → P (t.wait_write timeout d).1
    pub clock_calm : (d : D) → P d → P (t.monotonic d).1

  pub record IsCalmChannel (c : Channel D) : Type 0 where
    pub send_calm : (bytes : List ℕ) → Keeps P (c.send_all bytes)
    pub recv_calm : (n : ℕ) → Keeps P (c.recv_exact n)
    pub export_calm : (label : List ℕ) (n : ℕ) → Keeps P (c.exporter label n)

  module _ (t : Tls D) (calm : IsCalm t) where
    remaining-Keeps : (deadline : Option ℕ) → Keeps P (remaining t deadline)
    unfolding remaining
    remaining-Keeps none = record { at = λ d h. h }
    remaining-Keeps (some n) = record { at = λ d h. calm.clock_calm d h }

    after_want-Keeps :
        {A : Type 0} (select : Option ℕ → D → Bool × D) (deadline : Option ℕ) (rest : Exec D A)
        → ((timeout : Option ℕ) (d : D) → P d → P (select timeout d).1)
        → Keeps P rest
        → Keeps P (after_want t select deadline rest)
    unfolding after_want
    after_want-Keeps select deadline rest h k =
        Keeps-bind _ _ (remaining-Keeps deadline) (λ timeout.
          Keeps-if _ _ _ (Keeps-raise pairing_failed) (
            Keeps-bind _ _ (record { at = λ d p. h timeout d p })
              (λ ready. Keeps-if ready _ _ k (Keeps-raise pairing_failed))))

    attempted-Keeps :
        {A : Type 0} (deadline : Option ℕ) (rest : Exec D A) (r : Result A)
        → Keeps P rest
        → Keeps P (attempted t deadline rest r)
    attempted-Keeps deadline rest (ok a) k = Keeps-pure a
    attempted-Keeps deadline rest (err want_read) k =
        after_want-Keeps t.wait_read deadline rest calm.read_calm k
    attempted-Keeps deadline rest (err want_write) k =
        after_want-Keeps t.wait_write deadline rest calm.write_calm k
    attempted-Keeps deadline rest (err e) k = Keeps-raise e

    pub retry-Keeps :
        {A : Type 0} (fuel : ℕ) (operation : Exec D A) (deadline : Option ℕ)
        → Keeps P operation
        → Keeps P (retry_on_want t fuel operation deadline)
    unfolding retry_on_want
    retry-Keeps zero operation deadline k = record { at = λ d h. h }
    retry-Keeps (suc fuel) operation deadline k = record {
      at = λ d h.
          (attempted-Keeps deadline (retry_on_want t fuel operation deadline) (operation d).0
              (retry-Keeps fuel operation deadline k)).at
            (operation d).1 (k.at d h);
    }

    pub send_from-Keeps :
        (fuel rounds : ℕ) (deadline : Option ℕ) (bytes : List ℕ) (sent : ℕ)
        → Keeps P (send_from t fuel deadline rounds bytes sent)
    unfolding send_from
    send_from-Keeps fuel zero deadline bytes sent =
        Keeps-if (ltb sent (length bytes)) _ _ (Keeps-raise out_of_fuel) (Keeps-pure tt)
    send_from-Keeps fuel (suc rounds) deadline bytes sent =
        Keeps-if _ _ _
          (Keeps-bind _ _ (retry-Keeps fuel _ deadline (calm.send_calm _)) (λ n.
            Keeps-if _ _ _ (Keeps-raise pairing_failed)
              (send_from-Keeps fuel rounds deadline bytes (sent + n))))
          (Keeps-pure tt)

    pub recv_rest-Keeps :
        (fuel rounds n : ℕ) (deadline : Option ℕ) (chunks : List ℕ)
        → Keeps P (recv_rest t fuel deadline rounds n chunks)
    unfolding recv_rest
    recv_rest-Keeps fuel rounds zero deadline chunks = record { at = λ d h. h }
    recv_rest-Keeps fuel zero (suc n) deadline chunks = record { at = λ d h. h }
    recv_rest-Keeps fuel (suc rounds) (suc n) deadline chunks =
        Keeps-bind _ _
          (record { at = λ d h. (retry-Keeps fuel _ deadline (calm.recv_calm (suc n))).at d h })
          (λ chunk.
            Keeps-if _ _ _ (Keeps-raise pairing_failed)
              (recv_rest-Keeps fuel rounds (suc n - length chunk) deadline (chunks ++ chunk)))

  module _ {K : Type 0} (c : Channel D) (p : Packages K) (calm : IsCalmChannel c) where
    send_packet-Keeps :
        (packet_type : ℕ) (payload : List ℕ) → Keeps P (send_packet c p packet_type payload)
    unfolding send_packet
    send_packet-Keeps packet_type payload =
        Keeps-bind _ _ (Keeps-lift _)
          (λ header. Keeps-bind _ _ (calm.send_calm header) (λ _. calm.send_calm payload))

    recv_packet-Keeps : (packet_type : ℕ) → Keeps P (recv_packet c p packet_type)
    unfolding recv_packet
    recv_packet-Keeps packet_type = Keeps-bind _ _ (calm.recv_calm header_size) (λ header.
        Keeps-bind _ _ (Keeps-lift _)
          (λ h. Keeps-if _ _ _ (calm.recv_calm h.1) (Keeps-raise pairing_failed)))

    with_auth-Keeps :
        {A : Type 0} (m : Exec (PairingAuthCtx K) A) (auth : PairingAuthCtx K)
        → Keeps P (with_auth c p m auth)
    with_auth-Keeps m auth = Keeps-bind _ _ (Keeps-lift _) (λ a. Keeps-pure _)

    or_raise-Keeps : {A : Type 0} (e : Error) (m : Exec D A) → Keeps P m → Keeps P (or_raise e m)
    unfolding or_raise
    or_raise-Keeps e m k = record { at = λ d h. k.at d h }

    exchange_spake2-Keeps : (auth : PairingAuthCtx K) → Keeps P (exchange_spake2 c p auth)
    unfolding exchange_spake2
    exchange_spake2-Keeps auth =
        Keeps-bind _ _ (send_packet-Keeps type_spake2_msg auth.our_msg) (λ _.
          Keeps-bind _ _ (recv_packet-Keeps type_spake2_msg) (λ their_msg.
            Keeps-bind _ _ (with_auth-Keeps (init_cipher p their_msg) auth)
              (λ r. Keeps-if _ _ _ (Keeps-pure _) (Keeps-raise pairing_failed))))

    exchange_peer_info-Keeps :
        (info : PeerInfo) (auth : PairingAuthCtx K) → Keeps P (exchange_peer_info c p info auth)
    unfolding exchange_peer_info
    exchange_peer_info-Keeps info auth = Keeps-bind _ _ (Keeps-lift _) (λ plaintext.
        Keeps-bind _ _ (with_auth-Keeps (encrypt p plaintext) auth) (λ r.
          Keeps-bind _ _ (send_packet-Keeps type_peer_info r.0) (λ _.
            Keeps-bind _ _ (recv_packet-Keeps type_peer_info) (λ encrypted.
              Keeps-bind _ _ (or_raise-Keeps _ _ (with_auth-Keeps (decrypt p encrypted) r.1))
                (λ _. Keeps-lift _)))))

    pub run-Keeps :
        (seed : ℕ) (pairing_code : List ℕ) (info : PeerInfo)
        → Keeps P (run c p seed pairing_code info)
    unfolding run
    run-Keeps seed pairing_code info =
        Keeps-bind _ _ (or_raise-Keeps _ _ (calm.export_calm exporter_label exporter_length))
          (λ keying.
            Keeps-if _ _ _
              (Keeps-bind _ _ (Keeps-lift _) (λ auth.
                Keeps-bind _ _ (exchange_spake2-Keeps auth)
                  (λ ready. exchange_peer_info-Keeps info ready)))
              (Keeps-raise pairing_failed))
