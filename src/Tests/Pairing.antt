-- ===== src/Tests/Pairing.antt =====
-- Pairing over a channel that carries bytes both ways, with toy packages for SPAKE2 and AES-GCM.
use adb_shell.Common.{
  ℕ, zero, suc, ◌<◌, ◌≤◌, ◌≡◌, refl, sym, ap, ◌∙◌, List, [], ◌∷◌, ◌++◌, true, none, arith, ◌⊎◌, inl,
  inr, length, replicate, take, drop, take-append_exact, drop-append_exact,
}
use adb_shell.Errors.{Result, ok, err, value_error, ok_inj, want_read, want_write}
use adb_shell.Exec.{◌>>=◌}
use adb_shell.Pairing.Packets.{
  PeerInfo, max_payload_size, peer_info_size, type_spake2_msg, type_peer_info, unpack_header,
  new_peer_info, pack_peer_info, unpack_peer_info, rstrip,
}
use adb_shell.Pairing.Packets.RoundTrip.{unpack_header-pack_header, unpack_peer_info-pack_peer_info}
use adb_shell.Pairing.Auth.{
  Packages, PairingAuthCtx, client, server, new_auth, init_cipher, encrypt, decrypt, build_nonce,
}
use adb_shell.Pairing.Auth.Agreement.{encrypt_all, decrypt_all, paired_contexts, Agrees, Seals}
use adb_shell.Pairing.Channel.{Tls, recv_exact}
use adb_shell.Pairing.Channel.Exact.{Arrives, recv_exact_lem}
use adb_shell.Pairing.Connection.{Channel, run}
use adb_shell.Pairing.Connection.Handshake.{Carries, IsPacket, run_paired}

abbrev Wire : Type 0
Wire = List ℕ × List ℕ

abbrev opened : List ℕ → Result (List ℕ)
opened [] = err value_error
opened (b ∷ bs) = ok bs

-- A key is the password; a seal is a byte in front.
abbrev toy : Packages (List ℕ)
toy = record {
  alice = λ ours theirs seed password. (password, seed ∷ []);
  bob = λ ours theirs seed password. (password, seed ∷ []);
  process_msg = λ k msg. ok (1 ∷ k);
  hkdf = λ n info material. material;
  gcm_encrypt = λ key nonce plaintext. ok (0 ∷ plaintext);
  gcm_decrypt = λ key nonce ciphertext. opened ciphertext;
}

toy-Agrees : Agrees toy
toy-Agrees = record {
  same_key = λ password seed seed'. (1, password, refl, refl, omega arith, omega arith);
}

toy-Seals : Seals toy
toy-Seals = record { opens = λ key nonce plaintext ciphertext e. sym (ap opened (ok_inj e)) }

abbrev keying : List ℕ
keying = replicate 64 7

abbrev line : Channel Wire
line = record {
  send_all = λ bytes d. (ok tt, (d.0, d.1 ++ bytes));
  recv_exact = λ n d. (ok (take n d.0), (drop n d.0, d.1));
  exporter = λ label n d. (ok keying, d);
}

line-Carries : Carries line (λ d. d.0) (λ d. d.1) keying
line-Carries = record {
  recv_lem = λ front rest d e. (
    (rest, d.1),
    ap (λ l. (ok (take (length front) l), (drop (length front) l, d.1))) e
        ∙ ap (λ l. (ok l, (drop (length front) (front ++ rest), d.1)))
            (take-append_exact front rest)
        ∙ ap (λ l. (ok front, (l, d.1))) (drop-append_exact front rest),
    refl,
    refl,
  );
  send_lem = λ bytes d. ((d.0, d.1 ++ bytes), refl, refl, refl);
  export_lem = λ d. (d, refl, refl, refl);
  keying_length = refl;
}

packet :
    (packet_type : ℕ) (payload : List ℕ)
    → packet_type < 256
    → 0 < length payload
    → length payload ≤ max_payload_size
    → (wire : List ℕ) × IsPacket packet_type payload wire
packet packet_type payload small some_bytes fits =
    let (header, packed, _) =
      unpack_header-pack_header packet_type (length payload) small some_bytes fits in
    (
      header ++ payload,
      record {
        header = header;
        packed = packed;
        whole = refl;
        nonempty = some_bytes;
        fits = fits;
        byte = small;
      },
    )

abbrev code : List ℕ
code = b'5' ∷ b'1' ∷ []

abbrev host_info : PeerInfo
host_info = record { peer_type = 0; payload = b'k' ∷ b'e' ∷ b'y' ∷ [] }

-- The host's and the device's PeerInfo, packed.
host_packed :
    (blob : List ℕ) × (pack_peer_info host_info ≡ ok blob) × (length blob ≡ peer_info_size)
host_packed =
    let (blob, _, packed, long, _) =
      unpack_peer_info-pack_peer_info 0 (b'k' ∷ b'e' ∷ b'y' ∷ []) (omega arith) (omega arith) in
    (blob, packed, long)

abbrev host_blob : List ℕ
host_blob = host_packed.0

abbrev device_blob : List ℕ
device_blob = 0 ∷ b'i' ∷ b'd' ∷ []

abbrev context : ℕ → PairingAuthCtx (List ℕ)
context seed = record {
  role = client;
  cipher = none;
  spake = code ++ keying;
  our_msg = seed ∷ [];
  enc_sequence = 0;
  dec_sequence = 0;
}

abbrev device_context : ℕ → PairingAuthCtx (List ℕ)
device_context seed = record (context seed) { role = server }

made :
    (new_auth toy client 3 (code ++ keying) ≡ ok (context 3))
    × (new_auth toy server 4 (code ++ keying) ≡ ok (device_context 4))
unfolding new_auth
made = (refl, refl)

sealed :
    ((encrypt toy host_blob (init_cipher toy (4 ∷ []) (context 3)).1).0 ≡ ok (0 ∷ host_blob))
    × ((encrypt toy device_blob (init_cipher toy (3 ∷ []) (device_context 4)).1).0
        ≡ ok (0 ∷ device_blob))
unfolding encrypt init_cipher build_nonce ◌>>=◌
sealed = (refl, refl)

our_spake : (wire : List ℕ) × IsPacket type_spake2_msg (3 ∷ []) wire
our_spake = packet 0 (3 ∷ []) (omega arith) (omega arith) (omega arith)

their_spake : (wire : List ℕ) × IsPacket type_spake2_msg (4 ∷ []) wire
their_spake = packet 0 (4 ∷ []) (omega arith) (omega arith) (omega arith)

our_sealed : (wire : List ℕ) × IsPacket type_peer_info (0 ∷ host_blob) wire
our_sealed = packet 1 (0 ∷ host_blob) (omega arith) (omega arith) (omega (arith, host_packed.2))

their_sealed : (wire : List ℕ) × IsPacket type_peer_info (0 ∷ device_blob) wire
their_sealed = packet 1 (0 ∷ device_blob) (omega arith) (omega arith) (omega arith)

abbrev start : Wire
start = (their_spake.0 ++ (their_sealed.0 ++ (9 ∷ [])), [])

run_paired_example :
    (d' : Wire) × (run line toy 3 code host_info start ≡ (unpack_peer_info device_blob, d'))
    × (d'.0 ≡ 9 ∷ [])
    × (d'.1 ≡ our_spake.0 ++ our_sealed.0)
    × ((decrypt toy (0 ∷ host_blob) (init_cipher toy (3 ∷ []) (device_context 4)).1).0
        ≡ ok host_blob)
run_paired_example =
    run_paired line toy (λ d. d.0) (λ d. d.1) keying line-Carries toy-Agrees toy-Seals host_info
      b'5' (b'1' ∷ []) 3 4 (context 3) (device_context 4) host_blob (0 ∷ host_blob) device_blob
      (0 ∷ device_blob) our_spake.0 our_sealed.0 their_spake.0 their_sealed.0 (9 ∷ []) start made.0
      made.1 host_packed.1 sealed.0 sealed.1 our_spake.1 their_spake.1 our_sealed.1 their_sealed.1
      refl

read_header : unpack_header (1 ∷ 0 ∷ 0 ∷ 0 ∷ 0 ∷ 32 ∷ []) ≡ ok (0, 32)
unfolding unpack_header
read_header = refl

unpack_peer_info-pack_peer_info_example :
    (blob : List ℕ) × (new_peer_info 0 (1 ∷ 0 ∷ [])
      ≡ ok (record { peer_type = 0; payload = 1 ∷ 0 ∷ [] }))
    × (pack_peer_info (record { peer_type = 0; payload = 1 ∷ 0 ∷ [] }) ≡ ok blob)
    × (length blob ≡ peer_info_size)
    × (unpack_peer_info blob ≡ ok (record { peer_type = 0; payload = rstrip (1 ∷ 0 ∷ []) }))
unpack_peer_info-pack_peer_info_example =
    unpack_peer_info-pack_peer_info 0 (1 ∷ 0 ∷ []) (omega arith) (omega arith)

-- A session that puts reads off as often as its second part says, and then gives one byte at a time.
abbrev slow_recv : ℕ → List ℕ × ℕ → Result (List ℕ) × (List ℕ × ℕ)
slow_recv n (bytes, zero) = (ok (take 1 bytes), (drop 1 bytes, 0))
slow_recv n (bytes, suc k) = (err want_read, (bytes, k))

abbrev slow : Tls (List ℕ × ℕ)
slow = record {
  send = λ bytes d. (ok (length bytes), d);
  recv = slow_recv;
  wait_read = λ timeout d. (true, d);
  wait_write = λ timeout d. (true, d);
  monotonic = λ d. (0, d);
}

slow_read :
    (n : ℕ) (d : List ℕ × ℕ)
    → 0 < n
    → n ≤ length d.0
    → ((chunk : List ℕ) × (d' : List ℕ × ℕ) × (slow_recv n d ≡ (ok chunk, d'))
        × (0 < length chunk)
        × (length chunk ≤ n)
        × (d.0 ≡ chunk ++ d'.0)
        × (d'.1 ≤ d.1))
      ⊎ ((d' : List ℕ × ℕ) × ((slow_recv n d ≡ (err want_read, d'))
            ⊎ (slow_recv n d ≡ (err want_write, d')))
          × (d'.0 ≡ d.0)
          × (d'.1 < d.1))
slow_read n ([], zero) pos fits = absurd (omega arith)
slow_read n (b ∷ bs, zero) pos fits =
    inl (b ∷ [], (bs, 0), refl, omega arith, omega arith, refl, omega arith)
slow_read n (bytes, suc k) pos fits = inr ((bytes, k), inl refl, refl, omega arith)

slow-Arrives : Arrives slow (λ d. d.0) (λ d. d.1)
slow-Arrives = record {
  read_lem = slow_read;
  ready_read = λ d. (d, refl, refl, omega arith);
  ready_write = λ d. (d, refl, refl, omega arith);
}

recv_exact_lem_example :
    (bytes : List ℕ) × (d' : List ℕ × ℕ) × (recv_exact slow 5 none 2 (7 ∷ 8 ∷ 9 ∷ [], 3)
      ≡ (ok bytes, d'))
    × (length bytes ≡ 2)
    × (7 ∷ 8 ∷ 9 ∷ [] ≡ bytes ++ d'.0)
    × (d'.1 ≤ 3)
recv_exact_lem_example =
    recv_exact_lem slow (λ d. d.0) (λ d. d.1) slow-Arrives 5 2 (7 ∷ 8 ∷ 9 ∷ [], 3) (omega arith)
      (omega arith) (omega arith)

abbrev host_says : List (List ℕ)
host_says = (1 ∷ []) ∷ (2 ∷ []) ∷ []

abbrev device_says : List (List ℕ)
device_says = (3 ∷ []) ∷ []

all_sealed :
    ((encrypt_all toy host_says (init_cipher toy (4 ∷ []) (context 3)).1).0
      ≡ ok ((0 ∷ 1 ∷ []) ∷ (0 ∷ 2 ∷ []) ∷ []))
    × ((encrypt_all toy device_says (init_cipher toy (3 ∷ []) (device_context 4)).1).0
        ≡ ok ((0 ∷ 3 ∷ []) ∷ []))
unfolding encrypt_all encrypt init_cipher build_nonce ◌>>=◌
all_sealed = (refl, refl)

paired_contexts_example :
    ((init_cipher toy (4 ∷ []) (context 3)).0 ≡ ok true)
    × ((init_cipher toy (3 ∷ []) (device_context 4)).0 ≡ ok true)
    × ((decrypt_all toy
          ((0 ∷ 1 ∷ []) ∷ (0 ∷ 2 ∷ []) ∷ [])
          (init_cipher toy (3 ∷ []) (device_context 4)).1).0
        ≡ ok host_says)
    × ((decrypt_all toy ((0 ∷ 3 ∷ []) ∷ []) (init_cipher toy (4 ∷ []) (context 3)).1).0
        ≡ ok device_says)
paired_contexts_example =
    paired_contexts toy toy-Agrees b'5' (b'1' ∷ keying) 3 4 toy-Seals (context 3) (device_context 4)
      host_says ((0 ∷ 1 ∷ []) ∷ (0 ∷ 2 ∷ []) ∷ []) device_says ((0 ∷ 3 ∷ []) ∷ []) made.0 made.1
      all_sealed.0 all_sealed.1
