-- ===== src/Pairing/Auth.antt =====
-- PairingAuthCtx of pairing/auth.py. SPAKE2 (the package spake2), HKDF and AES-GCM (the package
-- cryptography) are parameters.
pub mod Agreement
use adb_shell.Common.{
  ℕ, ◌+◌, ◌/◌, ◌%◌, ◌^◌, List, [], ◌∷◌, ◌++◌, Bool, true, false, Option, none, some, ltb,
  if◌then◌else◌,
}
use adb_shell.Errors.{Result, ok, err, value_error, struct_error, runtime_error}
use adb_shell.Exec.{Exec, pure, raise, lift, modify, ◌>>=◌, ◌>>◌}
use adb_shell.PacketStore.{is_nonempty}

pub data Role : Type 0 where
  client server : Role

-- `K` is what a SPAKE2 object keeps. A random choice is an argument, `seed`.
pub record Packages (K : Type 0) : Type 0 where
  -- Spake2_Alice(my_name, their_name).generate_msg(password), and Spake2_Bob's
  pub alice : List ℕ → List ℕ → ℕ → List ℕ → K × List ℕ
  pub bob : List ℕ → List ℕ → ℕ → List ℕ → K × List ℕ
  -- process_msg(their_msg)
  pub process_msg : K → List ℕ → Result (List ℕ)
  -- HKDF(SHA256(), length, salt=None, info).derive(key_material)
  pub hkdf : ℕ → List ℕ → List ℕ → List ℕ
  -- AESGCM(key).encrypt(nonce, plaintext, None) and decrypt(nonce, ciphertext, None)
  pub gcm_encrypt : List ℕ → List ℕ → List ℕ → Result (List ℕ)
  pub gcm_decrypt : List ℕ → List ℕ → List ℕ → Result (List ℕ)

-- b"adb pair client"
abbrev pub client_name : List ℕ
client_name =
    b'a' ∷ b'd' ∷ b'b' ∷ b' ' ∷ b'p' ∷ b'a' ∷ b'i' ∷ b'r' ∷ b' ' ∷ b'c' ∷ b'l' ∷ b'i' ∷ b'e' ∷ b'n'
    ∷ b't' ∷ []

-- b"adb pair server"
abbrev pub server_name : List ℕ
server_name =
    b'a' ∷ b'd' ∷ b'b' ∷ b' ' ∷ b'p' ∷ b'a' ∷ b'i' ∷ b'r' ∷ b' ' ∷ b's' ∷ b'e' ∷ b'r' ∷ b'v' ∷ b'e'
    ∷ b'r' ∷ []

-- b"adb pairing_auth aes-128-gcm key"
abbrev pub hkdf_info : List ℕ
hkdf_info =
    b'a' ∷ b'd' ∷ b'b' ∷ b' ' ∷ b'p' ∷ b'a' ∷ b'i' ∷ b'r' ∷ b'i' ∷ b'n' ∷ b'g' ∷ b'_' ∷ b'a' ∷ b'u'
    ∷ b't' ∷ b'h' ∷ b' ' ∷ b'a' ∷ b'e' ∷ b's' ∷ b'-' ∷ b'1' ∷ b'2' ∷ b'8' ∷ b'-' ∷ b'g' ∷ b'c'
    ∷ b'm' ∷ b' ' ∷ b'k' ∷ b'e' ∷ b'y' ∷ []

abbrev pub aes_key_length : ℕ
aes_key_length = 16

-- struct.pack("<Q", sequence) + b"\x00\x00\x00\x00"
unfoldable pub build_nonce : ℕ → Result (List ℕ)
build_nonce n =
    if ltb n (2 ^ 64)
    then ok (
        n % 256
        ∷ n / 2 ^ 8 % 256
        ∷ n / 2 ^ 16 % 256
        ∷ n / 2 ^ 24 % 256
        ∷ n / 2 ^ 32 % 256
        ∷ n / 2 ^ 40 % 256
        ∷ n / 2 ^ 48 % 256
        ∷ n / 2 ^ 56 % 256
        ∷ 0
        ∷ 0
        ∷ 0
        ∷ 0
        ∷ [])
    else err struct_error

pub record PairingAuthCtx (K : Type 0) : Type 0 where
  pub role : Role
  -- the key of the AESGCM object, once there is one
  pub cipher : Option (List ℕ)
  pub spake : K
  pub our_msg : List ℕ
  pub enc_sequence : ℕ
  pub dec_sequence : ℕ

-- key_material = process_msg(their_msg), where an exception and an empty result are failures.
abbrev pub key_material : Result (List ℕ) → Option (List ℕ)
key_material (ok []) = none
key_material (ok (b ∷ bs)) = some (b ∷ bs)
key_material (err e) = none

module _ {K : Type 0} (p : Packages K) where
  abbrev pub generate : Role → ℕ → List ℕ → K × List ℕ
  generate client seed password = p.alice client_name server_name seed password
  generate server seed password = p.bob server_name client_name seed password

  -- __init__; a role is one of the two.
  unfoldable pub new_auth : Role → ℕ → List ℕ → Result (PairingAuthCtx K)
  new_auth role seed [] = err value_error
  new_auth role seed (b ∷ bs) =
      let (spake, msg) = generate role seed (b ∷ bs) in
      ok (record {
        role = role;
        cipher = none;
        spake = spake;
        our_msg = msg;
        enc_sequence = 0;
        dec_sequence = 0;
      })

  -- The key of the session, and `True`; or nothing, and `False`.
  abbrev pub accept_key : Option (List ℕ) → Exec (PairingAuthCtx K) Bool
  accept_key none = pure false
  accept_key (some key) = do
    modify (λ c. record c { cipher = some (p.hkdf aes_key_length hkdf_info key) })
    pure true

  abbrev pub unless_ready :
      Option (List ℕ) → Exec (PairingAuthCtx K) Bool → Exec (PairingAuthCtx K) Bool
  unless_ready none m = m
  unless_ready (some key) m = raise runtime_error

  unfoldable pub init_cipher : List ℕ → Exec (PairingAuthCtx K) Bool
  init_cipher [] c = (err value_error, c)
  init_cipher (b ∷ bs) c =
      unless_ready c.cipher (accept_key (key_material (p.process_msg c.spake (b ∷ bs)))) c

  abbrev pub key_of : Option (List ℕ) → Result (List ℕ)
  key_of none = err runtime_error
  key_of (some key) = ok key

  unfoldable pub encrypt : List ℕ → Exec (PairingAuthCtx K) (List ℕ)
  encrypt plaintext c =
      (do
        key ← lift (key_of c.cipher)
        nonce ← lift (build_nonce c.enc_sequence)
        ciphertext ← lift (p.gcm_encrypt key nonce plaintext)
        modify (λ d. record d { enc_sequence = d.enc_sequence + 1 })
        pure ciphertext)
        c

  unfoldable pub decrypt : List ℕ → Exec (PairingAuthCtx K) (List ℕ)
  decrypt ciphertext c =
      (do
        key ← lift (key_of c.cipher)
        nonce ← lift (build_nonce c.dec_sequence)
        plaintext ← lift (p.gcm_decrypt key nonce ciphertext)
        modify (λ d. record d { dec_sequence = d.dec_sequence + 1 })
        pure plaintext)
        c

-- safe_encrypted_size and safe_decrypted_size
unfoldable pub safe_encrypted_size : ℕ → ℕ
safe_encrypted_size plaintext_len = plaintext_len + 16

unfoldable pub safe_decrypted_size : ℕ → ℕ
safe_decrypted_size ciphertext_len = ciphertext_len
