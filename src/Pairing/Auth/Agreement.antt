-- ===== src/Pairing/Auth/Agreement.antt =====
-- Two PairingAuthCtx objects (pairing/auth.py), the client's and the server's, facing each other.
use adb_shell.Common.{
  ℕ, ◌+◌, ◌*◌, ◌/◌, ◌%◌, ◌^◌, ◌<◌, ◌≡◌, refl, sym, ap, ◌∙◌, List, [], ◌∷◌, true, none, some, arith,
  inl, inr, length,
}
use native.Mathlib.Decide.{dec_lt}
use adb_shell.Errors.{Result-cases, ok, ok_inj}
use adb_shell.Exec.{Exec, pure, ◌>>=◌}
use adb_shell.Exec.Rules.{bind-ok, bind-eq}
use adb_shell.Pairing.Auth.{
  client, server, Packages, PairingAuthCtx, client_name, server_name, build_nonce, new_auth,
  init_cipher, encrypt, decrypt, hkdf_info, aes_key_length,
}

abbrev nonce_value : List ℕ → ℕ
nonce_value (a ∷ b ∷ c ∷ d ∷ f ∷ g ∷ h ∷ k ∷ rest) =
    a + b * 2 ^ 8 + c * 2 ^ 16 + d * 2 ^ 24 + f * 2 ^ 32 + g * 2 ^ 40 + h * 2 ^ 48 + k * 2 ^ 56
nonce_value _ = 0

abbrev nonce_of : ℕ → List ℕ
nonce_of n =
    n % 256
    ∷ n / 2 ^ 8 % 256
    ∷ n / 2 ^ 16 % 256
    ∷ n / 2 ^ 24 % 256
    ∷ n / 2 ^ 32 % 256
    ∷ n / 2 ^ 40 % 256
    ∷ n / 2 ^ 48 % 256
    ∷ n / 2 ^ 56 % 256
    ∷ 0
    ∷ 0
    ∷ 0
    ∷ 0
    ∷ []

nonce_bytes :
    (n : ℕ) (nonce : List ℕ) → n < 2 ^ 64 → build_nonce n ≡ ok nonce → ok (nonce_of n) ≡ ok nonce
unfolding build_nonce
nonce_bytes n nonce h e = ground (arith, e)

sum_of_bytes : (n : ℕ) → n < 2 ^ 64 → nonce_value (nonce_of n) ≡ n
sum_of_bytes n h = omega arith

nonce_value-build_nonce :
    (n : ℕ) (nonce : List ℕ) → build_nonce n ≡ ok nonce → nonce_value nonce ≡ n
unfolding build_nonce
nonce_value-build_nonce n nonce e = elim (dec_lt n (2 ^ 64)) [
  | yes h ↦ (ap nonce_value (sym (ok_inj (nonce_bytes n nonce h e))) ∙ sum_of_bytes n h)
  | no h ↦ absurd (ground (arith, e))
]

-- Two sequence numbers that are packed to the same nonce are equal.
pub build_nonce_injective :
    (m n : ℕ) (nonce : List ℕ) → build_nonce m ≡ ok nonce → build_nonce n ≡ ok nonce → m ≡ n
build_nonce_injective m n nonce e e' =
    sym (nonce_value-build_nonce m nonce e) ∙ nonce_value-build_nonce n nonce e'

-- AES-GCM: what was encrypted is decrypted again, under the same key and nonce.
pub record Seals {K : Type 0} (p : Packages K) : Type 0 where
  pub opens :
      (key nonce plaintext ciphertext : List ℕ)
      → p.gcm_encrypt key nonce plaintext ≡ ok ciphertext
      → p.gcm_decrypt key nonce ciphertext ≡ ok plaintext

-- SPAKE2: two sides that begin with the same password, each given the message of the other, come to
-- the same key.
pub record Agrees {K : Type 0} (p : Packages K) : Type 0 where
  pub same_key :
      (password : List ℕ) (seed seed' : ℕ)
      → let (a, a_msg) = p.alice client_name server_name seed password in
        let (b, b_msg) = p.bob server_name client_name seed' password in
        (byte : ℕ) × (bytes : List ℕ) × (p.process_msg a b_msg ≡ ok (byte ∷ bytes))
        × (p.process_msg b a_msg ≡ ok (byte ∷ bytes))
        × (0 < length a_msg)
        × (0 < length b_msg)

module _ {K : Type 0} (p : Packages K) where
  -- Messages in a row.
  unfoldable pub encrypt_all : List (List ℕ) → Exec (PairingAuthCtx K) (List (List ℕ))
  encrypt_all [] = pure []
  encrypt_all (m ∷ ms) = encrypt p m >>= λ c. encrypt_all ms >>= λ cs. pure (c ∷ cs)

  unfoldable pub decrypt_all : List (List ℕ) → Exec (PairingAuthCtx K) (List (List ℕ))
  decrypt_all [] = pure []
  decrypt_all (c ∷ cs) = decrypt p c >>= λ m. decrypt_all cs >>= λ ms. pure (m ∷ ms)

  -- `c` writes what `s` reads.
  pub record IsLinked (key : List ℕ) (c s : PairingAuthCtx K) : Type 0 where
    pub writer : c.cipher ≡ some key
    pub reader : s.cipher ≡ some key
    pub in_step : c.enc_sequence ≡ s.dec_sequence

  module _ (seals : Seals p) (key : List ℕ) where
    pub decrypt-encrypt :
        (plaintext ciphertext : List ℕ) (c s : PairingAuthCtx K)
        → IsLinked key c s
        → (encrypt p plaintext c).0 ≡ ok ciphertext
        → ((decrypt p ciphertext s).0 ≡ ok plaintext)
          × IsLinked key (encrypt p plaintext c).1 (decrypt p ciphertext s).1
    unfolding encrypt decrypt ◌>>=◌
    decrypt-encrypt plaintext ciphertext c s linked e =
        elim (Result-cases (build_nonce c.enc_sequence)) [
          | inr (x, q) ↦ absurd (ground (arith, q, e))
          | inl (nonce, q) ↦ elim (Result-cases (p.gcm_encrypt key nonce plaintext)) [
            | inr (x, q') ↦ absurd (ground (arith, q, q', e))
            | inl (bytes, q') ↦ ground (arith, q, q', e, seals.opens key nonce plaintext bytes q')
          ]
        ]

    -- Encrypting does not change what the context reads next.
    pub encrypt_keeps :
        (plaintext ciphertext : List ℕ) (c : PairingAuthCtx K)
        → c.cipher ≡ some key
        → (encrypt p plaintext c).0 ≡ ok ciphertext
        → ((encrypt p plaintext c).1.cipher ≡ some key)
          × ((encrypt p plaintext c).1.dec_sequence ≡ c.dec_sequence)
    unfolding encrypt ◌>>=◌
    encrypt_keeps plaintext ciphertext c has e = elim (Result-cases (build_nonce c.enc_sequence)) [
      | inr (x, q) ↦ absurd (ground (arith, q, e))
      | inl (nonce, q) ↦ elim (Result-cases (p.gcm_encrypt key nonce plaintext)) [
        | inr (x, q') ↦ absurd (ground (arith, q, q', e))
        | inl (bytes, q') ↦ ground (arith, q, q', e)
      ]
    ]

    decrypt_all-encrypt_all :
        (ms cs : List (List ℕ)) (c s : PairingAuthCtx K)
        → IsLinked key c s
        → (encrypt_all ms c).0 ≡ ok cs
        → (decrypt_all cs s).0 ≡ ok ms
    unfolding encrypt_all decrypt_all
    decrypt_all-encrypt_all [] cs c s linked e = ap (λ l. (decrypt_all l s).0) (sym (ok_inj e))
    decrypt_all-encrypt_all (m ∷ ms) cs c s linked e =
        let (ct, first, rest, same) = bind-ok _ _ c _ e in
        let c' = (encrypt p m c).1 in
        let s' = (decrypt p ct s).1 in
        let (cts, later, last, same') = bind-ok _ _ c' _ rest in
        let (opened, linked') = decrypt-encrypt m ct c s linked first in
        let ih : (decrypt_all cts s').0 ≡ ok ms =
          decrypt_all-encrypt_all ms cts c' s' linked' later in
        ap (λ l. (decrypt_all l s).0) (sym (ok_inj last))
        ∙ ap (λ x. x.0) (bind-eq (decrypt p ct) _ s opened)
        ∙ ap (λ x. x.0) (bind-eq (decrypt_all cts) _ s' ih)

  abbrev pub session_key : List ℕ → List ℕ
  session_key material = p.hkdf aes_key_length hkdf_info material

  init_ready :
      (msg : List ℕ) (c : PairingAuthCtx K) (b : ℕ) (bs : List ℕ)
      → 0 < length msg
      → c.cipher ≡ none
      → p.process_msg c.spake msg ≡ ok (b ∷ bs)
      → init_cipher p msg c ≡ (ok true, record c { cipher = some (session_key (b ∷ bs)) })
  unfolding init_cipher ◌>>=◌
  init_ready [] c b bs long fresh e = absurd (omega arith)
  init_ready (x ∷ xs) c b bs long fresh e = rw (fresh, e)

  module _ (agrees : Agrees p) (password_byte : ℕ) (password_bytes : List ℕ) (seed seed' : ℕ) where
    abbrev pub password : List ℕ
    password = password_byte ∷ password_bytes

    pub both_ready :
        (c s : PairingAuthCtx K)
        → new_auth p client seed password ≡ ok c
        → new_auth p server seed' password ≡ ok s
        → (material : List ℕ) × (init_cipher p s.our_msg c
            ≡ (ok true, record c { cipher = some (session_key material) }))
          × (init_cipher p c.our_msg s
              ≡ (ok true, record s { cipher = some (session_key material) }))
          × (c.enc_sequence ≡ s.dec_sequence)
          × (s.enc_sequence ≡ c.dec_sequence)
    unfolding new_auth
    both_ready c s ec es =
        let (b, bs, at_client, at_server, c_long, s_long) = agrees.same_key password seed seed' in
        let c_is = ok_inj ec in
        let s_is = ok_inj es in
        (
          b ∷ bs,
          init_ready s.our_msg c b bs (ground (arith, es, s_long)) (ground (arith, ec))
              (rw (← c_is, ← s_is) at_client),
          init_ready c.our_msg s b bs (ground (arith, ec, c_long)) (ground (arith, es))
              (rw (← c_is, ← s_is) at_server),
          ground (arith, ec, es),
          ground (arith, ec, es),
        )

    -- Where the package's SPAKE2 agrees on a key and its AES-GCM opens what it sealed: a client and a
    -- server that begin with the same password, which is not empty, and are each given the message of
    -- the other, both succeed; and then the messages that either encrypts in a row are decrypted by the
    -- other in that order.
    pub paired_contexts :
        (seals : Seals p) (c s : PairingAuthCtx K) (ms cs ms' cs' : List (List ℕ))
        → new_auth p client seed password ≡ ok c
        → new_auth p server seed' password ≡ ok s
        → (encrypt_all ms (init_cipher p s.our_msg c).1).0 ≡ ok cs
        → (encrypt_all ms' (init_cipher p c.our_msg s).1).0 ≡ ok cs'
        → ((init_cipher p s.our_msg c).0 ≡ ok true)
          × ((init_cipher p c.our_msg s).0 ≡ ok true)
          × ((decrypt_all cs (init_cipher p c.our_msg s).1).0 ≡ ok ms)
          × ((decrypt_all cs' (init_cipher p s.our_msg c).1).0 ≡ ok ms')
    paired_contexts seals c s ms cs ms' cs' ec es sent sent' =
        let (material, at_client, at_server, forth, back) = both_ready c s ec es in
        let key = session_key material in
        let c' = record c { cipher = some key } in
        let s' = record s { cipher = some key } in
        let client_is : (init_cipher p s.our_msg c).1 ≡ c' = ap (λ x. x.1) at_client in
        let server_is : (init_cipher p c.our_msg s).1 ≡ s' = ap (λ x. x.1) at_server in
        (
          ap (λ x. x.0) at_client,
          ap (λ x. x.0) at_server,
          ap (λ x. (decrypt_all cs x).0) server_is
              ∙ decrypt_all-encrypt_all seals key ms cs c' s'
                  (record { writer = refl; reader = refl; in_step = forth })
                  (ap (λ x. (encrypt_all ms x).0) (sym client_is) ∙ sent),
          ap (λ x. (decrypt_all cs' x).0) client_is
              ∙ decrypt_all-encrypt_all seals key ms' cs' s' c'
                  (record { writer = refl; reader = refl; in_step = back })
                  (ap (λ x. (encrypt_all ms' x).0) (sym server_is) ∙ sent'),
        )
