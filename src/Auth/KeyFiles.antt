-- ===== src/Auth/KeyFiles.antt =====
-- The key files of auth/keygen.py. The package cryptography, the local files and the names of the user
-- and of the host are parameters.
pub mod Generated
use adb_shell.Common.{ℕ, List, [], ◌∷◌, ◌++◌, length, ◌==◌, if◌then◌else◌}
use adb_shell.Errors.{Result, ok, err, assertion_error}
use adb_shell.Exec.{Exec, pure, raise, lift, ◌>>=◌, ◌>>◌}
use adb_shell.Transport.Sockets.{is_os_error}
use adb_shell.Auth.Base64
use adb_shell.Auth.Keygen.{PublicNumbers, RsaPublicKey, struct_size, encode_numbers, decode_pubkey}

-- `W` is the world behind the files.
pub record System (W : Type 0) : Type 0 where
  -- open(path, 'rb') and read
  pub read_file : List ℕ → Exec W (List ℕ)
  -- open(path, 'wb') makes the file empty, a write goes to its end
  pub open_empty : List ℕ → Exec W (Unit {0})
  pub append : List ℕ → List ℕ → Exec W (Unit {0})
  -- os.getlogin and socket.gethostname
  pub getlogin : Result (List ℕ)
  pub gethostname : Result (List ℕ)
  -- load_pem_private_key(...).private_numbers().public_numbers, and rsa._modinv
  pub load_pem : List ℕ → Result PublicNumbers
  pub modinv : ℕ → ℕ → ℕ
  -- rsa.generate_private_key and private_bytes: the PEM text
  pub generate : Exec W (List ℕ)

-- b"unknown"
abbrev pub unknown : List ℕ
unknown = b'u' ∷ b'n' ∷ b'k' ∷ b'n' ∷ b'o' ∷ b'w' ∷ b'n' ∷ []

abbrev pub or_unknown : List ℕ → List ℕ
or_unknown [] = unknown
or_unknown (c ∷ cs) = c ∷ cs

abbrev pub user_name : Result (List ℕ) → Result (List ℕ)
user_name (ok name) = ok (or_unknown name)
user_name (err e) = if is_os_error e then ok unknown else err e

-- b".pub"
abbrev pub public_suffix : List ℕ
public_suffix = b'.' ∷ b'p' ∷ b'u' ∷ b'b' ∷ []

module _ {W : Type 0} (s : System W) where
  unfoldable pub get_user_info : Exec W (List ℕ)
  get_user_info = do
    username ← lift (user_name s.getlogin)
    hostname ← lift s.gethostname
    pure (b' ' ∷ username ++ (b'@' ∷ or_unknown hostname))

  unfoldable pub encode_pubkey : List ℕ → Exec W (List ℕ)
  encode_pubkey private_key_path = do
    pem ← s.read_file private_key_path
    key ← lift (s.load_pem pem)
    lift (encode_numbers s.modinv key)

  unfoldable pub decode_pubkey_file : List ℕ → Exec W RsaPublicKey
  decode_pubkey_file public_key_path = do
    text ← s.read_file public_key_path
    lift (decode_pubkey text)

  unfoldable pub write_public_keyfile : List ℕ → List ℕ → Exec W (Unit {0})
  write_public_keyfile private_key_path public_key_path = do
    public_key ← encode_pubkey private_key_path
    if length public_key == struct_size
        then (do
          s.open_empty public_key_path
          s.append public_key_path (Base64.encode public_key)
          user_info ← get_user_info
          s.append public_key_path user_info)
        else raise assertion_error

  unfoldable pub keygen : List ℕ → Exec W (Unit {0})
  keygen filepath = do
    pem ← s.generate
    s.open_empty filepath
    s.append filepath pem
    write_public_keyfile filepath (filepath ++ public_suffix)
