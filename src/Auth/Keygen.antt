-- ===== src/Auth/Keygen.antt =====
-- auth/keygen.py: the public key in Android's format, and back. A key's modulus has 2048 bits.
pub mod Encoded
use adb_shell.Common.{
  ℕ, zero, suc, ◌+◌, ◌-◌, ◌*◌, ◌/◌, ◌%◌, ◌^◌, List, [], ◌∷◌, ◌++◌, Option, none, some, Bool, true,
  false, length, take, drop, ltb, ◌==◌, if◌then◌else◌,
}
use adb_shell.Errors.{
  Error, Result, ok, err, struct_error, overflow_error, zero_division, assertion_error,
}
use adb_shell.Message.Struct.{◌>>=◌, pack_fields, unpack_words}
use adb_shell.Auth.Base64

abbrev pub modulus_size : ℕ
modulus_size = 256

abbrev pub modulus_size_words : ℕ
modulus_size_words = 64

-- struct.calcsize of ANDROID_RSAPUBLICKEY_STRUCT
abbrev pub struct_size : ℕ
struct_size = 524

-- The bytes of a number, the low one first.
unfoldable pub little_endian : ℕ → ℕ → List ℕ
little_endian zero n = []
little_endian (suc k) n = n % 256 ∷ little_endian k (n / 256)

-- n.to_bytes(length, 'little')
unfoldable pub to_bytes : ℕ → ℕ → Result (List ℕ)
to_bytes n size = if ltb n (256 ^ size) then ok (little_endian size n) else err overflow_error

-- A negative number has no place in a field of the struct.
abbrev pub difference : ℕ → ℕ → Option ℕ
difference a b = if ltb a b then none else some (a - b)

-- rr = (1 << 2048) ** 2 % n
unfoldable pub montgomery_rr : ℕ → Result ℕ
montgomery_rr n = if n == 0 then err zero_division else ok ((2 ^ 2048) ^ 2 % n)

pub record PublicNumbers : Type 0 where
  pub n : ℕ
  pub e : ℕ

-- The fields of the struct.
pub record RsaPublicKey : Type 0 where
  pub size_words : ℕ
  pub n0inv : ℕ
  pub modulus : List ℕ
  pub rr : List ℕ
  pub exponent : ℕ

-- encode_pubkey, of the key that was loaded; `modinv` is rsa._modinv of the package.
unfoldable pub encode_numbers : (ℕ → ℕ → ℕ) → PublicNumbers → Result (List ℕ)
encode_numbers modinv key = montgomery_rr key.n >>= λ rr.
    to_bytes key.n modulus_size >>= λ modulus_bytes. to_bytes rr modulus_size >>= λ rr_bytes.
    pack_fields
      (some modulus_size_words ∷ difference (2 ^ 32) (modinv (key.n % 2 ^ 32) (2 ^ 32)) ∷ [])
    >>= λ front. pack_fields (some key.e ∷ []) >>= λ exponent.
        ok (front ++ (modulus_bytes ++ (rr_bytes ++ exponent)))

abbrev pub fields_of : List ℕ → List ℕ → List ℕ → List ℕ → Result RsaPublicKey
fields_of (size_words ∷ n0inv ∷ []) modulus rr (exponent ∷ []) = ok (record {
  size_words = size_words;
  n0inv = n0inv;
  modulus = modulus;
  rr = rr;
  exponent = exponent;
})
fields_of _ _ _ _ = err struct_error

-- struct.unpack(ANDROID_RSAPUBLICKEY_STRUCT, blob)
unfoldable pub unpack_struct : List ℕ → Result RsaPublicKey
unpack_struct blob = unpack_words 2 (take 8 blob) >>= λ front.
    unpack_words 1 (drop 520 blob) >>= λ exponent.
    fields_of front (take modulus_size (drop 8 blob)) (take modulus_size (drop 264 blob)) exponent

-- decode_pubkey; what it logs is the result here.
unfoldable pub decode_pubkey : List ℕ → Result RsaPublicKey
decode_pubkey public_key = Base64.decode public_key >>= λ blob. unpack_struct blob >>= λ key.
    (if key.size_words == modulus_size_words then ok key else err assertion_error)
