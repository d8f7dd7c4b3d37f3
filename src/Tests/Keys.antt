-- ===== src/Tests/Keys.antt =====
-- Key files on a function from paths to contents.
use adb_shell.Common.{
  ℕ, ◌+◌, ◌^◌, ◌≡◌, ◌≢◌, refl, ap, ◌∙◌, List, [], ◌∷◌, ◌++◌, Option, none, some, Bool, true, false,
  ◌&&◌, arith, length, All, ◌==◌, if◌then◌else◌, inl, inr, Bool-cases,
}
use adb_shell.Errors.{Result, ok, err, os_error}
use adb_shell.Message.Struct.{IsByte}
use adb_shell.Auth.Base64
use adb_shell.Auth.Base64.RoundTrip.{decode-encode}
use adb_shell.Auth.Keygen.{PublicNumbers, RsaPublicKey, struct_size, encode_numbers, unpack_struct}
use adb_shell.Auth.Keygen.Encoded.{IsKey, Holds, unpack_struct-encode_numbers}
use adb_shell.Auth.KeyFiles.{System, decode_pubkey_file, keygen}
use adb_shell.Auth.KeyFiles.Generated.{Stores, keygen_lem}

decode-encode_example :
    Base64.decode (Base64.encode (1 ∷ 200 ∷ []) ++ (b' ' ∷ b'm' ∷ b'e' ∷ [])) ≡ ok (1 ∷ 200 ∷ [])
decode-encode_example =
    decode-encode (1 ∷ 200 ∷ []) (b' ' ∷ b'm' ∷ b'e' ∷ []) (omega arith, (omega arith, tt)) (inl cc)

abbrev same_path : List ℕ → List ℕ → Bool
same_path [] [] = true
same_path (x ∷ xs) (y ∷ ys) = (x == y) && same_path xs ys
same_path _ _ = false

same_path_refl : (p : List ℕ) → same_path p p ≡ true
same_path_refl [] = refl
same_path_refl (x ∷ xs) = ground (arith, same_path_refl xs)

same_path_sound : (p q : List ℕ) → same_path p q ≡ true → p ≡ q
same_path_sound [] [] e = refl
same_path_sound [] (y ∷ ys) e = absurd cc
same_path_sound (x ∷ xs) [] e = absurd cc
same_path_sound (x ∷ xs) (y ∷ ys) e = ground (arith, e, same_path_sound xs ys)

abbrev Disk : Type 0
Disk = List ℕ → Option (List ℕ)

abbrev opened : Option (List ℕ) → Result (List ℕ)
opened none = err os_error
opened (some bytes) = ok bytes

abbrev grown : Option (List ℕ) → List ℕ → Option (List ℕ)
grown none bytes = some bytes
grown (some before) bytes = some (before ++ bytes)

abbrev changed : List ℕ → Option (List ℕ) → Disk → Disk
changed path bytes w q = if same_path q path then bytes else w q

abbrev test_key : PublicNumbers
test_key = record { n = 2 ^ 2047 + 3; e = 65537 }

abbrev local : System Disk
local = record {
  read_file = λ path w. (opened (w path), w);
  open_empty = λ path w. (ok tt, changed path (some []) w);
  append = λ path bytes w. (ok tt, changed path (grown (w path) bytes) w);
  getlogin = err os_error;
  gethostname = ok (b'p' ∷ b'c' ∷ []);
  load_pem = λ pem. ok test_key;
  modinv = λ e m. 2863311531;
  generate = λ w. (ok (b'P' ∷ b'E' ∷ b'M' ∷ []), w);
}

changed_here :
    (path : List ℕ) (bytes : Option (List ℕ)) (w : Disk) → changed path bytes w path ≡ bytes
changed_here path bytes w = rw (same_path_refl path)

changed_there :
    (path other : List ℕ) (bytes : Option (List ℕ)) (w : Disk)
    → other ≢ path
    → changed path bytes w other ≡ w other
changed_there path other bytes w ne = elim (Bool-cases (same_path other path)) [
  | inl e ↦ absurd (ne (same_path_sound other path e))
  | inr e ↦ rw e
]

local-Stores : Stores local (λ path w. w path)
local-Stores = record {
  read_lem = λ path bytes w e. rw e;
  open_lem = λ path w. (
    changed path (some []) w,
    refl,
    changed_here path (some []) w,
    λ other ne. changed_there path other (some []) w ne,
  );
  append_lem = λ path bytes before w e. (
    changed path (grown (w path) bytes) w,
    refl,
    changed_here path (grown (w path) bytes) w ∙ ap (λ b. grown b bytes) e,
    λ other ne. changed_there path other (grown (w path) bytes) w ne,
  );
}

test_key-IsKey : IsKey local.modinv test_key
test_key-IsKey = record {
  positive = omega arith;
  fits = omega arith;
  exponent_fits = omega arith;
  inverse_fits = omega arith;
  inverse = refl;
}

unpack_struct-encode_numbers_example :
    (blob : List ℕ) × (fields : RsaPublicKey) × (encode_numbers (λ e m. 2863311531) test_key
      ≡ ok blob)
    × (length blob ≡ struct_size)
    × All IsByte blob
    × (unpack_struct blob ≡ ok fields)
    × Holds test_key fields
unpack_struct-encode_numbers_example =
    unpack_struct-encode_numbers (λ e m. 2863311531) test_key test_key-IsKey

abbrev key_path : List ℕ
key_path = b'k' ∷ []

abbrev blank : Disk
blank path = none

keygen_lem_example :
    (w' : Disk) × (fields : RsaPublicKey) × (keygen local key_path blank ≡ (ok tt, w'))
    × (w' key_path ≡ some (b'P' ∷ b'E' ∷ b'M' ∷ []))
    × (decode_pubkey_file local (b'k' ∷ b'.' ∷ b'p' ∷ b'u' ∷ b'b' ∷ []) w' ≡ (ok fields, w'))
    × Holds test_key fields
keygen_lem_example =
    keygen_lem local (λ path w. w path) local-Stores key_path (b'P' ∷ b'E' ∷ b'M' ∷ [])
      (b'u' ∷ b'n' ∷ b'k' ∷ b'n' ∷ b'o' ∷ b'w' ∷ b'n' ∷ []) (b'p' ∷ b'c' ∷ []) test_key blank blank
      refl refl test_key-IsKey refl refl
