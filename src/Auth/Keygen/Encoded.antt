-- ===== src/Auth/Keygen/Encoded.antt =====
-- The public key that auth/keygen.py encodes: its fields, and that they are read back.
use adb_shell.Common.{
  ℕ, zero, suc, ◌+◌, ◌-◌, ◌*◌, ◌/◌, ◌%◌, ◌^◌, ◌<◌, ◌≡◌, refl, sym, ap, ◌∙◌, List, [], ◌∷◌, ◌++◌,
  All, arith, length, take, drop, length-append, take-append_exact, drop-append_exact, some,
}
use mathlib.Core.List.{append_assoc}
use adb_shell.Errors.{ok}
use adb_shell.Message.Struct.{pack_fields, unpack_words, words, unpack_words-words, word, IsByte}
use adb_shell.Auth.Keygen.{
  PublicNumbers, RsaPublicKey, modulus_size, struct_size, little_endian, to_bytes, montgomery_rr,
  difference, encode_numbers, unpack_struct,
}

-- What the bytes of a number stand for, the low one first.
abbrev pub value : List ℕ → ℕ
value [] = 0
value (b ∷ bs) = b + 256 * value bs

value-little_endian : (k n : ℕ) → n < 256 ^ k → value (little_endian k n) ≡ n
unfolding little_endian
value-little_endian zero n h = omega arith
value-little_endian (suc k) n h =
    let ih = value-little_endian k (n / 256) (omega arith) in omega (arith, ih)

length-little_endian : (k n : ℕ) → length (little_endian k n) ≡ k
unfolding little_endian
length-little_endian zero n = refl
length-little_endian (suc k) n = ap suc (length-little_endian k (n / 256))

little_endian_bytes : (k n : ℕ) → All IsByte (little_endian k n)
unfolding little_endian
little_endian_bytes zero n = tt
little_endian_bytes (suc k) n = (omega arith, little_endian_bytes k (n / 256))

negated_parts :
    (n q r inv d : ℕ)
    → n ≡ q * 2 ^ 32 + r
    → inv + d ≡ 2 ^ 32
    → inv * r % 2 ^ 32 ≡ 1
    → (d * n + 1) % 2 ^ 32 ≡ 0
negated_parts n q r inv d parts sum unit =
    let dn : d * n ≡ d * q * 2 ^ 32 + d * r = ap (λ z. d * z) parts ∙ omega arith in
    let both : inv * r + d * r ≡ 2 ^ 32 * r = omega arith ∙ ap (λ z. z * r) sum in
    omega (arith, dn, both)

-- `d` is the negated inverse of n modulo 2^32, which Montgomery multiplication by words wants.
negated :
    (n inv d : ℕ) → inv + d ≡ 2 ^ 32 → inv * (n % 2 ^ 32) % 2 ^ 32 ≡ 1 → (d * n + 1) % 2 ^ 32 ≡ 0
negated n inv d sum unit =
    let r = n % 2 ^ 32 in
    let parts : n ≡ n / 2 ^ 32 * 2 ^ 32 + r = omega arith in
    negated_parts n (n / 2 ^ 32) r inv d parts sum unit

-- A key that the format can hold, and the inverse of its modulus.
pub record IsKey (modinv : ℕ → ℕ → ℕ) (key : PublicNumbers) : Type 0 where
  pub positive : 0 < key.n
  pub fits : key.n < 256 ^ modulus_size
  pub exponent_fits : key.e < 2 ^ 32
  pub inverse_fits : modinv (key.n % 2 ^ 32) (2 ^ 32) < 2 ^ 32
  pub inverse : modinv (key.n % 2 ^ 32) (2 ^ 32) * (key.n % 2 ^ 32) % 2 ^ 32 ≡ 1

-- What stands in the fields.
pub record Holds (key : PublicNumbers) (fields : RsaPublicKey) : Type 0 where
  pub words : fields.size_words ≡ 64
  pub negated_inverse : (fields.n0inv * key.n + 1) % 2 ^ 32 ≡ 0
  pub modulus_bytes : (length fields.modulus ≡ modulus_size) × (value fields.modulus ≡ key.n)
  pub rr_bytes : (length fields.rr ≡ modulus_size) × (value fields.rr ≡ (2 ^ 2048) ^ 2 % key.n)
  pub exponent_is : fields.exponent ≡ key.e

below : (n m k : ℕ) → 0 < m → m < k → n % m < k
below n m k pos h = omega arith

rr_ok : (n : ℕ) → 0 < n → montgomery_rr n ≡ ok ((2 ^ 2048) ^ 2 % n)
unfolding montgomery_rr
rr_ok n pos = ground arith

to_bytes_ok : (k n : ℕ) → n < 256 ^ k → to_bytes n k ≡ ok (little_endian k n)
unfolding to_bytes
to_bytes_ok k n h = ground arith

word_ok : (n : ℕ) → n < 2 ^ 32 → pack_fields (some n ∷ []) ≡ ok (word n)
unfolding pack_fields word
word_ok n h = ground arith

front_ok :
    (inv r : ℕ)
    → inv < 2 ^ 32
    → inv * r % 2 ^ 32 ≡ 1
    → pack_fields (some 64 ∷ difference (2 ^ 32) inv ∷ []) ≡ ok (word 64 ++ word (2 ^ 32 - inv))
unfolding pack_fields word
front_ok zero r h unit = absurd (omega (arith, unit))
front_ok (suc inv) r h unit = ground arith

negated_fits : (inv r : ℕ) → inv * r % 2 ^ 32 ≡ 1 → 2 ^ 32 - inv < 2 ^ 32
negated_fits zero r unit = absurd (omega (arith, unit))
negated_fits (suc inv) r unit = omega arith

take_at : (n : ℕ) (xs ys : List ℕ) → length xs ≡ n → take n (xs ++ ys) ≡ xs
take_at n xs ys e = ap (λ k. take k (xs ++ ys)) (sym e) ∙ take-append_exact xs ys

drop_at : (n : ℕ) (xs ys : List ℕ) → length xs ≡ n → drop n (xs ++ ys) ≡ ys
drop_at n xs ys e = ap (λ k. drop k (xs ++ ys)) (sym e) ∙ drop-append_exact xs ys

length-word : (n : ℕ) → length (word n) ≡ 4
unfolding word
length-word n = refl

read_two : (a b : ℕ) → a < 2 ^ 32 → b < 2 ^ 32 → unpack_words 2 (word a ++ word b) ≡ ok (a ∷ b ∷ [])
unfolding words word
read_two a b ha hb = unpack_words-words (a ∷ b ∷ []) (ha, (hb, tt))

read_one : (a : ℕ) → a < 2 ^ 32 → unpack_words 1 (word a) ≡ ok (a ∷ [])
unfolding words word
read_one a ha = unpack_words-words (a ∷ []) (ha, tt)

-- Behind the first 8 bytes, and behind the modulus and rr.
layout :
    (front m r tail : List ℕ)
    → length front ≡ 8
    → length m ≡ modulus_size
    → length r ≡ modulus_size
    → let blob = front ++ (m ++ (r ++ tail)) in
      (take 8 blob ≡ front)
      × (take modulus_size (drop 8 blob) ≡ m)
      × (take modulus_size (drop 264 blob) ≡ r)
      × (drop 520 blob ≡ tail)
layout front m r tail ef em er =
    let blob = front ++ (m ++ (r ++ tail)) in
    let two : (front ++ m) ++ (r ++ tail) ≡ blob = append_assoc front m (r ++ tail) in
    let three : ((front ++ m) ++ r) ++ tail ≡ blob = append_assoc (front ++ m) r tail ∙ two in
    let fm : length (front ++ m) ≡ 264 = omega (arith, length-append front m) in
    let fmr : length ((front ++ m) ++ r) ≡ 520 = omega (arith, fm, length-append (front ++ m) r) in
    (
      take_at 8 front (m ++ (r ++ tail)) ef,
      ap (take modulus_size) (drop_at 8 front (m ++ (r ++ tail)) ef)
          ∙ take_at modulus_size m (r ++ tail) em,
      ap (λ l. take modulus_size (drop 264 l)) (sym two)
          ∙ ap (take modulus_size) (drop_at 264 (front ++ m) (r ++ tail) fm)
          ∙ take_at modulus_size r tail er,
      ap (drop 520) (sym three) ∙ drop_at 520 ((front ++ m) ++ r) tail fmr,
    )

unpack_parts :
    (a b e : ℕ) (m r : List ℕ)
    → a < 2 ^ 32
    → b < 2 ^ 32
    → e < 2 ^ 32
    → length m ≡ modulus_size
    → length r ≡ modulus_size
    → unpack_struct ((word a ++ word b) ++ (m ++ (r ++ word e)))
      ≡ ok (record { size_words = a; n0inv = b; modulus = m; rr = r; exponent = e })
unfolding unpack_struct
unpack_parts a b e m r ha hb he em er =
    let eight : length (word a ++ word b) ≡ 8 =
      omega (arith, length-append (word a) (word b), length-word a, length-word b) in
    let (front, modulus, rr, tail) = layout (word a ++ word b) m r (word e) eight em er in
    rw (front, tail, modulus, rr, read_two a b ha hb, read_one e he)

module _ (modinv : ℕ → ℕ → ℕ) (key : PublicNumbers) (is_key : IsKey modinv key) where
  abbrev rr_of : ℕ
  rr_of = (2 ^ 2048) ^ 2 % key.n

  abbrev n0inv_of : ℕ
  n0inv_of = 2 ^ 32 - modinv (key.n % 2 ^ 32) (2 ^ 32)

  abbrev bytes_of : ℕ → List ℕ
  bytes_of n = little_endian modulus_size n

  abbrev blob_of : List ℕ
  blob_of = (word 64 ++ word n0inv_of) ++ (bytes_of key.n ++ (bytes_of rr_of ++ word key.e))

  rr_fits : rr_of < 256 ^ modulus_size
  rr_fits = below ((2 ^ 2048) ^ 2) key.n (256 ^ modulus_size) is_key.positive is_key.fits

  encoded : encode_numbers modinv key ≡ ok blob_of
  unfolding encode_numbers
  encoded = rw (
    rr_ok key.n is_key.positive,
    to_bytes_ok modulus_size key.n is_key.fits,
    to_bytes_ok modulus_size rr_of rr_fits,
    front_ok (modinv (key.n % 2 ^ 32) (2 ^ 32)) (key.n % 2 ^ 32) is_key.inverse_fits is_key.inverse,
    word_ok key.e is_key.exponent_fits,
  )

  n0inv_fits : n0inv_of < 2 ^ 32
  n0inv_fits = negated_fits (modinv (key.n % 2 ^ 32) (2 ^ 32)) (key.n % 2 ^ 32) is_key.inverse

  abbrev fields_in : RsaPublicKey
  fields_in = record {
    size_words = 64;
    n0inv = n0inv_of;
    modulus = bytes_of key.n;
    rr = bytes_of rr_of;
    exponent = key.e;
  }

  unpacked : unpack_struct blob_of ≡ ok fields_in
  unpacked =
      unpack_parts 64 n0inv_of key.e (bytes_of key.n) (bytes_of rr_of) (omega arith) n0inv_fits
        is_key.exponent_fits (length-little_endian modulus_size key.n)
        (length-little_endian modulus_size rr_of)

  holds : Holds key fields_in
  holds = record {
    words = refl;
    negated_inverse =
        negated key.n (modinv (key.n % 2 ^ 32) (2 ^ 32)) n0inv_of
          (omega (arith, is_key.inverse_fits)) is_key.inverse;
    modulus_bytes = (
      length-little_endian modulus_size key.n,
      value-little_endian modulus_size key.n is_key.fits,
    );
    rr_bytes =
        (length-little_endian modulus_size rr_of, value-little_endian modulus_size rr_of rr_fits);
    exponent_is = refl;
  }

All-append : (xs ys : List ℕ) → All IsByte xs → All IsByte ys → All IsByte (xs ++ ys)
All-append [] ys hx hy = hy
All-append (x ∷ xs) ys (h, hx) hy = (h, All-append xs ys hx hy)

word_bytes : (n : ℕ) → All IsByte (word n)
unfolding word
word_bytes n = (omega arith, (omega arith, (omega arith, (omega arith, tt))))

length_parts :
    (a b e : ℕ) (m r : List ℕ)
    → length m ≡ modulus_size
    → length r ≡ modulus_size
    → length ((word a ++ word b) ++ (m ++ (r ++ word e))) ≡ struct_size
length_parts a b e m r em er = omega (
  arith,
  length-append (word a ++ word b) (m ++ (r ++ word e)),
  length-append (word a) (word b),
  length-append m (r ++ word e),
  length-append r (word e),
  length-word a,
  length-word b,
  length-word e,
)

-- For an RSA key whose modulus is not zero and has at most 2048 bits, whose exponent is below 2 ^ 32,
-- and where `_modinv` inverts the low word of the modulus modulo 2 ^ 32: `encode_pubkey` gives 524 bytes,
-- and they are unpacked to the fields of the key: the modulus and 2 ^ 4096 modulo it in 256 bytes each,
-- the low byte first, the exponent, and a word that times the modulus is -1 modulo 2 ^ 32.
pub unpack_struct-encode_numbers :
    (modinv : ℕ → ℕ → ℕ) (key : PublicNumbers)
    → IsKey modinv key
    → (blob : List ℕ) × (fields : RsaPublicKey) × (encode_numbers modinv key ≡ ok blob)
      × (length blob ≡ struct_size)
      × All IsByte blob
      × (unpack_struct blob ≡ ok fields)
      × Holds key fields
unpack_struct-encode_numbers modinv key is_key =
    let m = bytes_of modinv key is_key key.n in
    let r = bytes_of modinv key is_key (rr_of modinv key is_key) in
    (
      blob_of modinv key is_key,
      fields_in modinv key is_key,
      encoded modinv key is_key,
      length_parts 64 (n0inv_of modinv key is_key) key.e m r
          (length-little_endian modulus_size key.n)
          (length-little_endian modulus_size (rr_of modinv key is_key)),
      All-append _ _ (All-append _ _ (word_bytes 64) (word_bytes (n0inv_of modinv key is_key))) (
          All-append _ _ (little_endian_bytes modulus_size key.n) (
            All-append _ _ (little_endian_bytes modulus_size (rr_of modinv key is_key))
              (word_bytes key.e))),
      unpacked modinv key is_key,
      holds modinv key is_key,
    )
