-- ===== src/Message/Struct.antt =====
-- `struct.pack` and `struct.unpack` at the formats `<nI`: n unsigned 32-bit integers, low byte first.
use adb_shell.Common.{
  ℕ, zero, suc, ◌+◌, ◌*◌, ◌/◌, ◌%◌, ◌^◌, ◌<◌, ◌≡◌, refl, List, [], ◌∷◌, ◌++◌, Option, none, some,
  length, All, ltb, if◌then◌else◌, arith, map,
}
use adb_shell.Errors.{Result, ok, err, struct_error}

infixl 5 ◌>>=◌
abbrev pub ◌>>=◌ {ℓ κ} : {A : Type ℓ} {B : Type κ} → Result A → (A → Result B) → Result B
ok a >>= f = f a
err e >>= f = err e

-- One `I` field.
unfoldable pub word : ℕ → List ℕ
word n = n % 256 ∷ n / 2 ^ 8 % 256 ∷ n / 2 ^ 16 % 256 ∷ n / 2 ^ 24 % 256 ∷ []

-- Integers out of range, and `None`, are a `struct.error`.
unfoldable pub pack_fields : List (Option ℕ) → Result (List ℕ)
pack_fields [] = ok []
pack_fields (none ∷ ns) = err struct_error
pack_fields (some n ∷ ns) =
    let rest = pack_fields ns in
    if ltb n (2 ^ 32) then (rest >>= λ bytes. ok (word n ++ bytes)) else err struct_error

unfoldable pub pack_words : List ℕ → Result (List ℕ)
unfolding pack_fields
pack_words ns = pack_fields (map some ns)

-- `struct.unpack('<nI', bytes)`: the length must be exactly 4 * n.
unfoldable pub unpack_words : ℕ → List ℕ → Result (List ℕ)
unpack_words zero [] = ok []
unpack_words zero (b ∷ bs) = err struct_error
unpack_words (suc n) (b0 ∷ b1 ∷ b2 ∷ b3 ∷ bs) =
    unpack_words n bs >>= λ ns. ok ((b0 + b1 * 2 ^ 8 + b2 * 2 ^ 16 + b3 * 2 ^ 24) ∷ ns)
unpack_words (suc n) _ = err struct_error

abbrev pub IsByte : ℕ → Type 0
IsByte b = b < 256

abbrev pub IsU32 : ℕ → Type 0
IsU32 n = n < 2 ^ 32

-- The bytes of the words, with no range check.
unfoldable pub words : List ℕ → List ℕ
unfolding word
words [] = []
words (n ∷ ns) = word n ++ words ns

pub pack_words-words : (ns : List ℕ) → All IsU32 ns → pack_words ns ≡ ok (words ns)
unfolding pack_words words
pack_words-words [] h = refl
pack_words-words (n ∷ ns) (hn, hns) = ground (arith, pack_words-words ns hns)

word_value :
    (n : ℕ)
    → n < 2 ^ 32
    → n % 256 + n / 2 ^ 8 % 256 * 2 ^ 8 + n / 2 ^ 16 % 256 * 2 ^ 16 + n / 2 ^ 24 % 256 * 2 ^ 24 ≡ n
word_value n h = omega arith

pub unpack_words-words : (ns : List ℕ) → All IsU32 ns → unpack_words (length ns) (words ns) ≡ ok ns
unfolding unpack_words words
unpack_words-words [] h = refl
unpack_words-words (n ∷ ns) (hn, hns) = rw (unpack_words-words ns hns, word_value n hn)

pub length-words : (ns : List ℕ) → length (words ns) ≡ 4 * length ns
unfolding words
length-words [] = omega arith
length-words (n ∷ ns) = omega (arith, length-words ns)
