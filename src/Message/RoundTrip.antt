-- ===== src/Message/RoundTrip.antt =====
-- `pack`, `unpack`, `checksum` and the magic number of adb_message.py.
use adb_shell.Common.{
  ℕ, ◌+◌, ◌%◌, ◌-◌, ◌^◌, ◌<◌, ◌≡◌, refl, List, [], ◌∷◌, ◌++◌, Option, none, some, length, arith,
  Bool, false, ◌&&◌, ltb, if◌then◌else◌,
}
use adb_shell.Errors.{Error, Result, ok, err, struct_error, value_error}
use adb_shell.Constants.{Command, id_to_wire, id_bytes, auth}
use adb_shell.Constants.Wire.{id_to_wire-lt}
use adb_shell.Message.{
  AdbMessage, new_message, pack, Header, unpack, checksum, int_to_cmd, sum, header_of,
  or_value_error,
}
use adb_shell.Message.Struct.{
  ◌>>=◌, unpack_words, words, pack_fields, pack_words, pack_words-words, unpack_words-words,
  length-words,
}

-- The six words of a header that is in range.
abbrev pub fields : AdbMessage → ℕ → ℕ → List ℕ
fields m arg0 arg1 = m.command ∷ arg0 ∷ arg1 ∷ length m.payload ∷ checksum m.payload ∷ m.magic ∷ []

pub checksum-lt : (payload : List ℕ) → checksum payload < 2 ^ 32
unfolding checksum
checksum-lt payload = omega arith

-- The command and the magic number of every message add up to 2 ^ 32 - 1.
pub command-add-magic :
    (c : Command) (arg0 arg1 : Option ℕ) (payload : List ℕ)
    → let m = new_message c arg0 arg1 payload in m.command + m.magic ≡ 2 ^ 32 - 1
unfolding new_message id_to_wire
command-add-magic auth arg0 arg1 payload = refl
command-add-magic _ arg0 arg1 payload = refl

magic-lt : (c : Command) → (new_message c none none []).magic < 2 ^ 32
unfolding new_message
magic-lt c = omega (arith, id_to_wire-lt c, command-add-magic c none none [])

-- Packing a message whose ids and length are in range.
pub pack-words :
    (c : Command) (a b : ℕ) (payload : List ℕ)
    → a < 2 ^ 32
    → b < 2 ^ 32
    → length payload < 2 ^ 32
    → let m = new_message c (some a) (some b) payload in pack m ≡ ok (words (fields m a b))
unfolding pack new_message pack_words
pack-words c a b payload ha hb hl =
    pack_words-words (fields (new_message c (some a) (some b) payload) a b)
      (unfold new_message in omega (arith, id_to_wire-lt c, checksum-lt payload, magic-lt c))

abbrev pub fits : Option ℕ → Bool
fits none = false
fits (some n) = ltb n (2 ^ 32)

abbrev pub arg_value : Option ℕ → ℕ
arg_value none = 0
arg_value (some n) = n

sum-append : (xs ys : List ℕ) → sum (xs ++ ys) ≡ sum xs + sum ys
sum-append [] ys = omega arith
sum-append (x ∷ xs) ys = omega (arith, sum-append xs ys)

-- What a receiver learns from a header.
abbrev pub header : Command → ℕ → ℕ → List ℕ → Header
header c a b payload = record {
  cmd = id_to_wire c;
  arg0 = a;
  arg1 = b;
  data_length = length payload;
  data_checksum = checksum payload;
}

unpack-words :
    (c : Command) (a b : ℕ) (payload : List ℕ)
    → a < 2 ^ 32
    → b < 2 ^ 32
    → length payload < 2 ^ 32
    → let m = new_message c (some a) (some b) payload in
      unpack (words (fields m a b)) ≡ ok (header c a b payload)
unfolding unpack new_message
unpack-words c a b payload ha hb hl = rw (
    unpack_words-words (fields (new_message c (some a) (some b) payload) a b)
      (omega (arith, id_to_wire-lt c, checksum-lt payload, magic-lt c)))

-- The header that `pack` writes for a message whose ids and length fit 32 bits is 24 bytes long, and
-- `unpack` reads back its command, its two ids, and the length and checksum of its data.
pub unpack-pack :
    (c : Command) (a b : ℕ) (payload : List ℕ)
    → a < 2 ^ 32
    → b < 2 ^ 32
    → length payload < 2 ^ 32
    → (packed : List ℕ) × (pack (new_message c (some a) (some b) payload) ≡ ok packed)
      × (length packed ≡ 24)
      × (unpack packed ≡ ok (header c a b payload))
unpack-pack c a b payload ha hb hl = (words ns, packs, length-words ns, reads)
  where
    ns : List ℕ
    ns = fields (new_message c (some a) (some b) payload) a b

    packs : pack (new_message c (some a) (some b) payload) ≡ ok (words ns)
    packs = pack-words c a b payload ha hb hl

    reads : unpack (words ns) ≡ ok (header c a b payload)
    reads = unpack-words c a b payload ha hb hl

-- `pack` raises a `struct.error` when an id is `None`, or when an id or the length of the data does
-- not fit 32 bits; otherwise it writes the six words.
pub pack_cases :
    (c : Command) (arg0 arg1 : Option ℕ) (payload : List ℕ)
    → let m = new_message c arg0 arg1 payload in
      pack m ≡ (
        if fits arg0 && fits arg1 && ltb (length payload) (2 ^ 32)
        then ok (words (fields m (arg_value arg0) (arg_value arg1)))
        else err struct_error)
unfolding pack pack_fields new_message words
pack_cases c none arg1 payload = ground (arith, id_to_wire-lt c)
pack_cases c (some a) none payload = ground (arith, id_to_wire-lt c)
pack_cases c (some a) (some b) payload =
    ground (arith, id_to_wire-lt c, checksum-lt payload, magic-lt c)

-- Adding up the bytes of two pieces of data adds their checksums, modulo 2 ^ 32.
pub checksum-append : (xs ys : List ℕ) → checksum (xs ++ ys) ≡ (checksum xs + checksum ys) % 2 ^ 32
unfolding checksum
checksum-append xs ys = omega (arith, sum-append xs ys)

-- `int_to_cmd` turns the integer of each command back into the command's bytes.
pub int_to_cmd-id_to_wire : (c : Command) → int_to_cmd (id_to_wire c) ≡ id_bytes c
unfolding int_to_cmd id_to_wire
int_to_cmd-id_to_wire auth = refl
int_to_cmd-id_to_wire _ = refl

header_of_error : (ws : List ℕ) (x : Error) → header_of ws ≡ err x → x ≡ value_error
header_of_error [] x e = cc
header_of_error (a ∷ []) x e = cc
header_of_error (a ∷ b ∷ []) x e = cc
header_of_error (a ∷ b ∷ c ∷ []) x e = cc
header_of_error (a ∷ b ∷ c ∷ d ∷ []) x e = cc
header_of_error (a ∷ b ∷ c ∷ d ∷ f ∷ []) x e = cc
header_of_error (a ∷ b ∷ c ∷ d ∷ f ∷ g ∷ []) x e = absurd cc
header_of_error (a ∷ b ∷ c ∷ d ∷ f ∷ g ∷ h ∷ ws) x e = cc

unpack_words_error :
    (r : Result (List ℕ)) (x : Error) → (or_value_error r >>= header_of) ≡ err x → x ≡ value_error
unpack_words_error (ok ws) x e = header_of_error ws x e
unpack_words_error (err y) x e = cc

-- The only exception that `unpack` raises is a `ValueError`.
pub unpack_error : (message : List ℕ) (x : Error) → unpack message ≡ err x → x ≡ value_error
unfolding unpack
unpack_error message x e = unpack_words_error (unpack_words 6 message) x e
