-- ===== src/Message.antt =====
-- adb_message.py, with `struct.pack` and `struct.unpack` for the formats of `<I` fields.
pub mod Struct
pub mod RoundTrip
use adb_shell.Common.{
  ℕ, zero, suc, ◌+◌, ◌*◌, ◌/◌, ◌%◌, ◌^◌, List, [], ◌∷◌, ◌++◌, Option, none, some, length, ltb,
  if◌then◌else◌,
}
use adb_shell.Errors.{Result, ok, err, value_error, struct_error}
use adb_shell.Constants.{Command, id_to_wire}
use Struct.{pack_words, unpack_words, ◌>>=◌, pack_fields}
use Prim.Native.Nat.{bit_xor, bit_and}

abbrev sum : List ℕ → ℕ
sum [] = 0
sum (b ∷ bs) = b + sum bs

-- sum(data) & 0xFFFFFFFF, the mask written as a remainder
unfoldable pub checksum : List ℕ → ℕ
checksum payload = sum payload % 2 ^ 32

-- chr(b).encode('utf-8') for a code point below 256
abbrev utf8_byte : ℕ → List ℕ
utf8_byte b = if ltb b 128 then b ∷ [] else (192 + b / 64) ∷ (128 + b % 64) ∷ []

unfoldable pub int_to_cmd : ℕ → List ℕ
int_to_cmd n =
    utf8_byte (n % 256)
    ++ (utf8_byte (n / 2 ^ 8 % 256)
        ++ (utf8_byte (n / 2 ^ 16 % 256) ++ utf8_byte (n / 2 ^ 24 % 256)))

-- `AdbMessage`; an id that is `None` cannot be packed. `command` and `magic` are the integers that
-- the constructor computes.
pub record AdbMessage : Type 0 where
  pub command : ℕ
  pub magic : ℕ
  pub arg0 : Option ℕ
  pub arg1 : Option ℕ
  pub payload : List ℕ

-- AdbMessage.__init__
unfoldable pub new_message : Command → Option ℕ → Option ℕ → List ℕ → AdbMessage
new_message command arg0 arg1 payload = record {
  command = id_to_wire command;
  magic = bit_xor (id_to_wire command) 0xFFFFFFFF;
  arg0 = arg0;
  arg1 = arg1;
  payload = payload;
}

-- AdbMessage.pack
unfoldable pub pack : AdbMessage → Result (List ℕ)
pack m = pack_fields (
    some m.command
    ∷ m.arg0
    ∷ m.arg1
    ∷ some (length m.payload)
    ∷ some (checksum m.payload)
    ∷ some m.magic
    ∷ [])

-- What `unpack` returns: the header's fields without the magic number, which nothing checks.
pub record Header : Type 0 where
  pub cmd : ℕ
  pub arg0 : ℕ
  pub arg1 : ℕ
  pub data_length : ℕ
  pub data_checksum : ℕ

abbrev pub header_of : List ℕ → Result Header
header_of (cmd ∷ arg0 ∷ arg1 ∷ data_length ∷ data_checksum ∷ _ ∷ []) = ok (record {
  cmd = cmd;
  arg0 = arg0;
  arg1 = arg1;
  data_length = data_length;
  data_checksum = data_checksum;
})
header_of _ = err value_error

-- A header of another length than 24 bytes is a `struct.error`, which is raised as a `ValueError`.
abbrev or_value_error : Result (List ℕ) → Result (List ℕ)
or_value_error (ok words) = ok words
or_value_error (err _) = err value_error

unfoldable pub unpack : List ℕ → Result Header
unpack message = or_value_error (unpack_words 6 message) >>= header_of
