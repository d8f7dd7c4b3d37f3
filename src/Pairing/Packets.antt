-- ===== src/Pairing/Packets.antt =====
-- The wire format of pairing/connection.py and pairing/constants.py: packet headers and PeerInfo.
pub mod RoundTrip
use adb_shell.Common.{
  ℕ, zero, suc, ◌+◌, ◌-◌, ◌*◌, ◌/◌, ◌%◌, ◌^◌, List, [], ◌∷◌, ◌++◌, Bool, true, false, ◌||◌, not,
  length, replicate, ltb, ◌==◌, if◌then◌else◌,
}
use adb_shell.Errors.{Result, ok, err, value_error, struct_error, pairing_failed}

abbrev pub header_version : ℕ
header_version = 1

abbrev pub header_size : ℕ
header_size = 6

abbrev pub type_spake2_msg : ℕ
type_spake2_msg = 0

abbrev pub type_peer_info : ℕ
type_peer_info = 1

abbrev pub peer_info_size : ℕ
peer_info_size = 8192

abbrev pub peer_info_data_size : ℕ
peer_info_data_size = peer_info_size - 1

abbrev pub rsa_pub_key : ℕ
rsa_pub_key = 0

abbrev pub max_payload_size : ℕ
max_payload_size = peer_info_size * 2

-- `I` in a format that begins with `>`: the high byte first.
unfoldable pub big_endian : ℕ → List ℕ
big_endian n = n / 2 ^ 24 % 256 ∷ n / 2 ^ 16 % 256 ∷ n / 2 ^ 8 % 256 ∷ n % 256 ∷ []

-- struct.pack('>BBI', 1, packet_type, payload_size)
unfoldable pub pack_header : ℕ → ℕ → Result (List ℕ)
pack_header packet_type payload_size =
    if ltb packet_type 256
    then (if ltb payload_size (2 ^ 32)
        then ok (header_version ∷ packet_type ∷ big_endian payload_size)
        else err struct_error)
    else err struct_error

-- A header of six bytes.
abbrev pub checked_header : ℕ → ℕ → ℕ → Result (ℕ × ℕ)
checked_header version packet_type payload_size =
    if not (version == header_version)
    then err pairing_failed
    else if payload_size == 0 || ltb max_payload_size payload_size
    then err pairing_failed
    else ok (packet_type, payload_size)

unfoldable pub unpack_header : List ℕ → Result (ℕ × ℕ)
unpack_header (version ∷ packet_type ∷ b3 ∷ b2 ∷ b1 ∷ b0 ∷ []) =
    checked_header version packet_type (b3 * 2 ^ 24 + (b2 * 2 ^ 16 + (b1 * 2 ^ 8 + b0)))
unpack_header _ = err pairing_failed

-- PeerInfo; `payload` is its `data`.
pub record PeerInfo : Type 0 where
  pub peer_type : ℕ
  pub payload : List ℕ

-- PeerInfo.__init__
unfoldable pub new_peer_info : ℕ → List ℕ → Result PeerInfo
new_peer_info peer_type payload =
    if ltb peer_info_data_size (length payload)
    then err value_error
    else ok (record { peer_type = peer_type; payload = payload })

-- PeerInfo.pack
unfoldable pub pack_peer_info : PeerInfo → Result (List ℕ)
pack_peer_info p =
    if ltb p.peer_type 256
    then ok (p.peer_type ∷ p.payload ++ replicate (peer_info_data_size - length p.payload) 0)
    else err struct_error

-- xs.rstrip(b"\x00")
abbrev pub strip_after : ℕ → List ℕ → List ℕ
strip_after x [] = if x == 0 then [] else x ∷ []
strip_after x (y ∷ ys) = x ∷ y ∷ ys

unfoldable pub rstrip : List ℕ → List ℕ
rstrip [] = []
rstrip (x ∷ xs) = strip_after x (rstrip xs)

abbrev pub parse_blob : List ℕ → Result PeerInfo
parse_blob [] = err value_error
parse_blob (peer_type ∷ rest) = new_peer_info peer_type (rstrip rest)

-- PeerInfo.unpack; a blob of the right size has a first byte.
unfoldable pub unpack_peer_info : List ℕ → Result PeerInfo
unpack_peer_info blob = if length blob == peer_info_size then parse_blob blob else err value_error

-- make_peer_info_from_pubkey
unfoldable pub make_peer_info_from_pubkey : List ℕ → Result PeerInfo
make_peer_info_from_pubkey pubkey_bytes = new_peer_info rsa_pub_key pubkey_bytes
