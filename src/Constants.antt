-- ===== src/Constants.antt =====
-- constants.py. Times are in microseconds, so a second is 1,000,000.
pub mod Wire
use adb_shell.Common.{
  ℕ, zero, ◌+◌, ◌*◌, ◌^◌, ◌/◌, List, [], ◌∷◌, Bool, ◌==◌, Option, none, some, if◌then◌else◌,
}

abbrev pub second : ℕ
second = 1_000_000

abbrev pub version : ℕ
version = 0x01000000

abbrev pub max_adb_data : ℕ
max_adb_data = 1024 * 1024

abbrev pub max_push_data : ℕ
max_push_data = 2 * 1024

abbrev pub max_chunk_size : ℕ
max_chunk_size = 64 * 1024

-- stat.S_IFREG | stat.S_IRWXU | stat.S_IRWXG
abbrev pub default_push_mode : ℕ
default_push_mode = 0o100770

abbrev pub auth_token : ℕ
auth_token = 1

abbrev pub auth_signature : ℕ
auth_signature = 2

abbrev pub auth_rsapublickey : ℕ
auth_rsapublickey = 3

abbrev pub stls_version : ℕ
stls_version = 0x01000000

-- struct.calcsize of `<6I`, `<5I`, `<2I`, `<4I`
abbrev pub message_size : ℕ
message_size = 24

abbrev pub default_auth_timeout_s : ℕ
default_auth_timeout_s = 10 * second

abbrev pub default_read_timeout_s : ℕ
default_read_timeout_s = 10 * second

-- The members of `IDS`.
pub data Command : Type 0 where
  auth clse cnxn okay open_stream stls sync wrte : Command

-- The bytes of each constant, such as b'AUTH'.
abbrev pub id_bytes : Command → List ℕ
id_bytes auth = b'A' ∷ b'U' ∷ b'T' ∷ b'H' ∷ []
id_bytes clse = b'C' ∷ b'L' ∷ b'S' ∷ b'E' ∷ []
id_bytes cnxn = b'C' ∷ b'N' ∷ b'X' ∷ b'N' ∷ []
id_bytes okay = b'O' ∷ b'K' ∷ b'A' ∷ b'Y' ∷ []
id_bytes open_stream = b'O' ∷ b'P' ∷ b'E' ∷ b'N' ∷ []
id_bytes stls = b'S' ∷ b'T' ∷ b'L' ∷ b'S' ∷ []
id_bytes sync = b'S' ∷ b'Y' ∷ b'N' ∷ b'C' ∷ []
id_bytes wrte = b'W' ∷ b'R' ∷ b'T' ∷ b'E' ∷ []

abbrev pub ids : List Command
ids = auth ∷ clse ∷ cnxn ∷ okay ∷ open_stream ∷ stls ∷ sync ∷ wrte ∷ []

-- sum(c << (i * 8) for i, c in enumerate(id))
abbrev pub wire_sum : ℕ → List ℕ → ℕ
wire_sum i [] = 0
wire_sum i (c ∷ cs) = c * 2 ^ (i * 8) + wire_sum (i + 1) cs

unfoldable pub id_to_wire : Command → ℕ
id_to_wire c = wire_sum 0 (id_bytes c)

abbrev pub find_wire : ℕ → List Command → Option Command
find_wire n [] = none
find_wire n (c ∷ cs) = if wire_sum 0 (id_bytes c) == n then some c else find_wire n cs

-- WIRE_TO_ID.get(n)
unfoldable pub wire_to_id : ℕ → Option Command
wire_to_id n = find_wire n ids

-- The members of `FILESYNC_IDS`.
pub data FileSyncId : Type 0 where
  data_chunk dent done fail list okay quit recv send stat : FileSyncId

abbrev pub filesync_bytes : FileSyncId → List ℕ
filesync_bytes data_chunk = b'D' ∷ b'A' ∷ b'T' ∷ b'A' ∷ []
filesync_bytes dent = b'D' ∷ b'E' ∷ b'N' ∷ b'T' ∷ []
filesync_bytes done = b'D' ∷ b'O' ∷ b'N' ∷ b'E' ∷ []
filesync_bytes fail = b'F' ∷ b'A' ∷ b'I' ∷ b'L' ∷ []
filesync_bytes list = b'L' ∷ b'I' ∷ b'S' ∷ b'T' ∷ []
filesync_bytes FileSyncId.okay = b'O' ∷ b'K' ∷ b'A' ∷ b'Y' ∷ []
filesync_bytes quit = b'Q' ∷ b'U' ∷ b'I' ∷ b'T' ∷ []
filesync_bytes recv = b'R' ∷ b'E' ∷ b'C' ∷ b'V' ∷ []
filesync_bytes send = b'S' ∷ b'E' ∷ b'N' ∷ b'D' ∷ []
filesync_bytes stat = b'S' ∷ b'T' ∷ b'A' ∷ b'T' ∷ []

abbrev pub filesync_ids : List FileSyncId
filesync_ids =
    data_chunk ∷ dent ∷ done ∷ fail ∷ list ∷ FileSyncId.okay ∷ quit ∷ recv ∷ send ∷ stat ∷ []

unfoldable pub filesync_id_to_wire : FileSyncId → ℕ
filesync_id_to_wire c = wire_sum 0 (filesync_bytes c)

abbrev pub find_filesync : ℕ → List FileSyncId → Option FileSyncId
find_filesync n [] = none
find_filesync n (c ∷ cs) = if wire_sum 0 (filesync_bytes c) == n then some c else find_filesync n cs

-- FILESYNC_WIRE_TO_ID[n]; `none` is the KeyError.
unfoldable pub filesync_wire_to_id : ℕ → Option FileSyncId
filesync_wire_to_id n = find_filesync n filesync_ids

-- `a == b` on commands, which compares their bytes; no two commands share their bytes.
unfoldable pub same_command : Command → Command → Bool
same_command a b = wire_sum 0 (id_bytes a) == wire_sum 0 (id_bytes b)

unfoldable pub same_filesync : FileSyncId → FileSyncId → Bool
same_filesync a b = wire_sum 0 (filesync_bytes a) == wire_sum 0 (filesync_bytes b)
