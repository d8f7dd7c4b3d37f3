-- ===== src/FileSyncInfo.antt =====
-- _FileSyncTransactionInfo of hidden_helpers.py. The format of a received header is given by its
-- number of words: 5 for LIST, 2 for PULL and PUSH, 4 for STAT.
pub mod Buffer
use adb_shell.Common.{ℕ, ◌+◌, ◌*◌, List, [], ◌++◌, Bool, length, take, drop, replicate, ltb}

pub record FileSyncInfo : Type 0 where
  pub send_buffer : List ℕ
  pub send_idx : ℕ
  pub recv_buffer : List ℕ
  pub recv_words : ℕ
  pub maxdata : ℕ

-- self.recv_message_size
abbrev pub recv_message_size : FileSyncInfo → ℕ
recv_message_size f = 4 * f.recv_words

-- __init__
unfoldable pub new_filesync : ℕ → ℕ → FileSyncInfo
new_filesync recv_words maxdata = record {
  send_buffer = replicate maxdata 0;
  send_idx = 0;
  recv_buffer = [];
  recv_words = recv_words;
  maxdata = maxdata;
}

unfoldable pub can_add_to_send_buffer : FileSyncInfo → ℕ → Bool
can_add_to_send_buffer f data_len = ltb (f.send_idx + (recv_message_size f + data_len)) f.maxdata

-- buffer[at:at + len(buf)] = buf; past the end of the buffer the bytearray grows.
unfoldable pub write_slice : List ℕ → ℕ → List ℕ → List ℕ
write_slice buffer at buf = take at buffer ++ (buf ++ drop (at + length buf) buffer)

-- What `_filesync_send` does to the buffer.
unfoldable pub add_to_send_buffer : FileSyncInfo → List ℕ → FileSyncInfo
add_to_send_buffer f buf = record f {
  send_buffer = write_slice f.send_buffer f.send_idx buf;
  send_idx = f.send_idx + length buf;
}

-- send_buffer[:send_idx]
unfoldable pub pending : FileSyncInfo → List ℕ
pending f = take f.send_idx f.send_buffer
