-- ===== src/FileSyncInfo/Buffer.antt =====
-- The send buffer of _FileSyncTransactionInfo (hidden_helpers.py) as a queue of bytes.
use adb_shell.Common.{
  ℕ, ◌+◌, ◌≤◌, ◌≡◌, ap, sym, ◌∙◌, List, ◌++◌, arith, length, take, drop, length-append, length-take,
  length-drop, length-replicate, take-append_exact,
}
use mathlib.Core.List.{append_assoc}
use adb_shell.FileSyncInfo.{FileSyncInfo, new_filesync, write_slice, add_to_send_buffer, pending}

-- The index stays inside the buffer, and the buffer is as long as it was made.
pub record IsValid (f : FileSyncInfo) : Type 0 where
  pub size : length f.send_buffer ≡ f.maxdata
  pub within : f.send_idx ≤ f.maxdata

pub new_filesync-IsValid : (recv_words maxdata : ℕ) → IsValid (new_filesync recv_words maxdata)
unfolding new_filesync
new_filesync-IsValid recv_words maxdata = record {
  size = length-replicate maxdata 0;
  within = omega arith;
}

take_prefix :
    (n : ℕ) (xs ys zs : List ℕ)
    → n ≤ length xs
    → take (n + length ys) (take n xs ++ (ys ++ zs)) ≡ take n xs ++ ys
take_prefix n xs ys zs h =
    let a = take n xs in
    let fits : n + length ys ≡ length (a ++ ys) =
      omega (arith, length-append a ys, length-take n xs) in
    ap (λ k. take k (a ++ (ys ++ zs))) fits
    ∙ ap (take (length (a ++ ys))) (sym (append_assoc a ys zs))
    ∙ take-append_exact (a ++ ys) zs

-- In a valid buffer, adding bytes puts them behind the bytes that wait there.
pub pending-add :
    (f : FileSyncInfo) (buf : List ℕ)
    → IsValid f
    → pending (add_to_send_buffer f buf) ≡ pending f ++ buf
unfolding pending add_to_send_buffer write_slice
pending-add f buf v = take_prefix f.send_idx f.send_buffer buf _ (omega arith)

-- A valid buffer stays valid when bytes are added that fit between its index and `maxdata`.
pub add-IsValid :
    (f : FileSyncInfo) (buf : List ℕ)
    → IsValid f
    → f.send_idx + length buf ≤ f.maxdata
    → IsValid (add_to_send_buffer f buf)
unfolding add_to_send_buffer write_slice
add-IsValid f buf v h = record {
  size = omega (
    arith,
    v.size,
    v.within,
    length-append (take f.send_idx f.send_buffer)
        (buf ++ drop (f.send_idx + length buf) f.send_buffer),
    length-append buf (drop (f.send_idx + length buf) f.send_buffer),
    length-take f.send_idx f.send_buffer,
    length-drop (f.send_idx + length buf) f.send_buffer,
  );
  within = h;
}
