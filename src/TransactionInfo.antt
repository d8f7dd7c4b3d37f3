-- ===== src/TransactionInfo.antt =====
-- _AdbTransactionInfo of hidden_helpers.py. A time limit is a number of microseconds.
use adb_shell.Common.{
  ℕ, ◌≤◌, ◌≡◌, ◌⊎◌, Bool, true, false, ◌&&◌, ◌||◌, not, Option, none, some, ltb, ◌==◌,
  if◌then◌else◌, arith,
}

pub record AdbInfo : Type 0 where
  pub local_id : Option ℕ
  pub remote_id : Option ℕ
  pub timeout_s : Option ℕ
  pub read_timeout_s : ℕ
  pub transport_timeout_s : Option ℕ

-- Python's min(a, b)
abbrev pub py_min : ℕ → ℕ → ℕ
py_min a b = if ltb b a then b else a

-- x if limit is None else min(x, limit)
abbrev pub capped : ℕ → Option ℕ → ℕ
capped x none = x
capped x (some limit) = py_min x limit

abbrev pub at_most : Option ℕ → ℕ → ℕ
at_most none limit = limit
at_most (some x) limit = py_min x limit

-- __init__(local_id, remote_id, transport_timeout_s, read_timeout_s, timeout_s)
unfoldable pub new_info : Option ℕ → Option ℕ → Option ℕ → ℕ → Option ℕ → AdbInfo
new_info local_id remote_id transport_timeout_s read_timeout_s timeout_s =
    let limit = capped read_timeout_s timeout_s in
    record {
      local_id = local_id;
      remote_id = remote_id;
      timeout_s = timeout_s;
      read_timeout_s = limit;
      transport_timeout_s = some (at_most transport_timeout_s limit);
    }

-- n == id, where id may be None
abbrev pub is_id : ℕ → Option ℕ → Bool
is_id n none = false
is_id n (some i) = n == i

-- id is None or n == id
abbrev pub none_or_id : ℕ → Option ℕ → Bool
none_or_id n none = true
none_or_id n (some i) = n == i

unfoldable pub args_match : AdbInfo → ℕ → ℕ → Bool → Bool
args_match info arg0 arg1 allow_zeros =
    if not allow_zeros
    then is_id arg1 info.local_id && none_or_id arg0 info.remote_id
    else (arg1 == 0 || is_id arg1 info.local_id) && (none_or_id arg0 info.remote_id || arg0 == 0)

-- Every limit of a new transaction keeps to the next: the transport's to the limit on a read, and
-- that to the limit on the whole command, where there is one.
pub new_info_limits :
    (l r t : Option ℕ) (read : ℕ) (total : Option ℕ) (limit transport : ℕ)
    → (new_info l r t read total).transport_timeout_s ≡ some transport
    → (total ≡ none ⊎ (total ≡ some limit))
    → (transport ≤ (new_info l r t read total).read_timeout_s)
      × ((new_info l r t read total).read_timeout_s ≤ read)
      × (total ≡ some limit → (new_info l r t read total).read_timeout_s ≤ limit)
unfolding new_info
new_info_limits l r none read none limit transport h k = ground arith
new_info_limits l r none read (some x) limit transport h k = ground arith
new_info_limits l r (some t) read none limit transport h k = ground arith
new_info_limits l r (some t) read (some x) limit transport h k = ground arith

-- A packet that matches strictly matches with zeros allowed; the other way round, such a packet has
-- a zero id or matches strictly.
pub args_match_zeros :
    (info : AdbInfo) (arg0 arg1 : ℕ)
    → (args_match info arg0 arg1 false ≡ true → args_match info arg0 arg1 true ≡ true)
      × (args_match info arg0 arg1 true ≡ true
          → args_match info arg0 arg1 false ≡ true ⊎ ((arg0 ≡ 0) ⊎ (arg1 ≡ 0)))
unfolding args_match
args_match_zeros info arg0 arg1 = (λ h. ground arith, λ h. ground arith)
