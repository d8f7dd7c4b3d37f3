-- ===== src/Device/Streams/LocalId.antt =====
-- The local ids that `_open` (adb_device.py) hands out.
use adb_shell.Common.{ℕ, zero, suc, ◌+◌, ◌-◌, ◌%◌, ◌^◌, ◌≤◌, ◌<◌, ◌≡◌, ◌≢◌, arith}
use adb_shell.Device.Streams.{next_local_id}

-- The id that the `k`-th call of `_open` takes, from an id `n`.
abbrev pub id_after : ℕ → ℕ → ℕ
id_after zero n = n
id_after (suc k) n = id_after k (next_local_id n)

pub next_local_id_range : (n : ℕ) → n < 2 ^ 32 → (1 ≤ next_local_id n) × (next_local_id n < 2 ^ 32)
unfolding next_local_id
next_local_id_range n h = ground arith

-- From an id in range, the ids go round 1 ... 2 ^ 32 - 1.
id_after_lem : (k n : ℕ) → 1 ≤ n → n < 2 ^ 32 → id_after k n ≡ (n - 1 + k) % (2 ^ 32 - 1) + 1
unfolding next_local_id
id_after_lem zero n lo hi = omega arith
id_after_lem (suc k) n lo hi =
    ground (arith, id_after_lem k (next_local_id n), next_local_id_range n)

-- From an id below 2 ^ 32, the ids that follow are in [1, 2 ^ 32), and two of them that are fewer than
-- 2 ^ 32 - 1 calls apart are different.
pub local_ids_distinct :
    (n j k : ℕ)
    → n < 2 ^ 32
    → j < k
    → k < j + (2 ^ 32 - 1)
    → (1 ≤ id_after (suc j) n)
      × (id_after (suc j) n < 2 ^ 32)
      × (id_after (suc j) n ≢ id_after (suc k) n)
local_ids_distinct n j k h lt near =
    let (lo, hi) = next_local_id_range n h in
    omega (arith, id_after_lem j (next_local_id n) lo hi, id_after_lem k (next_local_id n) lo hi)
