-- ===== src/Transport/Stream.antt =====
-- Two things that can be known of a transport: that it delivers a stream of bytes, and that it writes
-- what it is given.
use adb_shell.Common.{ℕ, ◌+◌, ◌≤◌, ◌<◌, ◌≡◌, List, ◌++◌, Option, length}
use adb_shell.Errors.{ok}
use adb_shell.Transport.{Transport}

-- `incoming` is what the device has sent and the host has not read: `bulk_read` returns a piece of its
-- front, of one byte at least and no more than was asked for. The clock reads between `start` and
-- `start + span`.
pub record Delivers {D : Type 0} (t : Transport D) (incoming : D → List ℕ) (start span : ℕ)
    : Type 0 where
  pub read_lem :
      (n : ℕ) (timeout : Option ℕ) (d : D)
      → 0 < n
      → n ≤ length (incoming d)
      → (chunk : List ℕ) × (d' : D) × (t.bulk_read n timeout d ≡ (ok chunk, d'))
        × (0 < length chunk)
        × (length chunk ≤ n)
        × (incoming d ≡ chunk ++ incoming d')
  pub time_keeps : (d : D) → incoming (t.time d).1 ≡ incoming d
  pub from_start : (d : D) → start ≤ (t.time d).0
  pub to_end : (d : D) → (t.time d).0 ≤ start + span

-- `sent` is what the host has written: a `bulk_write` that returns has written all of its data, and
-- nothing else writes.
pub record Records {D : Type 0} (t : Transport D) (sent : D → List ℕ) : Type 0 where
  pub write_lem :
      (bytes : List ℕ) (timeout : Option ℕ) (d : D) (n : ℕ)
      → (t.bulk_write bytes timeout d).0 ≡ ok n
      → sent (t.bulk_write bytes timeout d).1 ≡ sent d ++ bytes
  pub read_keeps : (n : ℕ) (timeout : Option ℕ) (d : D) → sent (t.bulk_read n timeout d).1 ≡ sent d
  pub time_keeps : (d : D) → sent (t.time d).1 ≡ sent d

-- Both at once, with no write refused: writing takes nothing off what the device has sent.
pub record Duplex {D : Type 0} (t : Transport D) (incoming sent : D → List ℕ) (start span : ℕ)
    : Type 0 where
  pub delivers : Delivers t incoming start span
  pub records : Records t sent
  pub write_returns :
      (bytes : List ℕ) (timeout : Option ℕ) (d : D)
      → (n : ℕ) × ((t.bulk_write bytes timeout d).0 ≡ ok n)
  pub write_keeps :
      (bytes : List ℕ) (timeout : Option ℕ) (d : D)
      → incoming (t.bulk_write bytes timeout d).1 ≡ incoming d

-- Each reading of the clock is later than the one before, and reading bytes does not set it back.
pub record Ticks {D : Type 0} (t : Transport D) (clock : D → ℕ) : Type 0 where
  pub time_now : (d : D) → clock d ≤ (t.time d).0
  pub time_later : (d : D) → (t.time d).0 < clock (t.time d).1
  pub read_later :
      (n : ℕ) (timeout : Option ℕ) (d : D) → clock d ≤ clock (t.bulk_read n timeout d).1
