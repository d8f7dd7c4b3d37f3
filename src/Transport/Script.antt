-- ===== src/Transport/Script.antt =====
-- A transport that plays a recording: the bytes to come, in pieces of at most `suc piece` bytes, the
-- bytes written so far, and a clock that counts its readings, or always reads 0 if it is `frozen`.
use adb_shell.Common.{
  ℕ, suc, ◌+◌, ◌≤◌, ◌<◌, ◌≡◌, refl, Bool, true, false, if◌then◌else◌, sym, List, ◌++◌, Option, none,
  length, take, drop, min, arith, length-take, take-append-drop,
}
use adb_shell.Errors.{ok}
use adb_shell.Transport.{Transport}
use adb_shell.Transport.Stream.{Delivers, Records, Duplex, Ticks}
use native.Mathlib.Nat.{le_refl}

pub record Script : Type 0 where
  pub incoming : List ℕ
  pub sent : List ℕ
  pub clock : ℕ

module _ (piece : ℕ) (frozen : Bool) where
  abbrev pub scripted : Transport Script
  scripted = record {
    close = λ d. d;
    connect = λ timeout d. (ok tt, d);
    bulk_read = λ n timeout d.
        let k = min n (suc piece) in
        (ok (take k d.incoming), record d { incoming = drop k d.incoming });
    bulk_write = λ bytes timeout d. (ok (length bytes), record d { sent = d.sent ++ bytes });
    tls_upgrade = none;
    time = λ d. (if frozen then 0 else d.clock, record d { clock = d.clock + 1 });
  }

  pub scripted-Records : Records scripted (λ d. d.sent)
  scripted-Records = record {
    write_lem = λ bytes timeout d n e. refl;
    read_keeps = λ n timeout d. refl;
    time_keeps = λ d. refl;
  }

pub scripted-Ticks : (piece : ℕ) → Ticks (scripted piece false) (λ d. d.clock)
scripted-Ticks piece = record {
  time_now = λ d. le_refl d.clock;
  time_later = λ d. omega arith;
  read_later = λ n timeout d. le_refl d.clock;
}

module _ (piece : ℕ) where
  piece_read :
      (n : ℕ) (timeout : Option ℕ) (d : Script)
      → 0 < n
      → n ≤ length d.incoming
      → (chunk : List ℕ) × (d' : Script) × ((scripted piece true).bulk_read n timeout d
          ≡ (ok chunk, d'))
        × (0 < length chunk)
        × (length chunk ≤ n)
        × (d.incoming ≡ chunk ++ d'.incoming)
  piece_read n timeout d pos fits =
      let k = min n (suc piece) in
      (
        take k d.incoming,
        record d { incoming = drop k d.incoming },
        refl,
        omega (arith, length-take k d.incoming),
        omega (arith, length-take k d.incoming),
        sym (take-append-drop k d.incoming),
      )

  pub scripted-Delivers : Delivers (scripted piece true) (λ d. d.incoming) 0 0
  scripted-Delivers = record {
    read_lem = piece_read;
    time_keeps = λ d. refl;
    from_start = λ d. omega arith;
    to_end = λ d. omega arith;
  }

  pub scripted-Duplex : Duplex (scripted piece true) (λ d. d.incoming) (λ d. d.sent) 0 0
  scripted-Duplex = record {
    delivers = scripted-Delivers;
    records = scripted-Records piece true;
    write_returns = λ bytes timeout d. (length bytes, refl);
    write_keeps = λ bytes timeout d. refl;
  }
