-- ===== src/IoManager/Packets/Termination.antt =====
-- The loops of _read_bytes_from_device and _read_expected_packet_from_device (adb_device.py) over a
-- transport whose clock goes on.
use adb_shell.Common.{
  ℕ, zero, suc, ◌+◌, ◌-◌, ◌*◌, ◌≤◌, ◌<◌, ◌≡◌, ◌≢◌, refl, List, [], Bool, true, false, Option, none,
  some, arith, ltb, if◌then◌else◌,
}
use adb_shell.Errors.{err, value_error, out_of_fuel, adb_timeout, invalid_command, invalid_checksum}
use adb_shell.Exec.{Exec, raise, ◌>>=◌}
use adb_shell.Exec.Rules.{
  Keeps, Ends, Ends-pure, Ends-raise, Ends-lift, Ends-if, Ends-bind, Ends-weaken,
}
use adb_shell.Constants.{Command}
use adb_shell.Message.{Header, unpack}
use adb_shell.Message.RoundTrip.{unpack_error}
use adb_shell.TransactionInfo.{AdbInfo}
use adb_shell.Transport.{Transport}
use adb_shell.Transport.Stream.{Ticks}
use adb_shell.IoManager.Packets.{
  now, unless_late, read_rest, read_bytes, read_payload, known_command, read_packet,
  read_expected_from, read_expected,
}
use adb_shell.IoManager.Readers.{read_packet-Keeps}

not_value_error : out_of_fuel ≢ value_error
not_value_error e = cc

module _ {D : Type 0} (t : Transport D) (clock : D → ℕ) (ticks : Ticks t clock) where
  -- The clock has passed `last`.
  abbrev pub After : ℕ → D → Type 0
  After last d = last < clock d

  pub now-After : (last : ℕ) → Keeps (After last) (now t)
  now-After last = record { at = λ d h. omega (arith, ticks.time_now d, ticks.time_later d) }

  pub read-After : (last n : ℕ) (timeout : Option ℕ) → Keeps (After last) (t.bulk_read n timeout)
  read-After last n timeout = record { at = λ d h. omega (arith, ticks.read_later n timeout d) }

  unless_late-at :
      {A : Type 0} (start limit last : ℕ) (m : Exec D A) (d : D)
      → ((n : ℕ) → last < n → n ≤ start + limit → Ends (After n) m)
      → last < clock d
      → (b : Bool) → ltb limit ((t.time d).0 - start) ≡ b
      → ((if b then raise adb_timeout else m) (t.time d).1).0 ≢ err out_of_fuel
  unless_late-at start limit last m d k h true late e = cc
  unless_late-at start limit last m d k h false late e =
      (k (t.time d).0 (omega (arith, ticks.time_now d)) (ground arith)).at (t.time d).1
        (ticks.time_later d) e

  pub unless_late-Ends :
      {A : Type 0} (start limit last : ℕ) (m : Exec D A)
      → ((n : ℕ) → last < n → n ≤ start + limit → Ends (After n) m)
      → Ends (After last) (unless_late t start limit m)
  unfolding unless_late ◌>>=◌
  unless_late-Ends start limit last m k = record {
    at = λ d h. unless_late-at start limit last m d k h _ refl;
  }

  module _ (info : AdbInfo)
      (reads : (n : ℕ) (timeout : Option ℕ) (d : D)
        → (t.bulk_read n timeout d).0 ≢ err out_of_fuel) where
    read_rest-Ends :
        (fuel start last n : ℕ) (so_far : List ℕ)
        → last ≤ start + info.read_timeout_s
        → start + info.read_timeout_s < last + fuel
        → Ends (After last) (read_rest t fuel info start n so_far)
    unfolding read_rest
    read_rest-Ends fuel start last zero so_far le lt = Ends-pure so_far
    read_rest-Ends zero start last (suc n) so_far le lt = absurd (omega arith)
    read_rest-Ends (suc fuel) start last (suc n) so_far le lt =
        Ends-bind _ _ (record { at = λ d h. reads (suc n) info.transport_timeout_s d })
          (read-After last (suc n) info.transport_timeout_s)
          (λ temp. Ends-if _ _ _ (Ends-pure _) (
            unless_late-Ends start info.read_timeout_s last _
              (λ k later within. read_rest-Ends fuel start k _ _ within (omega arith))))

    module _ {P : D → Type 0} (fuel : ℕ) (enough : info.read_timeout_s < fuel) where
      pub read_bytes-Ends : (size : ℕ) → Ends P (read_bytes t fuel size info)
      unfolding read_bytes ◌>>=◌
      read_bytes-Ends size = record {
        at = λ d h.
            (read_rest-Ends fuel (t.time d).0 (t.time d).0 size [] (omega arith) (omega arith)).at
              (t.time d).1 (ticks.time_later d);
      }

    always : {A : Type 0} (m : Exec D A) → Keeps (λ d. Unit {0}) m
    always m = record { at = λ d h. tt }

    module _ (fuel : ℕ) (enough : info.read_timeout_s < fuel) where
      read_payload-Ends :
          (c : Command) (h : Header) → Ends (λ d. Unit {0}) (read_payload t fuel info c h)
      unfolding read_payload
      read_payload-Ends c h = Ends-if _ _ _ (Ends-pure _) (
          Ends-bind _ _ (read_bytes-Ends fuel enough h.data_length) (always _)
            (λ payload. Ends-if _ _ _ (Ends-pure _) (Ends-raise invalid_checksum (λ e. cc))))

      known_command-Ends :
          (h : Header) (c : Option Command) → Ends (λ d. Unit {0}) (known_command t fuel info h c)
      known_command-Ends h none = Ends-raise invalid_command (λ e. cc)
      known_command-Ends h (some c) = read_payload-Ends c h

      pub read_packet-Ends : {P : D → Type 0} → Ends P (read_packet t fuel info)
      unfolding read_packet
      read_packet-Ends =
          Ends-weaken _ (λ d p. tt)
            (Ends-bind _ _ (read_bytes-Ends fuel enough _) (always _) (λ msg.
              Ends-bind _ _
                (Ends-lift (unpack msg) (λ e. not_value_error (unpack_error msg out_of_fuel e)))
                (always _) (λ h. known_command-Ends h _)))

      pub read_packet-After : (last : ℕ) → Keeps (After last) (read_packet t fuel info)
      read_packet-After last =
          read_packet-Keeps t (After last) (now-After last) (read-After last) fuel info

    read_expected_from-Ends :
        (fuel start last : ℕ) (expected : List Command)
        → last ≤ start + info.read_timeout_s
        → start + 2 * info.read_timeout_s + 1 < last + fuel
        → Ends (After last) (read_expected_from t fuel start expected info)
    unfolding read_expected_from
    read_expected_from-Ends zero start last expected le lt = absurd (omega arith)
    read_expected_from-Ends (suc fuel) start last expected le lt =
        let enough : info.read_timeout_s < fuel = omega arith in
        Ends-bind _ _ (read_packet-Ends fuel enough) (read_packet-After fuel enough last) (λ p.
          Ends-if _ _ _ (Ends-pure p) (
            unless_late-Ends start info.read_timeout_s last _ (λ k later within.
              read_expected_from-Ends fuel start k expected within (omega arith))))

    read_expected-Ends :
        {P : D → Type 0} (fuel : ℕ) (expected : List Command)
        → 2 * info.read_timeout_s + 1 < fuel
        → Ends P (read_expected t fuel expected info)
    unfolding read_expected ◌>>=◌
    read_expected-Ends fuel expected enough = record {
      at = λ d h.
          (read_expected_from-Ends fuel (t.time d).0 (t.time d).0 expected (omega arith)
              (omega arith)).at
            (t.time d).1 (ticks.time_later d);
    }

    -- Over a transport whose clock goes on with each reading, and which itself never answers with the
    -- model's error of a loop that ran out of its rounds: with more than twice as many rounds as the limit
    -- on a read has microseconds, `_read_expected_packet_from_device` returns or raises an error of the
    -- source, whatever bytes come.
    pub read_expected_terminates :
        (fuel : ℕ) (expected : List Command) (d : D)
        → 2 * info.read_timeout_s + 1 < fuel
        → (read_expected t fuel expected info d).0 ≢ err out_of_fuel
    read_expected_terminates fuel expected d enough =
        (read_expected-Ends {P = λ d. Unit {0}} fuel expected enough).at d tt
