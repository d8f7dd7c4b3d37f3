-- ===== src/IoManager/Read/Termination.antt =====
-- `read` of _AdbIOManager (adb_device.py) over a transport whose clock goes on.
use adb_shell.Common.{
  ℕ, zero, suc, ◌+◌, ◌-◌, ◌≤◌, ◌<◌, ◌≡◌, ◌≢◌, refl, sym, ◌∙◌, List, Bool, true, false, Option, none,
  some, arith, ltb, if◌then◌else◌,
}
use adb_shell.Errors.{ok, err, out_of_fuel, adb_timeout}
use adb_shell.Exec.{Exec, raise, pure, continue, zoom, ◌>>=◌}
use adb_shell.Exec.Rules.{Keeps, Keeps-and, Ends, Ends-pure, Ends-bind}
use adb_shell.Constants.{Command}
use adb_shell.TransactionInfo.{AdbInfo}
use adb_shell.PacketStore.{Packet}
use adb_shell.PacketStore.Dicts.{IsValid}
use adb_shell.Transport.{Transport}
use adb_shell.Transport.Stream.{Ticks}
use adb_shell.IoManager.{IoManager, on_transport, on_store}
use adb_shell.IoManager.Invariant
use adb_shell.IoManager.Packets.{now, unless_late, read_packet}
use adb_shell.IoManager.Packets.Termination.{
  After, now-After, read-After, read_packet-After, read_packet-Ends,
}
use adb_shell.IoManager.Read.{
  drain, sort_packet, found_or_next, read_round, done_or, unless_late_io, read_loop, read,
}
use adb_shell.IoManager.Readers
use adb_shell.IoManager.Read.Drain.{drain_lem}

not_err : {A : Type 0} {a : A} → ok a ≢ err out_of_fuel
not_err e = cc

module _ {D : Type 0} (t : Transport D) (clock : D → ℕ) (ticks : Ticks t clock) where
  -- The store is valid, and the clock has passed `last`.
  abbrev IsLive : ℕ → IoManager D → Type 0
  IsLive last io = IsValid io.store × After t clock ticks last io.transport

  late_or :
      (start limit last : ℕ) (rest : Exec (IoManager D) Packet) (io : IoManager D)
      → ((n : ℕ) → last < n → n ≤ start + limit → Ends (IsLive n) rest)
      → IsLive last io
      → (b : Bool) → ltb limit ((t.time io.transport).0 - start) ≡ b
      → let r = (if b then raise adb_timeout else pure tt) (t.time io.transport).1 in
        (continue r.0 (λ _. rest) (record io { transport = r.1 })).0 ≢ err out_of_fuel
  late_or start limit last rest io k h true late e = cc
  late_or start limit last rest io k (v, h) false late e =
      (k (t.time io.transport).0 (omega (arith, ticks.time_now io.transport)) (ground arith)).at
        (record io { transport = (t.time io.transport).1 }) (v, ticks.time_later io.transport) e

  unless_late_io-Ends :
      (start limit last : ℕ) (rest : Exec (IoManager D) Packet)
      → ((n : ℕ) → last < n → n ≤ start + limit → Ends (IsLive n) rest)
      → Ends (IsLive last) (unless_late_io t start limit rest)
  unfolding unless_late_io unless_late zoom ◌>>=◌
  unless_late_io-Ends start limit last rest k = record {
    at = λ io h. late_or start limit last rest io k h _ refl;
  }

  module _ (expected : List Command) (info : AdbInfo) (allow_zeros : Bool) (l : ℕ)
      (own : info.local_id ≡ some l)
      (reads : (n : ℕ) (timeout : Option ℕ) (d : D) → (t.bulk_read n timeout d).0 ≢ err out_of_fuel)
      (fuel : ℕ) (enough : info.read_timeout_s < fuel) where
    drain-Ends : (last : ℕ) → Ends (IsLive last) (on_store (drain expected info allow_zeros))
    unfolding zoom
    drain-Ends last = record {
      at = λ io h e.
          let d = drain_lem expected info allow_zeros l own io.store h.0 in
          not_err (sym d.returned ∙ e);
    }

    drain-IsLive : (last : ℕ) → Keeps (IsLive last) (on_store (drain expected info allow_zeros))
    unfolding zoom
    drain-IsLive last = record {
      at = λ io h. ((drain_lem expected info allow_zeros l own io.store h.0).valid, h.1);
    }

    sort_packet-Ends :
        {P : IoManager D → Type 0} (p : Packet) → Ends P (sort_packet t expected info allow_zeros p)
    unfolding sort_packet zoom ◌>>=◌
    sort_packet-Ends p = record { at = λ io h e. ground (arith, e) }

    next-Ends : (last : ℕ) → Ends (IsLive last) (on_transport (read_packet t fuel info))
    unfolding zoom
    next-Ends last = record {
      at = λ io h.
          (read_packet-Ends t clock ticks info reads fuel enough {P = λ d. Unit {0}}).at
            io.transport tt;
    }

    next-IsLive : (last : ℕ) → Keeps (IsLive last) (on_transport (read_packet t fuel info))
    next-IsLive last = Keeps-and _ (Invariant.on_transport-IsSound _) (
        Readers.on_transport-Keeps t (After t clock ticks last) (now-After t clock ticks last)
          (read-After t clock ticks last) _
          (read_packet-After t clock ticks info reads fuel enough last))

    found_or_next-Ends :
        (last : ℕ) (found : Option Packet)
        → Ends (IsLive last) (found_or_next t fuel expected info allow_zeros found)
    unfolding found_or_next
    found_or_next-Ends last (some p) = Ends-pure (some p)
    found_or_next-Ends last none =
        Ends-bind _ _ (next-Ends last) (next-IsLive last) (λ p. sort_packet-Ends p)

    read_round-Ends : (last : ℕ) → Ends (IsLive last) (read_round t fuel expected info allow_zeros)
    unfolding read_round
    read_round-Ends last =
        Ends-bind _ _ (drain-Ends last) (drain-IsLive last) (found_or_next-Ends last)

    read_round-IsLive :
        (last : ℕ) → Keeps (IsLive last) (read_round t fuel expected info allow_zeros)
    read_round-IsLive last =
        Keeps-and _ (Invariant.read_round-Keeps t fuel expected info allow_zeros) (
          Readers.read_round-Keeps t (After t clock ticks last) (now-After t clock ticks last)
            (read-After t clock ticks last) expected info allow_zeros fuel)

    done_or-Ends :
        {P : IoManager D → Type 0} (found : Option Packet) (rest : Exec (IoManager D) Packet)
        → Ends P rest
        → Ends P (done_or t found rest)
    done_or-Ends (some p) rest k = Ends-pure p
    done_or-Ends none rest k = k

    read_loop-Ends :
        (rounds start last : ℕ)
        → last ≤ start + info.read_timeout_s
        → start + info.read_timeout_s < last + rounds
        → Ends (IsLive last) (read_loop t rounds fuel start expected info allow_zeros)
    unfolding read_loop
    read_loop-Ends zero start last le lt = absurd (omega arith)
    read_loop-Ends (suc rounds) start last le lt =
        Ends-bind _ _ (read_round-Ends last) (read_round-IsLive last) (λ found.
          done_or-Ends found _ (
            unless_late_io-Ends start info.read_timeout_s last _
              (λ k later within. read_loop-Ends rounds start k within (omega arith))))

    from_now :
        Ends
          (λ io. IsValid io.store)
          (on_transport (now t) >>= λ start. read_loop t fuel fuel start expected info allow_zeros)
    unfolding zoom ◌>>=◌
    from_now = record {
      at = λ io v.
          let n = (t.time io.transport).0 in
          (read_loop-Ends fuel n n (omega arith) (omega arith)).at
            (record io { transport = (t.time io.transport).1 }) (v, ticks.time_later io.transport);
    }

    -- From a valid store, for a stream with a local id, over a transport whose clock goes on with each
    -- reading, and which itself never answers with the model's error of a loop that ran out of its rounds:
    -- with more rounds than the limit on a read has microseconds, `read` returns or raises an error of the
    -- source, whatever packets come.
    pub read_terminates :
        (io : IoManager D)
        → IsValid io.store
        → (read t fuel expected info allow_zeros io).0 ≢ err out_of_fuel
    unfolding read zoom
    read_terminates io v =
        (Ends-bind {P = λ io. IsValid io.store} (on_store (drain expected info allow_zeros)) _
            (record {
              at = λ io h e.
                  not_err (sym (drain_lem expected info allow_zeros l own io.store h).returned ∙ e);
            })
            (record { at = λ io h. (drain_lem expected info allow_zeros l own io.store h).valid })
            (λ found. done_or-Ends found _ from_now)).at
          io v
