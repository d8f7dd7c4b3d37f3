-- ===== src/Device/Session/Opening.antt =====
-- `_open` of AdbDevice (adb_device.py), with a device that answers `OKAY`.
use adb_shell.Common.{ℕ, ◌≤◌, ◌≡◌, refl, ap, List, [], ◌∷◌, ◌++◌, false, Option, none, some, arith}
use adb_shell.Errors.{ok}
use adb_shell.Exec.Gives.{Gives, Gives-pure, Gives-bind, Gives-gets}
use adb_shell.Constants.{okay, same_command}
use adb_shell.TransactionInfo.{AdbInfo, new_info, args_match}
use adb_shell.PacketStore.{Packet}
use adb_shell.Transport.{Transport}
use adb_shell.Transport.Stream.{Duplex}
use adb_shell.IoManager.{is_expected}
use adb_shell.IoManager.Session.Wires.{Fits, bytes_of, wires}
use adb_shell.Device.{given_or}
use adb_shell.Device.Streams.{Limits, next_local_id, fresh_id, open_to}
use adb_shell.Device.Session.{opening, opened, AreOthers}
use adb_shell.Device.Session.Lines.{OnLine, sent-Gives, next-Gives}

-- The clock keeps to the limits that a caller gives.
pub record IsPatient (span : ℕ) (limits : Limits) : Type 0 where
  pub each : span ≤ limits.read_timeout_s
  pub total : (k : ℕ) → limits.timeout_s ≡ some k → span ≤ k

-- The transaction of a stream, once its device's id is known.
abbrev pub transaction : ℕ → Option ℕ → Option ℕ → Limits → AdbInfo
transaction l r default limits =
    record (new_info (some l) none (given_or limits.transport_timeout_s default)
      limits.read_timeout_s limits.timeout_s) { remote_id = r }

module _ (l : ℕ) (r default : Option ℕ) (span : ℕ) where
  capped_lem :
      (read : ℕ) (total transport : Option ℕ)
      → span ≤ read
      → ((k : ℕ) → total ≡ some k → span ≤ k)
      → span ≤ (new_info (some l) none transport read total).read_timeout_s
  unfolding new_info
  capped_lem read none transport h k = h
  capped_lem read (some x) transport h k = ground (arith, k x refl)

  pub transaction_patient :
      (limits : Limits)
      → IsPatient span limits
      → span ≤ (transaction l r default limits).read_timeout_s
  transaction_patient limits p = capped_lem limits.read_timeout_s limits.timeout_s _ p.each p.total

module _ {D : Type 0} (t : Transport D) (incoming sent : D → List ℕ) (start span : ℕ)
    (x : Duplex t incoming sent start span) (n : ℕ) (default : Option ℕ) where
  abbrev l : ℕ
  l = next_local_id n

  fresh_id-Gives :
      (i o : List ℕ)
      → Gives
          (OnLine t incoming sent start span x l n default i o)
          l
          (OnLine t incoming sent start span x l l default i o)
          (fresh_id t)
  unfolding fresh_id
  fresh_id-Gives i o = record {
    at = λ d on.
        let same : next_local_id d.local_id ≡ l = ap next_local_id on.counter in
        let d' = record d { local_id = next_local_id d.local_id } in
        (
          d',
          ap (λ k. (ok k, d')) same,
          record { line = on.line; ready = on.ready; counter = same; limit = on.limit },
        );
  }

  pub open_to-Gives :
      (fuel : ℕ) (r : ℕ) (destination : List ℕ) (limits : Limits) (others : List Packet)
      (i o : List ℕ)
      → 24 ≤ fuel
      → IsPatient span limits
      → Fits fuel (opening l destination)
      → Fits fuel (opened l r)
      → AreOthers l fuel others
      → Gives
          (OnLine t incoming sent start span x l n default
            (wires others ++ (bytes_of (opened l r) ++ i))
            o)
          (transaction l (some r) default limits)
          (OnLine t incoming sent start span x l l default i
            (o ++ bytes_of (opening l destination)))
          (open_to t fuel destination limits)
  unfolding open_to new_info args_match is_expected same_command
  open_to-Gives fuel r destination limits others i o big patient f g h =
      Gives-bind _ _ (fresh_id-Gives _ o) (
        Gives-bind _ _ (Gives-gets _ default (λ d on. on.limit)) (
          Gives-bind _ _
            (sent-Gives t incoming sent start span x l l default _ fuel (opening l destination) _ _
              _ o refl refl f)
            (Gives-bind _ _
              (next-Gives t incoming sent start span x l l default
                (transaction l none default limits) r refl fuel big
                (transaction_patient l none default span limits patient) (okay ∷ []) false
                (opened l r) others i _ g (ground arith) refl h)
              (Gives-pure _))))
