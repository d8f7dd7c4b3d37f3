-- ===== src/IoManager/Sent.antt =====
-- _send and read of _AdbIOManager (adb_device.py) over a transport that records what is written.
use adb_shell.Common.{ℕ, ◌≡◌, ◌∙◌, List, [], ◌∷◌, ◌++◌, Bool, false, arith, Bool-cases, inl, inr}
use mathlib.Core.List.{append-nil, append_assoc}
use adb_shell.Errors.{Result-cases, ok}
use adb_shell.Exec.{◌>>=◌}
use adb_shell.Exec.Rules.{Keeps}
use adb_shell.Constants.{Command}
use adb_shell.Message.{AdbMessage, pack}
use adb_shell.TransactionInfo.{AdbInfo}
use adb_shell.PacketStore.{is_nonempty}
use adb_shell.Transport.{Transport}
use adb_shell.Transport.Stream.{Records}
use adb_shell.IoManager.Readers.{io_read-Keeps}
use adb_shell.IoManager.Packets.{send}
use adb_shell.IoManager.Read.{read}

-- The bytes of a message on the wire: its header, and its data.
abbrev pub on_wire : AdbMessage → List ℕ → List ℕ
on_wire m packed = packed ++ m.payload

append_empty : (xs : List ℕ) → is_nonempty xs ≡ false → (ys : List ℕ) → ys ++ xs ≡ ys
append_empty [] h ys = append-nil ys
append_empty (x ∷ xs) h ys = cc

module _ {D : Type 0} (t : Transport D) (sent : D → List ℕ) (r : Records t sent) where
  -- Over a transport whose `bulk_write` writes all that it is given when it returns: when `_send`
  -- returns, the packed header and then the data stand behind what was written before.
  pub send_lem :
      (m : AdbMessage) (info : AdbInfo) (packed : List ℕ) (d : D)
      → pack m ≡ ok packed
      → (send t m info d).0 ≡ ok tt
      → sent (send t m info d).1 ≡ sent d ++ on_wire m packed
  unfolding send ◌>>=◌
  send_lem m info packed d p e =
      let timeout = info.transport_timeout_s in
      let d1 = (t.bulk_write packed timeout d).1 in
      elim (Result-cases (t.bulk_write packed timeout d).0) [
        | inr (x, q) ↦ absurd (ground (arith, p, q, e))
        | inl (n, q) ↦ elim (Bool-cases (is_nonempty m.payload)) [
          | inr none_left ↦ ground (
            arith,
            p,
            q,
            none_left,
            r.write_lem packed timeout d n q,
            append_empty m.payload none_left packed,
          )
          | inl some_left ↦ elim (Result-cases (t.bulk_write m.payload timeout d1).0) [
            | inr (x, q') ↦ absurd (ground (arith, p, q, q', some_left, e))
            | inl (k, q') ↦ ground (
              arith,
              p,
              q,
              q',
              some_left,
              r.write_lem packed timeout d n q,
              r.write_lem m.payload timeout d1 k q',
              append_assoc (sent d) packed m.payload,
            )
          ]
        ]
      ]

  pub read-Keeps-sent :
      (b : List ℕ) (expected : List Command) (info : AdbInfo) (allow_zeros : Bool) (fuel : ℕ)
      → Keeps (λ io. sent io.transport ≡ b) (read t fuel expected info allow_zeros)
  read-Keeps-sent b expected info allow_zeros fuel =
      io_read-Keeps t (λ d. sent d ≡ b) (record { at = λ d h. r.time_keeps d ∙ h })
        (λ n timeout. record { at = λ d h. r.read_keeps n timeout d ∙ h }) expected info allow_zeros
        fuel
