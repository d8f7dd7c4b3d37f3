-- ===== src/IoManager/Session/Wires.antt =====
-- Packets as bytes on the wire: `AdbMessage.pack` (adb_message.py) and then the data.
use adb_shell.Common.{
  ℕ, ◌≤◌, ◌<◌, ◌^◌, ◌≡◌, refl, sym, ap, ◌∙◌, List, [], ◌∷◌, ◌++◌, some, length, ==_refl, Bool-cases,
  inl, inr, if◌then◌else◌, arith,
}
use mathlib.Core.List.{append_assoc}
use adb_shell.Errors.{Result, ok, err, invalid_checksum}
use adb_shell.Exec.{◌>>=◌}
use adb_shell.Exec.Rules.{Keeps}
use adb_shell.Exec.Gives.{Gives}
use adb_shell.Message.{AdbMessage, new_message, pack, checksum}
use adb_shell.Message.RoundTrip.{unpack-pack}
use adb_shell.TransactionInfo.{AdbInfo}
use adb_shell.PacketStore.{Packet, is_nonempty}
use adb_shell.Transport.{Transport}
use adb_shell.Transport.Stream.{Duplex}
use adb_shell.IoManager.Packets.{read_packet, send}
use adb_shell.IoManager.Packets.RoundTrip.{packet_received}
use adb_shell.IoManager.Readers.{read_packet-Keeps}
use adb_shell.IoManager.Sent.{send_lem, on_wire}

-- `pack()` where it raises nothing.
abbrev packed_or_nothing : Result (List ℕ) → List ℕ
packed_or_nothing (ok packed) = packed
packed_or_nothing (err e) = []

-- The header of a packet, and its data.
pub bytes_of : Packet → List ℕ
bytes_of p =
    packed_or_nothing (pack (new_message p.cmd (some p.arg0) (some p.arg1) p.payload)) ++ p.payload

-- Packets in a row.
unfoldable pub wires : List Packet → List ℕ
wires [] = []
wires (p ∷ ps) = bytes_of p ++ wires ps

pub wires-append : (ps qs : List Packet) → wires (ps ++ qs) ≡ wires ps ++ wires qs
unfolding wires
wires-append [] qs = refl
wires-append (p ∷ ps) qs =
    ap (λ l. bytes_of p ++ l) (wires-append ps qs)
    ∙ sym (append_assoc (bytes_of p) (wires ps) (wires qs))

-- The ids and the length of a packet fit 32 bits, and its data has no more bytes than a loop may have
-- rounds.
pub record Fits (fuel : ℕ) (p : Packet) : Type 0 where
  pub first : p.arg0 < 2 ^ 32
  pub second : p.arg1 < 2 ^ 32
  pub short : length p.payload < 2 ^ 32
  pub rounds : length p.payload ≤ fuel

-- Packing such a packet raises nothing.
bytes_of_lem :
    (fuel : ℕ) (p : Packet)
    → Fits fuel p
    → (packed : List ℕ) × (pack (new_message p.cmd (some p.arg0) (some p.arg1) p.payload)
        ≡ ok packed)
      × (bytes_of p ≡ packed ++ p.payload)
unfolding bytes_of
bytes_of_lem fuel p f =
    let (packed, e, n, u) = unpack-pack p.cmd p.arg0 p.arg1 p.payload f.first f.second f.short in
    (packed, e, ap (λ r. packed_or_nothing r ++ p.payload) e)

module _ {D : Type 0} (t : Transport D) (incoming sent : D → List ℕ) (start span : ℕ)
    (x : Duplex t incoming sent start span) where
  -- What the device has sent and the host has not read, and what the host has written.
  pub record Traffic (input output : List ℕ) (d : D) : Type 0 where
    pub heard : incoming d ≡ input
    pub told : sent d ≡ output

  untouched :
      (fuel : ℕ) (info : AdbInfo) (output : List ℕ)
      → Keeps (λ d. sent d ≡ output) (read_packet t fuel info)
  untouched fuel info output =
      read_packet-Keeps t (λ d. sent d ≡ output) (record { at = λ d h. x.records.time_keeps d ∙ h })
        (λ n timeout. record { at = λ d h. x.records.read_keeps n timeout d ∙ h }) fuel info

  -- The packet at the front of the stream is read, and nothing is written.
  pub read_packet-Gives :
      (fuel : ℕ) (info : AdbInfo) (p : Packet) (input output : List ℕ)
      → span ≤ info.read_timeout_s
      → 24 ≤ fuel
      → Fits fuel p
      → Gives
          (Traffic (bytes_of p ++ input) output)
          p
          (Traffic input output)
          (read_packet t fuel info)
  read_packet-Gives fuel info p input output patient big f = record {
    at = λ d h.
        let (packed, e, b) = bytes_of_lem fuel p f in
        let (d', r, i) =
          packet_received t incoming start span x.delivers info fuel p.cmd p.arg0 p.arg1 p.payload
            p.payload input packed d patient f.first f.second f.short e refl big f.rounds
            (h.heard ∙ ap (λ l. l ++ input) b ∙ append_assoc packed p.payload input) in
        (
          d',
          r
              ∙ ap (λ b. (if b then ok p else err invalid_checksum, d'))
                  (==_refl (checksum p.payload)),
          record {
            heard = i;
            told = sym (ap (λ y. sent y.1) r) ∙ (untouched fuel info output).at d h.told;
          },
        );
  }

  module _ (m : AdbMessage) (info : AdbInfo) (packed : List ℕ) (e : pack m ≡ ok packed)
      (d : D) where
    send_returns : ((send t m info d).0 ≡ ok tt) × (incoming (send t m info d).1 ≡ incoming d)
    unfolding send ◌>>=◌
    send_returns =
        let timeout = info.transport_timeout_s in
        let d1 = (t.bulk_write packed timeout d).1 in
        let (n, q) = x.write_returns packed timeout d in
        let (k, q') = x.write_returns m.payload timeout d1 in
        elim (Bool-cases (is_nonempty m.payload)) [
          | inl some_left ↦ ground (
            arith,
            e,
            q,
            q',
            some_left,
            x.write_keeps packed timeout d,
            x.write_keeps m.payload timeout d1,
          )
          | inr none_left ↦ ground (arith, e, q, none_left, x.write_keeps packed timeout d)
        ]

  -- A message is written, and nothing is read.
  pub send-Gives :
      (fuel : ℕ) (info : AdbInfo) (p : Packet) (input output : List ℕ)
      → Fits fuel p
      → Gives
          (Traffic input output)
          tt
          (Traffic input (output ++ bytes_of p))
          (send t (new_message p.cmd (some p.arg0) (some p.arg1) p.payload) info)
  unfolding new_message
  send-Gives fuel info p input output f = record {
    at = λ d h.
        let m = new_message p.cmd (some p.arg0) (some p.arg1) p.payload in
        let (packed, e, b) = bytes_of_lem fuel p f in
        let (r, i) = send_returns m info packed e d in
        let d' = (send t m info d).1 in
        (
          d',
          ap (λ q. (q, d')) r,
          record {
            heard = i ∙ h.heard;
            told =
                send_lem t sent x.records m info packed d e r
                ∙ ap (λ l. l ++ on_wire m packed) h.told
                ∙ ap (λ l. output ++ l) (sym b);
          },
        );
  }

  -- Reading the clock.
  pub time-Traffic :
      (input output : List ℕ) (d : D) → Traffic input output d → Traffic input output (t.time d).1
  time-Traffic input output d h = record {
    heard = x.delivers.time_keeps d ∙ h.heard;
    told = x.records.time_keeps d ∙ h.told;
  }
