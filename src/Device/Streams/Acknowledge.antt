-- ===== src/Device/Streams/Acknowledge.antt =====
-- What `_read_until` of adb_device.py writes.
use adb_shell.Common.{ℕ, ◌≡◌, refl, sym, ap, ◌∙◌, List, [], ◌++◌, Bool, true, false, if◌then◌else◌}
use mathlib.Core.List.{append-nil}
use adb_shell.Exec.Rules.{bind-ok}
use adb_shell.Errors.{Result, ok}
use adb_shell.Exec.{zoom, pure}
use adb_shell.Constants.{Command, okay, wrte, same_command}
use adb_shell.Message.{AdbMessage, new_message, pack}
use adb_shell.TransactionInfo.{AdbInfo}
use adb_shell.Transport.{Transport}
use adb_shell.Transport.Stream.{Records}
use adb_shell.IoManager.{IoManager}
use adb_shell.IoManager.Read
use adb_shell.IoManager.Sent.{send_lem, on_wire, read-Keeps-sent}
use adb_shell.Device.{AdbDevice, on_io}
use adb_shell.Device.Streams.{send, okay_stream, read_until}

same_cmd :
    {c c' : Command} {xs ys : List ℕ}
    → ◌≡◌ {A = Result (Command × List ℕ)} (ok (c, xs)) (ok (c', ys))
    → c ≡ c'
same_cmd e = cc

module _ {D : Type 0} (t : Transport D) (sent : D → List ℕ) (r : Records t sent) where
  -- All that the host has written.
  abbrev pub written : AdbDevice D → List ℕ
  written d = sent d.io.transport

  pub written-send :
      (m : AdbMessage) (info : AdbInfo) (packed : List ℕ) (d : AdbDevice D)
      → pack m ≡ ok packed
      → (send t m info d).0 ≡ ok tt
      → written (send t m info d).1 ≡ written d ++ on_wire m packed
  unfolding send zoom
  written-send m info packed d p e = send_lem t sent r m info packed d.io.transport p e

  sent-read :
      (fuel : ℕ) (expected : List Command) (info : AdbInfo) (allow_zeros : Bool) (io : IoManager D)
      → sent (Read.read t fuel expected info allow_zeros io).1.transport ≡ sent io.transport
  sent-read fuel expected info allow_zeros io =
      (read-Keeps-sent t sent r (sent io.transport) expected info allow_zeros fuel).at io refl

  -- The bytes of an `OKAY`, if the packet was a `WRTE`.
  abbrev pub acknowledgement : Command → List ℕ → List ℕ
  acknowledgement cmd packed = if same_command cmd wrte then packed else []

  pub written-read :
      (fuel : ℕ) (expected : List Command) (info : AdbInfo) (allow_zeros : Bool) (d : AdbDevice D)
      → written (on_io (Read.read t fuel expected info allow_zeros) d).1 ≡ written d
  unfolding zoom
  written-read fuel expected info allow_zeros d = sent-read fuel expected info allow_zeros d.io

  acknowledge :
      (write : Bool) (info : AdbInfo) (packed : List ℕ) (d : AdbDevice D)
      → pack (new_message okay info.local_id info.remote_id []) ≡ ok packed
      → ((if write then okay_stream t info else pure tt) d).0 ≡ ok tt
      → written ((if write then okay_stream t info else pure tt) d).1
        ≡ written d ++ (if write then packed else [])
  unfolding okay_stream new_message
  acknowledge true info packed d h e =
      written-send (new_message okay info.local_id info.remote_id []) info packed d h e
      ∙ ap (λ bytes. written d ++ bytes) (append-nil packed)
  acknowledge false info packed d h e = sym (append-nil (written d))

  -- Over a transport whose `bulk_write` writes all that it is given when it returns, and where the ids
  -- can be packed: when `_read_until` returns the command and the data of a packet, it has written the bytes of one
  -- `OKAY` if the packet was a `WRTE`, and nothing otherwise.
  pub written-read_until :
      (fuel : ℕ) (expected : List Command) (info : AdbInfo) (packed : List ℕ) (d : AdbDevice D)
      (cmd : Command) (payload : List ℕ)
      → pack (new_message okay info.local_id info.remote_id []) ≡ ok packed
      → (read_until t fuel expected info d).0 ≡ ok (cmd, payload)
      → written (read_until t fuel expected info d).1 ≡ written d ++ acknowledgement cmd packed
  unfolding read_until
  written-read_until fuel expected info packed d cmd payload h e =
      let (p, read_ok, rest_ok, same) = bind-ok _ _ d _ e in
      let d1 = (on_io (Read.read t fuel expected info true) d).1 in
      let (u, okay_ok, last, same') = bind-ok _ _ d1 _ rest_ok in
      ap written same
      ∙ ap written same'
      ∙ acknowledge (same_command p.cmd wrte) info packed d1 h okay_ok
      ∙ ap (λ bytes. bytes ++ acknowledgement p.cmd packed) (written-read fuel expected info true d)
      ∙ ap (λ c. written d ++ acknowledgement c packed) (same_cmd last)
