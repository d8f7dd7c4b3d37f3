-- ===== src/Device/Guards.antt =====
-- `available` of AdbDevice: what `connect` leaves.
use adb_shell.Common.{ℕ, ◌≡◌, refl, List, true, false, Option, arith, ◌⊎◌, inl, inr}
use adb_shell.Errors.{Error, Result, Result-cases, ok, err}
use adb_shell.Exec.{Exec, ◌>>=◌, ◌>>◌, zoom, modify, pure}
use adb_shell.Transport.{Transport, Signer, Credentials}
use adb_shell.IoManager.{IoManager}
use adb_shell.Device.{AdbDevice, on_io, banner_or, get_banner, connect}

-- The end of `connect`, from a device that is marked unavailable.
after_handshake :
    {D : Type 0} (m : Exec (IoManager D) ℕ) (d : AdbDevice D)
    → d.available ≡ false
    → let (r, d') =
        (on_io m >>= λ maxdata.
        modify (λ d'. record d' { available = true; maxdata = maxdata }) >> pure true)
          d in
      ((r ≡ ok true) × (d'.available ≡ true))
      ⊎ ((e : Error) × (r ≡ err e) × (d'.available ≡ false) × (d'.maxdata ≡ d.maxdata))
unfolding zoom ◌>>=◌
after_handshake m d off = elim (Result-cases (m d.io).0) [
  | inl (maxdata, e) ↦ inl (ground (arith, e), ground (arith, e))
  | inr (x, e) ↦ inr (x, ground (arith, e), ground (arith, e, off), ground (arith, e))
]

-- `connect` returns `True` and leaves the device available, or it raises and leaves it unavailable
-- with its `maxdata` unchanged, even if it was available before.
pub connect_available :
    {D : Type 0} (t : Transport D) (credentials : Credentials) (hostname : Result (List ℕ))
    (fuel : ℕ) (keys : List Signer) (transport_timeout auth_timeout : Option ℕ) (read_timeout : ℕ)
    (callback : Option (Exec (IoManager D) (Unit {0}))) (pem : Option (List ℕ)) (d : AdbDevice D)
    → let (r, d') =
        connect t credentials hostname fuel keys transport_timeout auth_timeout read_timeout
          callback pem d in
      ((r ≡ ok true) × (d'.available ≡ true))
      ⊎ ((e : Error) × (r ≡ err e) × (d'.available ≡ false) × (d'.maxdata ≡ d.maxdata))
unfolding connect ◌>>=◌
connect_available t credentials hostname fuel keys transport_timeout auth_timeout read_timeout
      callback pem d =
    after_handshake _
      (record d { available = false; banner = banner_or d.banner (get_banner hostname) }) refl
