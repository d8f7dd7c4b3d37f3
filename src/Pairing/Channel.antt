-- ===== src/Pairing/Channel.antt =====
-- _PyOpenSSLTransport and _retry_on_want of pairing/pairing_device.py, over an OpenSSL connection and
-- its socket, which are parameters. Times are in microseconds; a loop runs on fuel.
pub mod Exact
use adb_shell.Common.{
  ℕ, zero, suc, ◌+◌, ◌-◌, List, [], ◌∷◌, ◌++◌, Bool, true, false, Option, none, some, length, take,
  drop, ltb, ◌==◌, if◌then◌else◌,
}
use adb_shell.Errors.{
  Error, Result, ok, err, want_read, want_write, zero_return, pairing_failed, out_of_fuel,
}
use adb_shell.Exec.{Exec, pure, raise, ◌>>=◌, ◌>>◌}

pub record Tls (D : Type 0) : Type 0 where
  -- SSL.Connection.send and recv; they raise WantReadError, WantWriteError or ZeroReturnError too
  pub send : List ℕ → Exec D ℕ
  pub recv : ℕ → Exec D (List ℕ)
  -- whether select.select gives the socket back, to be read or to be written, within a time
  pub wait_read : Option ℕ → D → Bool × D
  pub wait_write : Option ℕ → D → Bool × D
  -- time.monotonic()
  pub monotonic : D → ℕ × D

module _ {D : Type 0} (t : Tls D) where
  -- max(0.0, deadline - time.monotonic())
  unfoldable pub remaining : Option ℕ → Exec D (Option ℕ)
  remaining none d = (ok none, d)
  remaining (some deadline) d = let (n, d') = t.monotonic d in (ok (some (deadline - n)), d')

  -- timeout == 0.0
  abbrev pub is_over : Option ℕ → Bool
  is_over none = false
  is_over (some n) = n == 0

  unfoldable pub after_want :
      {A : Type 0} → (Option ℕ → D → Bool × D) → Option ℕ → Exec D A → Exec D A
  after_want select deadline rest = do
    timeout ← remaining deadline
    if is_over timeout then raise pairing_failed else (do
      ready ← (λ d. let (b, d') = select timeout d in (ok b, d'))
      if ready then rest else raise pairing_failed)

  -- What follows an attempt; `rest` tries again.
  abbrev pub attempted : {A : Type 0} → Option ℕ → Exec D A → Result A → Exec D A
  attempted deadline rest (ok a) = pure a
  attempted deadline rest (err want_read) = after_want t.wait_read deadline rest
  attempted deadline rest (err want_write) = after_want t.wait_write deadline rest
  attempted deadline rest (err e) = raise e

  unfoldable pub retry_on_want : {A : Type 0} → ℕ → Exec D A → Option ℕ → Exec D A
  retry_on_want zero operation deadline = raise out_of_fuel
  retry_on_want (suc fuel) operation deadline =
      let rest = retry_on_want fuel operation deadline in
      λ d. let (r, d') = operation d in attempted deadline rest r d'

  module _ (fuel : ℕ) (deadline : Option ℕ) where
    -- while sent < len(view)
    unfoldable pub send_from : ℕ → List ℕ → ℕ → Exec D (Unit {0})
    send_from zero bytes sent = if ltb sent (length bytes) then raise out_of_fuel else pure tt
    send_from (suc rounds) bytes sent =
        let rest = λ (n : ℕ). send_from rounds bytes (sent + n) in
        if ltb sent (length bytes)
        then (do
          n ← retry_on_want fuel (t.send (drop sent bytes)) deadline
          if n == 0 then raise pairing_failed else rest n)
        else pure tt

    unfoldable pub send_all : List ℕ → Exec D (Unit {0})
    send_all bytes = send_from fuel bytes 0

    -- `except SSL.ZeroReturnError: raise PairingException`
    abbrev pub closed : {A : Type 0} → Result A → Result A
    closed (err zero_return) = err pairing_failed
    closed r = r

    abbrev pub unless_closed : {A : Type 0} → Exec D A → Exec D A
    unless_closed m d = let (r, d') = m d in (closed r, d')

    -- while remaining > 0
    unfoldable pub recv_rest : ℕ → ℕ → List ℕ → Exec D (List ℕ)
    recv_rest rounds zero chunks = pure chunks
    recv_rest zero (suc n) chunks = raise out_of_fuel
    recv_rest (suc rounds) (suc n) chunks = do
      chunk ← unless_closed (retry_on_want fuel (t.recv (suc n)) deadline)
      let rest = recv_rest rounds (suc n - length chunk) (chunks ++ chunk)
      if length chunk == 0 then raise pairing_failed else rest

    unfoldable pub recv_exact : ℕ → Exec D (List ℕ)
    recv_exact n = recv_rest fuel n []
