-- ===== src/Pairing/Channel/Exact.antt =====
-- `recv_exact` and `send_all` of _PyOpenSSLTransport (pairing/pairing_device.py), over a session that
-- delivers and accepts bytes sooner or later.
use adb_shell.Common.{
  ℕ, zero, suc, ◌-◌, ◌≤◌, ◌<◌, ◌≡◌, refl, sym, ap, ◌∙◌, ◌⊎◌, inl, inr, List, [], ◌++◌, true, none,
  arith, length, length-append,
}
use mathlib.Core.List.{append_assoc, append-nil}
use adb_shell.Errors.{Result, ok, err, want_read, want_write}
use adb_shell.Exec.{◌>>=◌}
use adb_shell.Pairing.Channel.{Tls, remaining, after_want, retry_on_want, recv_rest, recv_exact}

-- `incoming` is what the peer has sent and has not been read, and `delay` how often a read may still be
-- put off: a read returns a piece of the front, or it wants the socket, which then becomes ready.
pub record Arrives {D : Type 0} (t : Tls D) (incoming : D → List ℕ) (delay : D → ℕ) : Type 0 where
  pub read_lem :
      (n : ℕ) (d : D)
      → 0 < n
      → n ≤ length (incoming d)
      → ((chunk : List ℕ) × (d' : D) × (t.recv n d ≡ (ok chunk, d'))
          × (0 < length chunk)
          × (length chunk ≤ n)
          × (incoming d ≡ chunk ++ incoming d')
          × (delay d' ≤ delay d))
        ⊎ ((d' : D) × ((t.recv n d ≡ (err want_read, d')) ⊎ (t.recv n d ≡ (err want_write, d')))
            × (incoming d' ≡ incoming d)
            × (delay d' < delay d))
  pub ready_read :
      (d : D)
      → (d' : D) × (t.wait_read none d ≡ (true, d'))
        × (incoming d' ≡ incoming d)
        × (delay d' ≤ delay d)
  pub ready_write :
      (d : D)
      → (d' : D) × (t.wait_write none d ≡ (true, d'))
        × (incoming d' ≡ incoming d)
        × (delay d' ≤ delay d)

module _ {D : Type 0} (t : Tls D) (incoming : D → List ℕ) (delay : D → ℕ)
    (arrives : Arrives t incoming delay) where
  -- A read that returned a piece of the stream.
  abbrev Piece : ℕ → D → Result (List ℕ) × D → Type 0
  Piece n d out =
      (chunk : List ℕ) × (d' : D) × (out ≡ (ok chunk, d'))
      × (0 < length chunk)
      × (length chunk ≤ n)
      × (incoming d ≡ chunk ++ incoming d')
      × (delay d' ≤ delay d)

  -- A piece that comes at a later state, where nothing was read in between.
  come_later :
      (n : ℕ) (d d' : D) (out out' : Result (List ℕ) × D)
      → incoming d' ≡ incoming d
      → delay d' ≤ delay d
      → out ≡ out'
      → Piece n d' out'
      → Piece n d out
  come_later n d d' out out' same le e (chunk, d'', e', some_bytes, short, front, later) =
      (chunk, d'', e ∙ e', some_bytes, short, sym same ∙ front, omega arith)

  read_again :
      (fuel n : ℕ) (d d' : D)
      → t.recv n d ≡ (err want_read, d')
      → (d'' : D) × (retry_on_want t (suc fuel) (t.recv n) none d
          ≡ retry_on_want t fuel (t.recv n) none d'')
        × (incoming d'' ≡ incoming d')
        × (delay d'' ≤ delay d')
  unfolding retry_on_want after_want remaining ◌>>=◌
  read_again fuel n d d' e =
      let (d'', ready, same, later) = arrives.ready_read d' in (d'', rw (e, ready), same, later)

  write_again :
      (fuel n : ℕ) (d d' : D)
      → t.recv n d ≡ (err want_write, d')
      → (d'' : D) × (retry_on_want t (suc fuel) (t.recv n) none d
          ≡ retry_on_want t fuel (t.recv n) none d'')
        × (incoming d'' ≡ incoming d')
        × (delay d'' ≤ delay d')
  unfolding retry_on_want after_want remaining ◌>>=◌
  write_again fuel n d d' e =
      let (d'', ready, same, later) = arrives.ready_write d' in (d'', rw (e, ready), same, later)

  again :
      (fuel n : ℕ) (d d' : D)
      → ((t.recv n d ≡ (err want_read, d')) ⊎ (t.recv n d ≡ (err want_write, d')))
      → (d'' : D) × (retry_on_want t (suc fuel) (t.recv n) none d
          ≡ retry_on_want t fuel (t.recv n) none d'')
        × (incoming d'' ≡ incoming d')
        × (delay d'' ≤ delay d')
  again fuel n d d' (inl e) = read_again fuel n d d' e
  again fuel n d d' (inr e) = write_again fuel n d d' e

  retry_lem :
      (fuel n : ℕ) (d : D)
      → 0 < n
      → n ≤ length (incoming d)
      → delay d < fuel
      → Piece n d (retry_on_want t fuel (t.recv n) none d)
  retry_lem zero n d pos fits enough = absurd (omega arith)
  retry_lem (suc fuel) n d pos fits enough = elim (arrives.read_lem n d pos fits) [
    | inl (chunk, d', e, some_bytes, short, front, later) ↦
        (chunk, d', unfold retry_on_want in rw e, some_bytes, short, front, later)
    | inr (d', wants, same, less) ↦
        let (d'', e, same', le) = again fuel n d d' wants in
        come_later n d d'' _ _ (same' ∙ same) (omega arith) e
          (retry_lem fuel n d'' pos (omega (arith, ap length same', ap length same)) (omega arith))
  ]

  recv_step :
      (rounds fuel n : ℕ) (chunks chunk : List ℕ) (d d' : D)
      → retry_on_want t fuel (t.recv (suc n)) none d ≡ (ok chunk, d')
      → 0 < length chunk
      → recv_rest t fuel none (suc rounds) (suc n) chunks d
        ≡ recv_rest t fuel none rounds (suc n - length chunk) (chunks ++ chunk) d'
  unfolding recv_rest ◌>>=◌
  recv_step rounds fuel n chunks chunk d d' e some_bytes = rw e (ground (arith, some_bytes))

  recv_rest_lem :
      (rounds fuel n : ℕ) (chunks : List ℕ) (d : D)
      → n ≤ length (incoming d)
      → n ≤ rounds
      → delay d < fuel
      → (bytes : List ℕ) × (d' : D) × (recv_rest t fuel none rounds n chunks d
          ≡ (ok (chunks ++ bytes), d'))
        × (length bytes ≡ n)
        × (incoming d ≡ bytes ++ incoming d')
        × (delay d' ≤ delay d)
  unfolding recv_rest
  recv_rest_lem rounds fuel zero chunks d fits enough patient =
      ([], d, ap (λ l. (ok l, d)) (sym (append-nil chunks)), refl, refl, omega arith)
  recv_rest_lem zero fuel (suc n) chunks d fits enough patient = absurd (omega arith)
  recv_rest_lem (suc rounds) fuel (suc n) chunks d fits enough patient =
      let (chunk, d', e, some_bytes, short, front, later) =
        retry_lem fuel (suc n) d (omega arith) fits patient in
      let left : suc n - length chunk ≤ length (incoming d') =
        omega (arith, ap length front, length-append chunk (incoming d')) in
      let (bytes, d'', e', long, front', later') =
        recv_rest_lem rounds fuel (suc n - length chunk) (chunks ++ chunk) d' left (omega arith)
          (omega arith) in
      (
        chunk ++ bytes,
        d'',
        recv_step rounds fuel n chunks chunk d d' e some_bytes
            ∙ e'
            ∙ ap (λ l. (ok l, d'')) (append_assoc chunks chunk bytes),
        omega (arith, length-append chunk bytes),
        front ∙ ap (λ l. chunk ++ l) front' ∙ sym (append_assoc chunk bytes (incoming d'')),
        omega arith,
      )

  -- Over a session with no deadline, where the bytes have been sent and only finitely many reads are put
  -- off: with more rounds than there are bytes and delays, `recv_exact` returns exactly the number of
  -- bytes that was asked for, from the front of the stream, and leaves the rest of it.
  pub recv_exact_lem :
      (fuel n : ℕ) (d : D)
      → n ≤ length (incoming d)
      → n ≤ fuel
      → delay d < fuel
      → (bytes : List ℕ) × (d' : D) × (recv_exact t fuel none n d ≡ (ok bytes, d'))
        × (length bytes ≡ n)
        × (incoming d ≡ bytes ++ incoming d')
        × (delay d' ≤ delay d)
  unfolding recv_exact
  recv_exact_lem fuel n d fits enough patient = recv_rest_lem fuel fuel n [] d fits enough patient
