-- ===== src/Tests/PairDevice.antt =====
-- `pair` over a network that knows its open sockets, where the device closes the session at once.
use adb_shell.Common.{
  Bool, false, ◌==◌, ◌⊎◌, inl, inr, if◌then◌else◌, ◌∙◌, ℕ, ◌≡◌, refl, sym, ap, List, [], ◌∷◌, some,
  true, arith, length, replicate,
}
use adb_shell.Errors.{ok, err, ok_inj, os_error, zero_return, ssl_error}
use adb_shell.Pairing.Auth.{Packages}
use adb_shell.Pairing.Channel.{Tls}
use adb_shell.Pairing.Device.{Network, pair}
use adb_shell.Pairing.Device.Cleanup.{HasSockets, pair_closes}

-- Which sockets are open.
abbrev World : Type 0
World = ℕ → Bool

abbrev closed_at : ℕ → World → World
closed_at c w d = if d == c then false else w d

abbrev hangs_up : Tls World
hangs_up = record {
  send = λ bytes w. (ok (length bytes), w);
  recv = λ n w. (err zero_return, w);
  wait_read = λ timeout w. (true, w);
  wait_write = λ timeout w. (true, w);
  monotonic = λ w. (7, w);
}

-- A close of a socket closes it and raises.
abbrev sockets : Network World ℕ ℕ
sockets = record {
  build_context = λ cert key w. (ok tt, w);
  create_connection = λ timeout w. (ok 7, λ d. if d == 7 then true else w d);
  set_no_delay = λ c w. (ok tt, w);
  set_blocking = λ c w. (ok tt, w);
  close_socket = λ c w. (err os_error, closed_at c w);
  new_connection = λ c w. (ok c, w);
  set_connect_state = λ s w. (ok tt, w);
  do_handshake = λ s w. (ok tt, w);
  shutdown = λ s w. (err ssl_error, w);
  close = λ s w. (err os_error, closed_at s w);
  export_keying_material = λ s label n w. (ok (replicate n 7), w);
  monotonic = λ w. (7, w);
  tls = λ c s. hangs_up;
}

only_seven : (w : World) (d : ℕ) → (if d == 7 then true else w d) ≡ true → (w d ≡ true) ⊎ (d ≡ 7)
only_seven w d h = ground arith

still_closed : (c : ℕ) (w : World) (d : ℕ) → closed_at c w d ≡ true → w d ≡ true
still_closed c w d h = ground arith

sockets-HasSockets : HasSockets sockets (λ c w. w c) (λ s. s)
sockets-HasSockets = record {
  create_ok = λ timeout w w' c d e h. elim (only_seven w d (ap (λ r. r.1 d) e ∙ h)) [
    | inl before ↦ inl before
    | inr same ↦ inr (same ∙ ok_inj (ap (λ r. r.0) e))
  ];
  create_err = λ timeout w w' x d e h. absurd (ground (arith, ap (λ r. r.0) e));
  closed = λ c w. ground arith;
  close_none = λ c d w h. still_closed c w d h;
  made_over = λ c w w' s e. sym (ok_inj (ap (λ r. r.0) e));
  close_is = λ s w. refl;
  shutdown_error = λ s w x e. ground (arith, e);
  context_none = λ cert key d w h. h;
  delay_none = λ c d w h. h;
  blocking_none = λ c d w h. h;
  connection_none = λ c d w h. h;
  state_none = λ s d w h. h;
  handshake_none = λ s d w h. h;
  export_none = λ s label k d w h. h;
  shutdown_none = λ s d w h. h;
  clock_none = λ d w h. h;
  send_none = λ c s bytes d w h. h;
  recv_none = λ c s k d w h. h;
  read_none = λ c s timeout d w h. h;
  write_none = λ c s timeout d w h. h;
  tls_clock_none = λ c s d w h. h;
}

abbrev fake_packages : Packages (List ℕ)
fake_packages = record {
  alice = λ ours theirs seed password. (password, seed ∷ []);
  bob = λ ours theirs seed password. (password, seed ∷ []);
  process_msg = λ k msg. ok k;
  hkdf = λ n info material. material;
  gcm_encrypt = λ key nonce plaintext. ok plaintext;
  gcm_decrypt = λ key nonce ciphertext. ok ciphertext;
}

pair_closes_example :
    (pair sockets fake_packages
        (λ pem. ok (1 ∷ [], 2 ∷ []))
        9
        3
        (b'5' ∷ [])
        (0 ∷ [])
        (b'k' ∷ [])
        (some 100)
        (λ d. d == 2)).1
      7
    ≡ false
pair_closes_example =
    pair_closes sockets fake_packages (λ pem. ok (1 ∷ [], 2 ∷ [])) 9 (λ c w. w c) (λ s. s)
      sockets-HasSockets 3 (b'5' ∷ []) (0 ∷ []) (b'k' ∷ []) (some 100) (λ d. d == 2) 7 refl
