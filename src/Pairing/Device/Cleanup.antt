-- ===== src/Pairing/Device/Cleanup.antt =====
-- `pair` of pairing/pairing_device.py leaves no socket open.
use adb_shell.Common.{
  ℕ, ◌+◌, ◌≡◌, refl, ap, ◌∙◌, List, [], ◌∷◌, Option, none, some, Bool, true, ◌==◌, arith, inl, inr,
  ◌⊎◌, sym, false, Bool-cases,
}
use adb_shell.Errors.{Error, Result-cases, ok, err}
use adb_shell.Exec.{Exec, pure, finally, zoom, modify, ◌>>=◌, ◌>>◌}
use mathlib.Core.Path.{subst}
use adb_shell.Pairing.Packets.{PeerInfo}
use adb_shell.Exec.Rules.{Keeps, Keeps-lift, Keeps-pure, Keeps-if, Keeps-bind, Keeps-zoom}
use adb_shell.Transport.{Credentials}
use adb_shell.Transport.Sockets.{suppress, translate}
use adb_shell.Pairing.Auth.{Packages}
use adb_shell.Pairing.Channel.{send_all, recv_exact}
use adb_shell.Pairing.Device.Calm.{
  IsCalm, IsCalmChannel, retry-Keeps, send_from-Keeps, recv_rest-Keeps, run-Keeps,
}
use adb_shell.Pairing.Device.{
  Network, Attempt, is_ssl_error, is_network_error, on_world, channel, over_tls, over_socket,
  deadline_in, attempt, end_ssl, end_socket, cleanup, settled, pair,
}

module _ {W C S : Type 0} (n : Network W C S) (is_open : C → W → Bool) where
  -- Every socket that is open is one of `P`.
  abbrev pub Within : (C → Type 0) → W → Type 0
  Within P w = (c : C) → is_open c w ≡ true → P c

  -- An action that opens no socket, whether it returns or raises; it may close some.
  abbrev pub OpensNone : {A : Type 0} → Exec W A → Type 0
  OpensNone m = (c : C) (w : W) → is_open c (m w).1 ≡ true → is_open c w ≡ true

  -- What is relied on of sockets and of OpenSSL's connections. create_connection that returns has opened
  -- the socket that it returns and no other, and no other call opens any. A socket is closed by its
  -- close, also where that raises. A connection is made over a socket, and its close is that of the socket,
  -- as Connection hands on what it does not define. Its shutdown raises an SSL.Error, if it raises.
  pub record HasSockets (socket_of : S → C) : Type 0 where
    pub create_ok :
        (timeout : Option ℕ) (w w' : W) (c d : C)
        → n.create_connection timeout w ≡ (ok c, w')
        → is_open d w' ≡ true
        → (is_open d w ≡ true) ⊎ (d ≡ c)
    pub create_err :
        (timeout : Option ℕ) (w w' : W) (e : Error) (d : C)
        → n.create_connection timeout w ≡ (err e, w')
        → is_open d w' ≡ true
        → is_open d w ≡ true
    pub closed : (c : C) (w : W) → is_open c (n.close_socket c w).1 ≡ false
    pub close_none : (c : C) → OpensNone (n.close_socket c)
    pub made_over : (c : C) (w w' : W) (s : S) → n.new_connection c w ≡ (ok s, w') → socket_of s ≡ c
    pub close_is : (s : S) (w : W) → n.close s w ≡ n.close_socket (socket_of s) w
    pub shutdown_error :
        (s : S) (w : W) (e : Error) → (n.shutdown s w).0 ≡ err e → is_ssl_error e ≡ true
    pub context_none : (cert key : List ℕ) → OpensNone (n.build_context cert key)
    pub delay_none : (c : C) → OpensNone (n.set_no_delay c)
    pub blocking_none : (c : C) → OpensNone (n.set_blocking c)
    pub connection_none : (c : C) → OpensNone (n.new_connection c)
    pub state_none : (s : S) → OpensNone (n.set_connect_state s)
    pub handshake_none : (s : S) → OpensNone (n.do_handshake s)
    pub export_none :
        (s : S) (label : List ℕ) (k : ℕ) → OpensNone (n.export_keying_material s label k)
    pub shutdown_none : (s : S) → OpensNone (n.shutdown s)
    pub clock_none : (c : C) (w : W) → is_open c (n.monotonic w).1 ≡ true → is_open c w ≡ true
    pub send_none : (c : C) (s : S) (bytes : List ℕ) → OpensNone ((n.tls c s).send bytes)
    pub recv_none : (c : C) (s : S) (k : ℕ) → OpensNone ((n.tls c s).recv k)
    pub read_none :
        (c : C) (s : S) (timeout : Option ℕ) (d : C) (w : W)
        → is_open d ((n.tls c s).wait_read timeout w).1 ≡ true
        → is_open d w ≡ true
    pub write_none :
        (c : C) (s : S) (timeout : Option ℕ) (d : C) (w : W)
        → is_open d ((n.tls c s).wait_write timeout w).1 ≡ true
        → is_open d w ≡ true
    pub tls_clock_none :
        (c : C) (s : S) (d : C) (w : W)
        → is_open d ((n.tls c s).monotonic w).1 ≡ true
        → is_open d w ≡ true

-- Those from before, and the one that is held.
abbrev OrHeld : {C : Type 0} → Option C → (C → Type 0) → C → Type 0
OrHeld none P = P
OrHeld (some c) P = λ d. P d ⊎ (d ≡ c)

-- A connection is over the socket that is held.
abbrev IsOver : {C S : Type 0} → (S → C) → Option S → Option C → Type 0
IsOver socket_of none sock = Unit {0}
IsOver socket_of (some s) sock = sock ≡ some (socket_of s)

module _ {W C S K : Type 0} (n : Network W C S) (p : Packages K) (credentials : Credentials)
    (fuel : ℕ) (is_open : C → W → Bool) (socket_of : S → C) (laws : HasSockets n is_open socket_of)
    (P : C → Type 0) where
  abbrev In : (C → Type 0) → W → Type 0
  In = Within n is_open

  -- The sockets that are open are those of `P`, and the one that `sock` names.
  abbrev Held : Attempt W C S → Type 0
  Held a = In (OrHeld a.sock P) a.world × IsOver socket_of a.ssl_conn a.sock

  opens_none : {A : Type 0} (Q : C → Type 0) (m : Exec W A) → OpensNone n is_open m → Keeps (In Q) m
  opens_none Q m h = record { at = λ w within c e. within c (h c w e) }

  on_world-Keeps :
      {A : Type 0} (action : Exec W A)
      → ((Q : C → Type 0) → Keeps (In Q) action)
      → Keeps Held (on_world n p credentials fuel action)
  on_world-Keeps action h =
      Keeps-zoom _ _ action (λ a e. ((h (OrHeld a.sock P)).at a.world e.0, e.1))

  tls-IsCalm : (Q : C → Type 0) (c : C) (s : S) → IsCalm (In Q) (n.tls c s)
  tls-IsCalm Q c s = record {
    send_calm = λ bytes. opens_none Q _ (laws.send_none c s bytes);
    recv_calm = λ k. opens_none Q _ (laws.recv_none c s k);
    read_calm = λ timeout w h d e. h d (laws.read_none c s timeout d w e);
    write_calm = λ timeout w h d e. h d (laws.write_none c s timeout d w e);
    clock_calm = λ w h d e. h d (laws.tls_clock_none c s d w e);
  }

  channel_calm :
      (Q : C → Type 0) (c : C) (s : S) (deadline : Option ℕ)
      → IsCalmChannel (In Q) (channel n p credentials fuel c s deadline)
  unfolding send_all recv_exact
  channel_calm Q c s deadline = record {
    send_calm =
        λ bytes. send_from-Keeps (In Q) (n.tls c s) (tls-IsCalm Q c s) fuel fuel deadline bytes 0;
    recv_calm =
        λ size. recv_rest-Keeps (In Q) (n.tls c s) (tls-IsCalm Q c s) fuel fuel size deadline [];
    export_calm = λ label size. opens_none Q _ (laws.export_none s label size);
  }

  over_tls-Keeps :
      (Q : C → Type 0) (seed : ℕ) (pairing_code public_key : List ℕ) (c : C) (s : S)
      (deadline : Option ℕ)
      → Keeps (In Q) (over_tls n p credentials fuel seed pairing_code public_key c s deadline)
  unfolding over_tls
  over_tls-Keeps Q seed pairing_code public_key c s deadline =
      Keeps-bind _ _ (opens_none Q _ (laws.state_none s)) (λ _.
        Keeps-bind _ _
          (retry-Keeps (In Q) (n.tls c s) (tls-IsCalm Q c s) fuel _ deadline
            (opens_none Q _ (laws.handshake_none s)))
          (λ _.
            Keeps-bind _ _ (Keeps-lift _)
              (λ info. run-Keeps (In Q) _ p (channel_calm Q c s deadline) seed pairing_code info)))

  deadline_in-Keeps :
      (Q : C → Type 0) (timeout : Option ℕ)
      → Keeps (In Q) (deadline_in n p credentials fuel timeout)
  deadline_in-Keeps Q none = Keeps-pure none
  deadline_in-Keeps Q (some timeout) =
      Keeps-if (timeout == 0) (pure none)
        (λ w. (ok (some ((n.monotonic w).0 + timeout)), (n.monotonic w).1)) (Keeps-pure none)
        (record { at = λ w h d e. h d (laws.clock_none d w e) })

  module _ (c : C) where
    -- The socket is held, and there may be a connection over it.
    abbrev Using : Attempt W C S → Type 0
    Using a = Held a × (a.sock ≡ some c)

    on_world-Using :
        {A : Type 0} (action : Exec W A)
        → ((Q : C → Type 0) → Keeps (In Q) action)
        → Keeps Using (on_world n p credentials fuel action)
    on_world-Using action h =
        Keeps-zoom _ _ action (λ a e. (((h (OrHeld a.sock P)).at a.world e.0.0, e.0.1), e.1))

    -- A connection that is made is one over the socket.
    connected :
        (next : S → Exec (Attempt W C S) PeerInfo)
        → ((s : S) → Keeps Using (next s))
        → Keeps Using (do
          s ← on_world n p credentials fuel (n.new_connection c)
          modify (λ a. record a { ssl_conn = some s })
          next s)
    unfolding ◌>>=◌ zoom
    connected next h = record {
      at = λ a u.
          let w1 = (n.new_connection c a.world).1 in
          let within : In (OrHeld a.sock P) w1 =
            (opens_none (OrHeld a.sock P) (n.new_connection c) (laws.connection_none c)).at a.world
              u.0.0 in
          elim (Result-cases (n.new_connection c a.world).0) [
            | inr (x, q) ↦ rw q ((within, u.0.1), u.1)
            | inl (s, q) ↦ rw q (
                (h s).at (record a { ssl_conn = some s; world = w1 })
                  (
                    (
                      within,
                      u.1 ∙ ap some (sym (laws.made_over c a.world w1 s (ap (λ r. (r, w1)) q))),
                    ),
                    u.1,
                  ))
          ];
    }

    over_socket-Keeps :
        (seed : ℕ) (pairing_code public_key : List ℕ) (timeout : Option ℕ)
        → Keeps Using (over_socket n p credentials fuel seed pairing_code public_key timeout c)
    unfolding over_socket
    over_socket-Keeps seed pairing_code public_key timeout =
        Keeps-bind _ _ (on_world-Using _ (λ Q. opens_none Q _ (laws.delay_none c))) (λ _.
          Keeps-bind _ _ (on_world-Using _ (λ Q. opens_none Q _ (laws.blocking_none c))) (λ _.
            Keeps-bind _ _ (on_world-Using _ (λ Q. deadline_in-Keeps Q timeout)) (λ deadline.
              connected _ (λ s.
                on_world-Using _
                  (λ Q. over_tls-Keeps Q seed pairing_code public_key c s deadline)))))

  attempt_level :
      (seed : ℕ) (pairing_code public_key : List ℕ) (timeout : Option ℕ) (w : W)
      → In P w
      → Held
          (attempt n p credentials fuel seed pairing_code public_key timeout
            (record { sock = none; ssl_conn = none; world = w })).1
  unfolding attempt ◌>>=◌ zoom
  attempt_level seed pairing_code public_key timeout w h =
      let w1 = (n.create_connection timeout w).1 in
      elim (Result-cases (n.create_connection timeout w).0) [
        | inr (x, q) ↦
            rw q ((λ d e. h d (laws.create_err timeout w w1 x d (ap (λ r. (r, w1)) q) e)), tt)
        | inl (c, q) ↦ rw q (
            ((over_socket-Keeps c seed pairing_code public_key timeout).at
              (record { sock = some c; ssl_conn = none; world = w1 })
              (
                (
                  (λ d e. elim (laws.create_ok timeout w w1 c d (ap (λ r. (r, w1)) q) e) [
                    | inl before ↦ inl (h d before)
                    | inr same ↦ inr same
                  ]),
                  tt,
                ),
                refl,
              )).0)
      ]

  suppressed :
      (kind : Error → Bool) (action : Exec W (Unit {0})) (w : W)
      → ((e : Error) → (action w).0 ≡ err e → kind e ≡ true)
      → (suppress kind action w).0 ≡ ok tt
  unfolding suppress
  suppressed kind action w h = elim (Result-cases (action w).0) [
    | inl (u, q) ↦ rw q
    | inr (e, q) ↦ rw (q, h e q)
  ]

  suppress-Keeps :
      (Q : W → Type 0) (kind : Error → Bool) (action : Exec W (Unit {0}))
      → Keeps Q action
      → Keeps Q (suppress kind action)
  unfolding suppress
  suppress-Keeps Q kind action h = record { at = λ w e. h.at w e }

  -- Behind its close, no socket is held any more.
  let_go : (c : C) (w : W) → In (OrHeld (some c) P) w → In P (n.close_socket c w).1
  let_go c w h d e = elim (h d (laws.close_none c d w e)) [
    | inl before ↦ before
    | inr same ↦
        absurd
          (ground (arith, laws.closed c w, sym e ∙ ap (λ x. is_open x (n.close_socket c w).1) same))
  ]

  end_socket_lem :
      (sock : Option C) (w : W)
      → In (OrHeld sock P) w
      → In P (end_socket n p credentials fuel sock w).1
  unfolding suppress
  end_socket_lem none w h = h
  end_socket_lem (some c) w h = let_go c w h

  end_socket-Keeps : (sock : Option C) → Keeps (In P) (end_socket n p credentials fuel sock)
  end_socket-Keeps none = Keeps-pure tt
  end_socket-Keeps (some c) =
      suppress-Keeps (In P) is_network_error (n.close_socket c) (opens_none P _ (laws.close_none c))

  -- The end of a connection closes its socket, also where it raises.
  end_ssl_lem :
      (s : S) (w : W)
      → In (OrHeld (some (socket_of s)) P) w
      → In P (end_ssl n p credentials fuel (some s) w).1
  unfolding ◌>>=◌ suppress
  end_ssl_lem s w h =
      let down = suppress is_ssl_error (n.shutdown s) in
      rw (suppressed is_ssl_error (n.shutdown s) w (laws.shutdown_error s w)) (
        subst (λ y. In P y.1) (sym (laws.close_is s (down w).1))
          (let_go (socket_of s) (down w).1 (
            (suppress-Keeps _ is_ssl_error (n.shutdown s)
                (opens_none (OrHeld (some (socket_of s)) P) _ (laws.shutdown_none s))).at
              w h)))

  cleanup_of :
      (sock : Option C) (ssl_conn : Option S) (w : W)
      → Held (record { sock = sock; ssl_conn = ssl_conn; world = w })
      → In P
          (cleanup n p credentials fuel
            (record { sock = sock; ssl_conn = ssl_conn; world = w })).1.world
  unfolding cleanup ◌>>=◌ zoom
  cleanup_of sock none w h = end_socket_lem sock w h.0
  cleanup_of sock (some s) w h =
      let ended = end_ssl n p credentials fuel (some s) w in
      let within : In P ended.1 = end_ssl_lem s w (subst (λ k. In (OrHeld k P) w) h.1 h.0) in
      elim (Result-cases ended.0) [
        | inl (u, q) ↦ rw q ((end_socket-Keeps sock).at ended.1 within)
        | inr (x, q) ↦ rw q within
      ]

  settled-Keeps :
      (seed : ℕ) (pairing_code public_key : List ℕ) (timeout : Option ℕ)
      → Keeps (In P) (settled n p credentials fuel seed pairing_code public_key timeout)
  unfolding settled finally translate
  settled-Keeps seed pairing_code public_key timeout = record {
    at = λ w h.
        let a =
          (attempt n p credentials fuel seed pairing_code public_key timeout
            (record { sock = none; ssl_conn = none; world = w })).1 in
        cleanup_of a.sock a.ssl_conn a.world
          (attempt_level seed pairing_code public_key timeout w h);
  }

none_opened :
    {W C S K : Type 0} (n : Network W C S) (p : Packages K) (credentials : Credentials) (fuel : ℕ)
    (is_open : C → W → Bool) (socket_of : S → C) (laws : HasSockets n is_open socket_of) (seed : ℕ)
    (pairing_code private_key_pem public_key : List ℕ) (timeout : Option ℕ) (w : W) (c : C)
    → is_open c (pair n p credentials fuel seed pairing_code private_key_pem public_key timeout w).1
      ≡ true
    → is_open c w ≡ true
unfolding pair
none_opened n p credentials fuel is_open socket_of laws seed [] private_key_pem public_key timeout w
      c h =
    h
none_opened n p credentials fuel is_open socket_of laws seed (digit ∷ digits) private_key_pem
      public_key timeout w c h =
    (Keeps-bind _ _ (Keeps-lift (credentials private_key_pem)) (λ pems.
        Keeps-bind _ _ (record { at = λ v h d e. h d (laws.context_none pems.0 pems.1 d v e) })
          (λ _.
            settled-Keeps n p credentials fuel is_open socket_of laws (λ d. is_open d w ≡ true) seed
              (digit ∷ digits) public_key timeout))).at
      w (λ d e. e) c h

-- Where sockets and connections behave as `HasSockets` says: whatever the device, the network and the packages
-- do, and whether `pair` returns or raises, a socket that was not open before is not open afterwards.
pub pair_closes :
    {W C S K : Type 0} (n : Network W C S) (p : Packages K) (credentials : Credentials) (fuel : ℕ)
    (is_open : C → W → Bool) (socket_of : S → C) (laws : HasSockets n is_open socket_of) (seed : ℕ)
    (pairing_code private_key_pem public_key : List ℕ) (timeout : Option ℕ) (w : W) (c : C)
    → is_open c w ≡ false
    → is_open c (pair n p credentials fuel seed pairing_code private_key_pem public_key timeout w).1
      ≡ false
pair_closes n p credentials fuel is_open socket_of laws seed pairing_code private_key_pem public_key
      timeout w c h =
    let w' = (pair n p credentials fuel seed pairing_code private_key_pem public_key timeout w).1 in
    elim (Bool-cases (is_open c w')) [
      | inr e ↦ e
      | inl e ↦ absurd (
          ground (
            arith,
            h,
            none_opened n p credentials fuel is_open socket_of laws seed pairing_code
                private_key_pem public_key timeout w c e,
          ))
    ]
