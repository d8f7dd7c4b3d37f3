-- ===== src/Pairing/Device.antt =====
-- `pair` of pairing/pairing_device.py: the session below a PairingConnection, from its socket to its end.
-- The socket and OpenSSL's connection are parameters.
pub mod Calm
pub mod Cleanup
use adb_shell.Common.{
  ℕ, ◌+◌, List, [], ◌∷◌, Option, none, some, Bool, true, false, ◌||◌, ◌==◌, if◌then◌else◌,
}
use adb_shell.Errors.{
  Error, Result, ok, err, value_error, pairing_failed, want_read, want_write, zero_return,
  ssl_error, os_error, socket_timeout,
}
use adb_shell.Exec.{Exec, pure, raise, lift, gets, modify, zoom, finally, ◌>>=◌, ◌>>◌}
use adb_shell.Transport.{Credentials}
use adb_shell.Transport.Sockets.{suppress, translate}
use adb_shell.Pairing.Packets.{PeerInfo, make_peer_info_from_pubkey}
use adb_shell.Pairing.Auth.{Packages}
use adb_shell.Pairing.Channel.{Tls, retry_on_want, send_all, recv_exact}
use adb_shell.Pairing.Connection.{Channel, run}

-- `C` is a socket, and `S` an SSL.Connection.
pub record Network (W C S : Type 0) : Type 0 where
  -- _build_ssl_context
  pub build_context : List ℕ → List ℕ → Exec W (Unit {0})
  -- socket.create_connection((host, port), timeout=timeout_s), setsockopt and setblocking, close
  pub create_connection : Option ℕ → Exec W C
  pub set_no_delay : C → Exec W (Unit {0})
  pub set_blocking : C → Exec W (Unit {0})
  pub close_socket : C → Exec W (Unit {0})
  -- SSL.Connection(ctx, sock), and its methods; what it does to its socket is theirs to say
  pub new_connection : C → Exec W S
  pub set_connect_state : S → Exec W (Unit {0})
  pub do_handshake : S → Exec W (Unit {0})
  pub shutdown : S → Exec W (Unit {0})
  pub close : S → Exec W (Unit {0})
  pub export_keying_material : S → List ℕ → ℕ → Exec W (List ℕ)
  -- time.monotonic(), in microseconds
  pub monotonic : W → ℕ × W
  -- send and recv of the connection, select on the socket, and the clock
  pub tls : C → S → Tls W

-- The variables of `pair` that its `finally` looks at.
pub record Attempt (W C S : Type 0) : Type 0 where
  pub sock : Option C
  pub ssl_conn : Option S
  pub world : W

-- `except SSL.Error`, and `except (socket.timeout, socket.gaierror, OSError)`
abbrev pub is_ssl_error : Error → Bool
is_ssl_error want_read = true
is_ssl_error want_write = true
is_ssl_error zero_return = true
is_ssl_error ssl_error = true
is_ssl_error _ = false

abbrev pub is_network_error : Error → Bool
is_network_error os_error = true
is_network_error socket_timeout = true
is_network_error _ = false

module _ {W C S K : Type 0} (n : Network W C S) (p : Packages K) (credentials : Credentials)
    (fuel : ℕ) where
  abbrev pub on_world : {A : Type 0} → Exec W A → Exec (Attempt W C S) A
  on_world m = zoom (λ a. a.world) (λ w a. record a { world = w }) m

  -- The transport and the exporter of the PairingConnection.
  abbrev pub channel : C → S → Option ℕ → Channel W
  channel sock ssl_conn deadline = record {
    send_all = send_all (n.tls sock ssl_conn) fuel deadline;
    recv_exact = recv_exact (n.tls sock ssl_conn) fuel deadline;
    exporter = n.export_keying_material ssl_conn;
  }

  -- From the handshake of TLS on.
  unfoldable pub over_tls : ℕ → List ℕ → List ℕ → C → S → Option ℕ → Exec W PeerInfo
  over_tls seed pairing_code public_key sock ssl_conn deadline = do
    n.set_connect_state ssl_conn
    retry_on_want (n.tls sock ssl_conn) fuel (n.do_handshake ssl_conn) deadline
    peer_info ← lift (make_peer_info_from_pubkey public_key)
    run (channel sock ssl_conn deadline) p seed pairing_code peer_info

  -- time.monotonic() + timeout_s if timeout_s else None
  abbrev pub deadline_in : Option ℕ → Exec W (Option ℕ)
  deadline_in none = pure none
  deadline_in (some timeout) =
      if timeout == 0
      then pure none
      else (λ w. let (now, w') = n.monotonic w in (ok (some (now + timeout)), w'))

  -- The body of the `try`, once there is a socket.
  unfoldable pub over_socket : ℕ → List ℕ → List ℕ → Option ℕ → C → Exec (Attempt W C S) PeerInfo
  over_socket seed pairing_code public_key timeout sock = do
    on_world (n.set_no_delay sock)
    on_world (n.set_blocking sock)
    deadline ← on_world (deadline_in timeout)
    ssl_conn ← on_world (n.new_connection sock)
    modify (λ a. record a { ssl_conn = some ssl_conn })
    on_world (over_tls seed pairing_code public_key sock ssl_conn deadline)

  -- The body of the `try`.
  unfoldable pub attempt : ℕ → List ℕ → List ℕ → Option ℕ → Exec (Attempt W C S) PeerInfo
  attempt seed pairing_code public_key timeout = do
    sock ← on_world (n.create_connection timeout)
    modify (λ a. record a { sock = some sock })
    over_socket seed pairing_code public_key timeout sock

  abbrev pub end_ssl : Option S → Exec W (Unit {0})
  end_ssl none = pure tt
  end_ssl (some ssl_conn) = do
    suppress is_ssl_error (n.shutdown ssl_conn)
    suppress is_ssl_error (n.close ssl_conn)

  abbrev pub end_socket : Option C → Exec W (Unit {0})
  end_socket none = pure tt
  end_socket (some sock) = suppress is_network_error (n.close_socket sock)

  -- The `finally`.
  unfoldable pub cleanup : Exec (Attempt W C S) (Unit {0})
  cleanup = do
    ssl_conn ← gets (λ a. a.ssl_conn)
    on_world (end_ssl ssl_conn)
    sock ← gets (λ a. a.sock)
    on_world (end_socket sock)

  -- An attempt with nothing opened yet.
  unfoldable pub settled : ℕ → List ℕ → List ℕ → Option ℕ → Exec W PeerInfo
  settled seed pairing_code public_key timeout w =
      let (r, a) =
        finally
          (translate (λ e. is_ssl_error e || is_network_error e) pairing_failed
            (attempt seed pairing_code public_key timeout))
          cleanup (record { sock = none; ssl_conn = none; world = w }) in
      (r, a.world)

  unfoldable pub pair : ℕ → List ℕ → List ℕ → List ℕ → Option ℕ → Exec W PeerInfo
  pair seed [] private_key_pem public_key timeout = raise value_error
  pair seed (digit ∷ digits) private_key_pem public_key timeout = do
    (cert, key) ← lift (credentials private_key_pem)
    n.build_context cert key
    settled seed (digit ∷ digits) public_key timeout
