-- ===== src/Transport/Tls.antt =====
-- TlsTransport of transport/tls_transport.py.
pub mod Upgrade
use adb_shell.Common.{ℕ, List, Option, none, some, Bool, true, false, if◌then◌else◌}
use adb_shell.Errors.{
  Error, Result, ok, err, tcp_timeout, attribute_error, runtime_error, socket_timeout, want_read,
  want_write,
}
use adb_shell.Exec.{Exec, pure, raise, gets, modify, zoom, ◌>>=◌, ◌>>◌}
use adb_shell.Transport.Sockets.{
  Sockets, Connection, plain, secure, is_os_error, is_handshake_error, suppress, translate,
}

-- The transport, and the world behind its socket.
pub record TlsTransport (W C S : Type 0) : Type 0 where
  pub host : List ℕ
  pub port : ℕ
  pub connection : Option (Connection C S)
  pub is_tls : Bool
  pub world : W

abbrev pub new_tls : {W C S : Type 0} → List ℕ → ℕ → W → TlsTransport W C S
new_tls host port world = record {
  host = host;
  port = port;
  connection = none;
  is_tls = false;
  world = world;
}

-- handshake_timeout_s=10.0, in microseconds
abbrev pub handshake_timeout : ℕ
handshake_timeout = 10000000

-- `except socket.timeout` and `except ssl.SSLWantReadError`, and the same for a write
abbrev pub is_read_timeout : Error → Bool
is_read_timeout socket_timeout = true
is_read_timeout want_read = true
is_read_timeout _ = false

abbrev pub is_write_timeout : Error → Bool
is_write_timeout socket_timeout = true
is_write_timeout want_write = true
is_write_timeout _ = false

module _ {W C S : Type 0} (s : Sockets W C S) where
  abbrev pub on_world : {A : Type 0} → Exec W A → Exec (TlsTransport W C S) A
  on_world m = zoom (λ t. t.world) (λ w t. record t { world = w }) m

  abbrev pub close_socket : Option (Connection C S) → Exec (TlsTransport W C S) (Unit {0})
  close_socket none = pure tt
  close_socket (some c) = do
    on_world (suppress is_os_error (s.shutdown c))
    on_world (suppress is_os_error (s.close c))
    modify (λ t. record t { connection = none })

  unfoldable pub close : Exec (TlsTransport W C S) (Unit {0})
  close = do
    connection ← gets (λ t. t.connection)
    close_socket connection
    modify (λ t. record t { is_tls = false })

  unfoldable pub connect : Option ℕ → Exec (TlsTransport W C S) (Unit {0})
  connect transport_timeout = do
    host ← gets (λ t. t.host)
    port ← gets (λ t. t.port)
    c ← on_world (s.create_connection host port transport_timeout)
    modify (λ t. record t { connection = some (plain c) })
    on_world (s.set_timeout none (plain c))
    modify (λ t. record t { is_tls = false })

  abbrev pub upgrade_socket :
      List ℕ → List ℕ → ℕ → Option (Connection C S) → Bool → Exec (TlsTransport W C S) (Unit {0})
  upgrade_socket cert key timeout none is_tls = raise runtime_error
  upgrade_socket cert key timeout (some c) true = raise runtime_error
  upgrade_socket cert key timeout (some c) false = do
    on_world (s.ssl_context cert key)
    on_world (s.set_timeout (some timeout) c)
    wrapped ← on_world (translate is_handshake_error tcp_timeout (s.wrap_socket cert key c))
    on_world (s.set_timeout none (secure wrapped))
    modify (λ t. record t { connection = some (secure wrapped) })
    modify (λ t. record t { is_tls = true })

  unfoldable pub tls_upgrade : List ℕ → List ℕ → ℕ → Exec (TlsTransport W C S) (Unit {0})
  tls_upgrade cert key timeout = do
    connection ← gets (λ t. t.connection)
    is_tls ← gets (λ t. t.is_tls)
    upgrade_socket cert key timeout connection is_tls

  -- A method of `None` is no attribute.
  abbrev pub with_socket :
      {A : Type 0} → (Connection C S → Exec W A) → Option (Connection C S) → Exec W A
  with_socket m none = raise attribute_error
  with_socket m (some c) = m c

  unfoldable pub bulk_read : ℕ → Option ℕ → Exec (TlsTransport W C S) (List ℕ)
  bulk_read numbytes transport_timeout = do
    connection ← gets (λ t. t.connection)
    on_world (
        with_socket
          (λ c. do
            s.set_timeout transport_timeout c
            translate is_read_timeout tcp_timeout (s.recv numbytes c))
          connection)

  unfoldable pub bulk_write : List ℕ → Option ℕ → Exec (TlsTransport W C S) ℕ
  bulk_write payload transport_timeout = do
    connection ← gets (λ t. t.connection)
    on_world (
        with_socket
          (λ c. do
            s.set_timeout transport_timeout c
            translate is_write_timeout tcp_timeout (s.send payload c))
          connection)
