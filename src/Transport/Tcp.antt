-- ===== src/Transport/Tcp.antt =====
-- TcpTransport of transport/tcp_transport.py.
use adb_shell.Common.{ℕ, List, Option, none, some, Bool, false, ◌==◌, not, if◌then◌else◌}
use adb_shell.Errors.{tcp_timeout, type_error}
use adb_shell.Exec.{Exec, pure, raise, gets, modify, zoom, ◌>>=◌, ◌>>◌}
use adb_shell.Transport.Sockets.{Sockets, Connection, plain, is_os_error, suppress}

-- The transport, and the world behind its socket.
pub record TcpTransport (W C S : Type 0) : Type 0 where
  pub host : List ℕ
  pub port : ℕ
  pub connection : Option (Connection C S)
  pub world : W

abbrev pub new_tcp : {W C S : Type 0} → List ℕ → ℕ → W → TcpTransport W C S
new_tcp host port world = record { host = host; port = port; connection = none; world = world }

-- `if transport_timeout_s`
abbrev pub is_given : Option ℕ → Bool
is_given none = false
is_given (some n) = not (n == 0)

module _ {W C S : Type 0} (s : Sockets W C S) where
  abbrev pub on_world : {A : Type 0} → Exec W A → Exec (TcpTransport W C S) A
  on_world m = zoom (λ t. t.world) (λ w t. record t { world = w }) m

  abbrev pub close_socket : Option (Connection C S) → Exec (TcpTransport W C S) (Unit {0})
  close_socket none = pure tt
  close_socket (some c) = do
    on_world (suppress is_os_error (s.shutdown c))
    on_world (s.close c)
    modify (λ t. record t { connection = none })

  unfoldable pub close : Exec (TcpTransport W C S) (Unit {0})
  close = do connection ← gets (λ t. t.connection); close_socket connection

  unfoldable pub connect : Option ℕ → Exec (TcpTransport W C S) (Unit {0})
  connect transport_timeout = do
    host ← gets (λ t. t.host)
    port ← gets (λ t. t.port)
    c ← on_world (s.create_connection host port transport_timeout)
    modify (λ t. record t { connection = some (plain c) })
    if is_given transport_timeout then on_world (s.set_non_blocking (plain c)) else pure tt

  -- select.select takes no `None` for a socket.
  abbrev pub with_socket :
      {A : Type 0} → (Connection C S → Exec W A) → Option (Connection C S) → Exec W A
  with_socket m none = raise type_error
  with_socket m (some c) = m c

  unfoldable pub bulk_read : ℕ → Option ℕ → Exec (TcpTransport W C S) (List ℕ)
  bulk_read numbytes transport_timeout = do
    connection ← gets (λ t. t.connection)
    on_world (
        with_socket
          (λ c. do
            readable ← s.wait_read transport_timeout c
            if readable then s.recv numbytes c else raise tcp_timeout)
          connection)

  unfoldable pub bulk_write : List ℕ → Option ℕ → Exec (TcpTransport W C S) ℕ
  bulk_write payload transport_timeout = do
    connection ← gets (λ t. t.connection)
    on_world (
        with_socket
          (λ c. do
            writeable ← s.wait_write transport_timeout c
            if writeable then s.send payload c else raise tcp_timeout)
          connection)
