-- ===== src/Transport/TlsAsync.antt =====
-- TlsTransportAsync of transport/tls_transport_async.py.
pub mod States
use adb_shell.Common.{ℕ, List, Option, none, some, Bool, true, false, length}
use adb_shell.Errors.{tcp_timeout, attribute_error, runtime_error}
use adb_shell.Exec.{Exec, pure, raise, gets, modify, zoom, ◌>>=◌, ◌>>◌}
use adb_shell.Transport.Sockets.{Connection, plain, secure, is_os_error, suppress, translate}
use adb_shell.Transport.AsyncStreams.{AsyncStreams, is_timeout}

-- The transport, and the world behind its streams. A writer is the asyncio transport that it writes to.
pub record TlsTransportAsync (W R C S : Type 0) : Type 0 where
  pub host : List ℕ
  pub port : ℕ
  pub reader : Option R
  pub writer : Option (Connection C S)
  pub is_tls : Bool
  pub world : W

abbrev pub new_tls : {W R C S : Type 0} → List ℕ → ℕ → W → TlsTransportAsync W R C S
new_tls host port world = record {
  host = host;
  port = port;
  reader = none;
  writer = none;
  is_tls = false;
  world = world;
}

module _ {W R C S P : Type 0} (s : AsyncStreams W R C S P) where
  abbrev pub on_world : {A : Type 0} → Exec W A → Exec (TlsTransportAsync W R C S) A
  on_world m = zoom (λ t. t.world) (λ w t. record t { world = w }) m

  abbrev pub close_writer : Option (Connection C S) → Exec W (Unit {0})
  close_writer none = pure tt
  close_writer (some c) = suppress is_os_error (do s.close c; s.wait_closed c)

  unfoldable pub close : Exec (TlsTransportAsync W R C S) (Unit {0})
  close = do
    writer ← gets (λ t. t.writer)
    on_world (close_writer writer)
    modify (λ t. record t { reader = none; writer = none; is_tls = false })

  unfoldable pub connect : Option ℕ → Exec (TlsTransportAsync W R C S) (Unit {0})
  connect transport_timeout = do
    host ← gets (λ t. t.host)
    port ← gets (λ t. t.port)
    (reader, writer) ←
        on_world (translate is_timeout tcp_timeout (s.open_connection transport_timeout host port))
    modify (λ t. record t { reader = some reader; writer = some (plain writer) })
    modify (λ t. record t { is_tls = false })

  -- The writer is given the new transport in place; the reader is fed by the protocol, which stays.
  abbrev pub upgrade_writer :
      List ℕ
      → List ℕ
      → ℕ
      → Option (Connection C S)
      → Option R
      → Bool
      → Exec (TlsTransportAsync W R C S) (Unit {0})
  upgrade_writer cert key timeout (some c) (some r) false = do
    on_world (s.ssl_context cert key)
    protocol ← on_world (s.get_protocol c)
    upgraded ←
        on_world (translate is_timeout tcp_timeout (s.start_tls (some timeout) cert key c protocol))
    modify (λ t. record t { writer = some (secure upgraded) })
    on_world (modify (s.set_stream_writer protocol (secure upgraded)))
    modify (λ t. record t { is_tls = true })
  upgrade_writer cert key timeout writer reader is_tls = raise runtime_error

  unfoldable pub tls_upgrade : List ℕ → List ℕ → ℕ → Exec (TlsTransportAsync W R C S) (Unit {0})
  tls_upgrade cert key timeout = do
    writer ← gets (λ t. t.writer)
    reader ← gets (λ t. t.reader)
    is_tls ← gets (λ t. t.is_tls)
    upgrade_writer cert key timeout writer reader is_tls

  -- A method of `None` is no attribute.
  abbrev pub read_from : ℕ → Option ℕ → Option R → Exec W (List ℕ)
  read_from numbytes transport_timeout none = raise attribute_error
  read_from numbytes transport_timeout (some r) =
      translate is_timeout tcp_timeout (s.read transport_timeout numbytes r)

  unfoldable pub bulk_read : ℕ → Option ℕ → Exec (TlsTransportAsync W R C S) (List ℕ)
  bulk_read numbytes transport_timeout = do
    reader ← gets (λ t. t.reader)
    on_world (read_from numbytes transport_timeout reader)

  -- Only the wait for `drain` has a limit.
  abbrev pub write_to : List ℕ → Option ℕ → Option (Connection C S) → Exec W ℕ
  write_to payload transport_timeout none = raise attribute_error
  write_to payload transport_timeout (some c) =
      translate is_timeout tcp_timeout
        (do s.write payload c; s.drain transport_timeout c; pure (length payload))

  unfoldable pub bulk_write : List ℕ → Option ℕ → Exec (TlsTransportAsync W R C S) ℕ
  bulk_write payload transport_timeout = do
    writer ← gets (λ t. t.writer)
    on_world (write_to payload transport_timeout writer)
