-- ===== src/Transport.antt =====
-- transport/base_transport.py: what the I/O manager asks of a transport. The transports are wrappers
-- of sockets, of libusb and of the TLS library, so they are parameters: `D` is whatever a transport
-- and the world behind it keep, the clock included.
pub mod Stream
pub mod Script
pub mod Sockets
pub mod Tcp
pub mod Tls
pub mod AsyncStreams
pub mod TcpAsync
pub mod TlsAsync
pub mod Usb
use adb_shell.Common.{ℕ, List, Option}
use adb_shell.Exec.{Exec}
use adb_shell.Errors.{Result}

pub record Transport (D : Type 0) : Type 0 where
  -- close()
  pub close : D → D
  -- connect(transport_timeout_s)
  pub connect : Option ℕ → Exec D (Unit {0})
  -- bulk_read(numbytes, transport_timeout_s)
  pub bulk_read : ℕ → Option ℕ → Exec D (List ℕ)
  -- bulk_write(data, transport_timeout_s), the number of bytes written
  pub bulk_write : List ℕ → Option ℕ → Exec D ℕ
  -- tls_upgrade(cert_pem, key_pem), on the transports that have it
  pub tls_upgrade : Option (List ℕ → List ℕ → Exec D (Unit {0}))
  -- time.time(), in microseconds
  pub time : D → ℕ × D

-- A signer of auth/: `Sign` and `GetPublicKey`, as bytes.
pub record Signer : Type 0 where
  pub sign : List ℕ → Result (List ℕ)
  pub public_key : Result (List ℕ)

-- From the PEM text of a key: the certificate and the key that the TLS handshake takes (auth/x509.py,
-- which calls the `cryptography` package).
abbrev pub Credentials : Type 0
Credentials = List ℕ → Result (List ℕ × List ℕ)
