-- ===== src/Transport/Sockets.antt =====
-- What the transports over TCP (transport/tcp_transport.py and transport/tls_transport.py) call of the
-- modules socket, select and ssl, which are parameters, and the exceptions that they catch.
use adb_shell.Common.{ℕ, List, Option, Bool, true, false, if◌then◌else◌}
use adb_shell.Errors.{
  Error, Result, ok, err, want_read, want_write, zero_return, ssl_error, os_error, socket_timeout,
}
use adb_shell.Exec.{Exec}

-- `W` is the world behind the sockets, `C` a socket and `S` one that is wrapped in TLS.
pub data Connection (C S : Type 0) : Type 0 where
  plain : C → Connection C S
  secure : S → Connection C S

pub record Sockets (W C S : Type 0) : Type 0 where
  -- socket.create_connection((host, port), timeout=...)
  pub create_connection : List ℕ → ℕ → Option ℕ → Exec W C
  -- of a socket
  pub set_timeout : Option ℕ → Connection C S → Exec W (Unit {0})
  pub set_non_blocking : Connection C S → Exec W (Unit {0})
  pub shutdown : Connection C S → Exec W (Unit {0})
  pub close : Connection C S → Exec W (Unit {0})
  pub recv : ℕ → Connection C S → Exec W (List ℕ)
  pub send : List ℕ → Connection C S → Exec W ℕ
  -- whether select.select gives the socket back
  pub wait_read : Option ℕ → Connection C S → Exec W Bool
  pub wait_write : Option ℕ → Connection C S → Exec W Bool
  -- the tempfiles of _make_ssl_context, and wrap_socket of the context that it returns
  pub ssl_context : List ℕ → List ℕ → Exec W (Unit {0})
  pub wrap_socket : List ℕ → List ℕ → Connection C S → Exec W S

-- `except OSError`: the errors of socket and of ssl are such.
abbrev pub is_os_error : Error → Bool
is_os_error os_error = true
is_os_error socket_timeout = true
is_os_error want_read = true
is_os_error want_write = true
is_os_error zero_return = true
is_os_error ssl_error = true
is_os_error _ = false

-- `except (ssl.SSLError, socket.timeout)`
abbrev pub is_handshake_error : Error → Bool
is_handshake_error socket_timeout = true
is_handshake_error want_read = true
is_handshake_error want_write = true
is_handshake_error zero_return = true
is_handshake_error ssl_error = true
is_handshake_error _ = false

-- What a `try` makes of an error: those of a kind are swallowed, or become another one.
abbrev pub passed : (Error → Bool) → Result (Unit {0}) → Result (Unit {0})
passed kind (ok _) = ok tt
passed kind (err e) = if kind e then ok tt else err e

abbrev pub translated {ℓ} : {A : Type ℓ} → (Error → Bool) → Error → Result A → Result A
translated kind other (ok a) = ok a
translated kind other (err e) = if kind e then err other else err e

unfoldable pub suppress : {W : Type 0} → (Error → Bool) → Exec W (Unit {0}) → Exec W (Unit {0})
suppress kind m w = let (r, w') = m w in (passed kind r, w')

unfoldable pub translate : {W A : Type 0} → (Error → Bool) → Error → Exec W A → Exec W A
translate kind other m w = let (r, w') = m w in (translated kind other r, w')
