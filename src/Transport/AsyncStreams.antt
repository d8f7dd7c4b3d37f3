-- ===== src/Transport/AsyncStreams.antt =====
-- What the asynchronous transports (transport/tcp_transport_async.py and
-- transport/tls_transport_async.py) call of asyncio and async_timeout, which are parameters. `W` is the
-- world behind the streams, `R` a StreamReader, `P` a protocol; a StreamWriter is seen by the asyncio
-- transport below it, a plain one (`C`) or one in TLS (`S`).
use adb_shell.Common.{ℕ, List, Option, Bool, true, false}
use adb_shell.Errors.{Error, asyncio_timeout}
use adb_shell.Exec.{Exec}
use adb_shell.Transport.Sockets.{Connection}

-- Where a limit is given, the call is awaited under `async_timeout.timeout(limit)`.
pub record AsyncStreams (W R C S P : Type 0) : Type 0 where
  pub open_connection : Option ℕ → List ℕ → ℕ → Exec W (R × C)
  -- of a StreamReader
  pub read : Option ℕ → ℕ → R → Exec W (List ℕ)
  -- of a StreamWriter
  pub write : List ℕ → Connection C S → Exec W (Unit {0})
  pub drain : Option ℕ → Connection C S → Exec W (Unit {0})
  pub close : Connection C S → Exec W (Unit {0})
  pub wait_closed : Connection C S → Exec W (Unit {0})
  -- the tempfiles of _make_ssl_context, and loop.start_tls with the context that it returns
  pub ssl_context : List ℕ → List ℕ → Exec W (Unit {0})
  pub get_protocol : Connection C S → Exec W P
  pub start_tls : Option ℕ → List ℕ → List ℕ → Connection C S → P → Exec W S
  -- protocol._stream_writer = writer
  pub set_stream_writer : P → Connection C S → W → W

-- `except asyncio.TimeoutError`
abbrev pub is_timeout : Error → Bool
is_timeout asyncio_timeout = true
is_timeout _ = false
