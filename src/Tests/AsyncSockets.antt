-- ===== src/Tests/AsyncSockets.antt =====
-- The asynchronous transports over streams that keep what they are handed, and whose `drain` is cut off.
use adb_shell.Common.{ℕ, ◌≡◌, ◌↔◌, List, [], ◌∷◌, ◌++◌, Option, none, some, true, take}
use adb_shell.Errors.{ok, err, asyncio_timeout}
use adb_shell.Exec.{◌>>=◌, zoom}
use adb_shell.Transport.Sockets.{Connection, secure, translate}
use adb_shell.Transport.AsyncStreams.{AsyncStreams}
use adb_shell.Transport.TlsAsync
use adb_shell.Transport.TlsAsync.{TlsTransportAsync, new_tls}
use adb_shell.Transport.TlsAsync.States.{
  connect_call, upgrade_call, Calls, here, next, async_matched,
}

abbrev stalled : AsyncStreams (List ℕ) (Unit {0}) (Unit {0}) (Unit {0}) (Unit {0})
stalled = record {
  open_connection = λ limit host port w. (ok (tt, tt), w);
  read = λ limit n r w. (ok (take n (1 ∷ [])), w);
  write = λ payload c w. (ok tt, w ++ payload);
  drain = λ limit c w. (err asyncio_timeout, w);
  close = λ c w. (ok tt, w);
  wait_closed = λ c w. (ok tt, w);
  ssl_context = λ cert key w. (ok tt, w);
  get_protocol = λ c w. (ok tt, w);
  start_tls = λ limit cert key c protocol w. (ok tt, w);
  set_stream_writer = λ protocol c w. w;
}

abbrev tls_new : TlsTransportAsync (List ℕ) (Unit {0}) (Unit {0}) (Unit {0})
tls_new = new_tls (b'h' ∷ []) 5555 []

abbrev tls_done : TlsTransportAsync (List ℕ) (Unit {0}) (Unit {0}) (Unit {0})
tls_done = record tls_new { reader = some tt; writer = some (secure tt); is_tls = true }

history : Calls stalled tls_new tls_done
unfolding TlsAsync.connect TlsAsync.tls_upgrade ◌>>=◌ zoom translate
history = next (next here (connect_call (some 9))) (upgrade_call [] [] 10000000)

async_matched_example :
    ((true ≡ true) ↔ (
      (c : Unit {0}) × (◌≡◌ {A = Option (Connection (Unit {0}) (Unit {0}))}
        (some (secure tt))
        (some (secure c)))))
    × ((◌≡◌ {A = Option (Unit {0})} (some tt) none)
        ↔ (◌≡◌ {A = Option (Connection (Unit {0}) (Unit {0}))} (some (secure tt)) none))
async_matched_example = async_matched stalled (b'h' ∷ []) 5555 [] tls_done history
